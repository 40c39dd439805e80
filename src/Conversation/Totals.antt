-- ===== src/Conversation/Totals.antt =====
-- The totals of a page agree with the whole list.
use ape_server.Prelude.{
  ℕ, ◌+◌, ◌≤◌, ◌≡◌, refl, sym, ap, fun_ext, true, false, not, ◌&&◌, ◌||◌, List, [], ◌∷◌, arith,
  length, length-take, take, select, ◌==◌, ltb, if◌then◌else◌, Ensures, Ensures-guard,
}
use ape_server.Conversation.Data.{ConversationRow, Db, invalid_argument}
use ape_server.Conversation.Query.{
  insert_sorted, sorted, is_visible_to, list_conversations, unread_sum, Page, sorted_conversations,
}

insert_sorted-sum :
    (r : ConversationRow) (rows : List ConversationRow)
    → unread_sum (insert_sorted r rows) ≡ r.unread_count + unread_sum rows
unfolding insert_sorted unread_sum
insert_sorted-sum r [] = refl
insert_sorted-sum r (s ∷ rows) = ground (arith, insert_sorted-sum r rows)

sorted-sum : (rows : List ConversationRow) → unread_sum (sorted rows) ≡ unread_sum rows
unfolding sorted unread_sum
sorted-sum [] = refl
sorted-sum (r ∷ rows) = omega (arith, insert_sorted-sum r (sorted rows), sorted-sum rows)

length-insert_sorted :
    (r : ConversationRow) (rows : List ConversationRow)
    → length (insert_sorted r rows) ≡ length rows + 1
unfolding insert_sorted
length-insert_sorted r [] = omega arith
length-insert_sorted r (s ∷ rows) = ground (arith, length-insert_sorted r rows)

length-sorted : (rows : List ConversationRow) → length (sorted rows) ≡ length rows
unfolding sorted
length-sorted [] = refl
length-sorted (r ∷ rows) = omega (arith, length-insert_sorted r (sorted rows), length-sorted rows)

-- What a page says of the whole.
pub record Agrees (owner : ℕ) (db : Db) (p : Page) : Type 0 where
  pub total : p.total ≡ length (list_conversations owner db)
  pub unread : p.unread_total ≡ unread_sum (list_conversations owner db)
  pub at_most : length p.elements ≤ 100

visible :
    (owner : ℕ) (db : Db)
    → select (λ (r : ConversationRow). is_visible_to owner r && true) db.conversations
      ≡ select (is_visible_to owner) db.conversations
visible owner db = ap (λ p. select p db.conversations) (fun_ext λ r. ground arith)

page_at_most :
    (size : ℕ) (rows : List ConversationRow)
    → length (take (if ltb size 1 then 1 else if ltb 100 size then 100 else size) rows) ≤ 100
page_at_most size rows =
    ground (arith, length-take (if ltb size 1 then 1 else if ltb 100 size then 100 else size) rows)

-- Without a list of identifiers, a page of the sorted conversations announces as many conversations
-- as the owner's list has, and the sum of their unread counts, whatever page is asked for; it has at
-- most 100 of them.
pub sorted_conversations-Agrees :
    (owner number size : ℕ) (db : Db)
    → Ensures (Agrees owner db) (sorted_conversations owner [] number size db)
unfolding sorted_conversations list_conversations
sorted_conversations-Agrees owner number size db = rw (visible owner db) (
    Ensures-guard (Agrees owner db) (not (owner == 0 || false)) invalid_argument _ λ _. record {
      total = sym (length-sorted (select (is_visible_to owner) db.conversations));
      unread = sym (sorted-sum (select (is_visible_to owner) db.conversations));
      at_most = page_at_most size _;
    })
