-- ===== src/Conversation/Query.antt =====
-- `ListConversations`, `FindConversation` and `SortedConversations`.
use ape_server.Prelude.{
  ℕ, zero, suc, ◌+◌, ◌-◌, ◌*◌, Bool, true, false, not, ◌&&◌, ◌||◌, Option, List, [], ◌∷◌, Bytes,
  bytes_eq, ltb, ◌==◌, if◌then◌else◌, length, take, find, select, any, Result, ok, ◌>>◌, guard,
}
use ape_server.Conversation.Data.{ConversationRow, Db, Failure, invalid_argument, is_of}

-- Byte by byte, as the binary column of the identifier is ordered.
bytes_lt : Bytes → Bytes → Bool
bytes_lt xs [] = false
bytes_lt [] (y ∷ ys) = true
bytes_lt (x ∷ xs) (y ∷ ys) = ltb x y || (x == y && bytes_lt xs ys)

-- ORDER BY is_pinned DESC,latest_time DESC,conversation_id DESC
unfoldable pub precedes : ConversationRow → ConversationRow → Bool
unfolding bytes_lt
precedes a b =
    if a.pinned
    then (if b.pinned then later a b else true)
    else (if b.pinned then false else later a b)
  where
    later : ConversationRow → ConversationRow → Bool
    later a b =
        ltb b.latest_time a.latest_time
        || (a.latest_time == b.latest_time && not (bytes_lt a.id b.id))

unfoldable pub insert_sorted : ConversationRow → List ConversationRow → List ConversationRow
insert_sorted r [] = r ∷ []
insert_sorted r (s ∷ rows) =
    let rest = insert_sorted r rows in if precedes r s then r ∷ s ∷ rows else s ∷ rest

unfoldable pub sorted : List ConversationRow → List ConversationRow
sorted [] = []
sorted (r ∷ rows) = insert_sorted r (sorted rows)

abbrev pub is_visible_to : ℕ → ConversationRow → Bool
is_visible_to owner r = r.owner == owner && not r.hidden

unfoldable pub list_conversations : ℕ → Db → List ConversationRow
list_conversations owner db = sorted (select (is_visible_to owner) db.conversations)

unfoldable pub find_conversation : ℕ → Bytes → Db → Option ConversationRow
find_conversation owner id db =
    find (λ (r : ConversationRow). is_of owner id r && not r.hidden) db.conversations

unfoldable pub drop : ℕ → List ConversationRow → List ConversationRow
drop zero rows = rows
drop (suc n) [] = []
drop (suc n) (r ∷ rows) = drop n rows

unfoldable pub unread_sum : List ConversationRow → ℕ
unread_sum [] = 0
unread_sum (r ∷ rows) = r.unread_count + unread_sum rows

pub record Page : Type 0 where
  pub total : ℕ
  pub unread_total : ℕ
  pub elements : List ConversationRow

-- A page or a size below 1 counts as 1, a size above 100 as 100.
unfoldable pub sorted_conversations : ℕ → List Bytes → ℕ → ℕ → Db → Result Failure Page
sorted_conversations owner ids number size db = do
  guard (not (owner == 0 || ltb 1000 (length ids))) invalid_argument
  let chosen =
      select
        (λ (r : ConversationRow).
          is_visible_to owner r && (length ids == 0 || any (λ id. bytes_eq r.id id) ids))
        db.conversations
  let page = if ltb number 1 then 1 else number
  let shown = if ltb size 1 then 1 else if ltb 100 size then 100 else size
  ok (record {
    total = length chosen;
    unread_total = unread_sum chosen;
    elements = take shown (drop ((page - 1) * shown) (sorted chosen));
  })
