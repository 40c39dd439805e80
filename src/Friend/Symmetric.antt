-- ===== src/Friend/Symmetric.antt =====
-- Friendships have both directions or none, and end with their messages.
use ape_server.Prelude.{
  ℕ, ◌+◌, ◌≡◌, refl, sym, ap, subst, ◌∙◌, inl, inr, Bool, true, false, ◌&&◌, ◌||◌, List, [], ◌∷◌,
  ◌++◌, Bool-cases, Option-cases, ◌==◌, arith, find, delete, any, any-delete_own, any-delete_other,
  count, count_zero, count-delete_own, unmatched, ok, Ensures, Ensures-bind,
}
use ape_server.Outbox.Data.{FriendRow, DeletionRow, friend_allows}
use ape_server.Outbox.Queue.{queue_cleanup}
use ape_server.Friend.Data.{Operation, Command, ApplicationRow, Db, is_pair, is_either}
use ape_server.Friend.Mutate.{
  is_application, application, target_of, is_pending_between, apply, end_friendship, remove_chat,
  delete_friend, add_friend, befriend, set_handled, handle_application, run, mutate,
  with_application, new_application,
}

abbrev pub AreSymmetric : List FriendRow → Type 0
AreSymmetric fs = (a b : ℕ) → any (is_pair a b) fs ≡ true → any (is_pair b a) fs ≡ true

abbrev pub IsSymmetric : Db → Type 0
IsSymmetric db = AreSymmetric db.outbox.friends

any-append_one :
    (a b x y : ℕ) (fs : List FriendRow)
    → any (is_pair a b) (fs ++ record { owner = x; friend = y } ∷ [])
      ≡ (any (is_pair a b) fs || (x == a && y == b))
unfolding any
any-append_one a b x y [] = ground arith
any-append_one a b x y (f ∷ fs) = ground (arith, any-append_one a b x y fs)

-- The pair a, b is the pair x, y in one of its orders.
abbrev is_same_pair : ℕ → ℕ → ℕ → ℕ → Bool
is_same_pair x y a b = (a == x && b == y) || (a == y && b == x)

is_either-pair :
    (a b x y : ℕ) (f : FriendRow) → is_pair a b f ≡ true → is_either x y f ≡ is_same_pair x y a b
is_either-pair a b x y f h =
    let owner : f.owner ≡ a = ground arith in
    let friend : f.friend ≡ b = ground arith in rw (owner, friend) refl

is_same_pair-swap : (x y a b : ℕ) → is_same_pair x y a b ≡ false → is_same_pair x y b a ≡ false
is_same_pair-swap x y a b h = ground arith

delete-AreSymmetric :
    (x y : ℕ) (fs : List FriendRow) → AreSymmetric fs → AreSymmetric (delete (is_either x y) fs)
delete-AreSymmetric x y fs s a b h = elim (Bool-cases (is_same_pair x y a b)) [
  | inl e ↦
      let gone : any (is_pair a b) (delete (is_either x y) fs) ≡ false =
        any-delete_own (is_pair a b) (is_either x y) fs (λ f k. is_either-pair a b x y f k ∙ e) in
      cc
  | inr e ↦
      any-delete_other (is_pair b a) (is_either x y) fs
        (λ f k. is_either-pair b a x y f k ∙ is_same_pair-swap x y a b e)
      ∙ s a b (
          sym (
            any-delete_other (is_pair a b) (is_either x y) fs
              (λ f k. is_either-pair a b x y f k ∙ e))
          ∙ h)
]

any_same :
    (x y a b : ℕ) (fs : List FriendRow)
    → any (is_pair x y) fs ≡ true
    → (x == a && y == b) ≡ true
    → any (is_pair a b) fs ≡ true
unfolding any
any_same x y a b [] h e = cc
any_same x y a b (f ∷ fs) h e = ground (arith, any_same x y a b fs)

any-add_friend :
    (a b x y : ℕ) (fs : List FriendRow)
    → any (is_pair a b) (add_friend x y fs) ≡ (any (is_pair a b) fs || (x == a && y == b))
unfolding add_friend
any-add_friend a b x y fs = elim (Bool-cases (any (is_pair x y) fs)) [
  | inl e ↦ rw (add_friend, e) (ground (arith, any_same x y a b fs e))
  | inr e ↦ rw (add_friend, e) (any-append_one a b x y fs)
]

befriend-IsSymmetric : (x y : ℕ) (db : Db) → IsSymmetric db → IsSymmetric (befriend x y db)
befriend-IsSymmetric x y db s a b h = ground (
  arith,
  h,
  s a b,
  any-add_friend a b y x (add_friend x y db.outbox.friends),
  any-add_friend a b x y db.outbox.friends,
  any-add_friend b a y x (add_friend x y db.outbox.friends),
  any-add_friend b a x y db.outbox.friends,
)

remove_chat-friends : (x y : ℕ) (db : Db) → (remove_chat x y db).outbox.friends ≡ db.outbox.friends
unfolding remove_chat queue_cleanup
remove_chat-friends x y db =
    elim (Option-cases
      (find (λ (d : DeletionRow). d.owner == x && d.peer == y) db.outbox.deletions)) [
        | inl e ↦ rw (remove_chat, e) refl
        | inr (d, e) ↦ rw (remove_chat, e) (ground arith)
      ]

end_friendship-IsSymmetric :
    (x y seq now : ℕ) (db : Db) → IsSymmetric db → IsSymmetric (end_friendship x y seq now db)
unfolding end_friendship
end_friendship-IsSymmetric x y seq now db s =
    elim (Bool-cases (any (is_either x y) db.outbox.friends)) [
      | inl e ↦ rw (end_friendship, e) (delete-AreSymmetric x y db.outbox.friends s)
      | inr e ↦ rw (end_friendship, e) s
    ]

delete_friend-IsSymmetric :
    (x y seq now : ℕ) (db : Db) → IsSymmetric db → IsSymmetric (delete_friend x y seq now db)
unfolding delete_friend
delete_friend-IsSymmetric x y seq now db s =
    subst AreSymmetric (sym (remove_chat-friends x y (end_friendship x y seq now db)))
      (end_friendship-IsSymmetric x y seq now db s)

abbrev Keeps : Db × List ApplicationRow → Type 0
Keeps o = IsSymmetric o.0

with_application-Keeps :
    (id : ℕ) (db : Db) → IsSymmetric db → Ensures Keeps (with_application id db)
with_application-Keeps id db s =
    Ensures-bind Keeps (application id db) (λ a. ok (db, a ∷ [])) λ a _. s

apply-Keeps :
    (cmd : Command) (target now : ℕ) (db : Db)
    → IsSymmetric db
    → Ensures Keeps (apply cmd target now db)
unfolding apply
apply-Keeps cmd target now db s =
    elim (Option-cases (find (is_pending_between cmd.actor target) db.applications)) [
      | inr (a, e) ↦ rw (apply, e) (ground (arith, with_application-Keeps a.id db s))
      | inl e ↦
          let kept =
            with_application-Keeps db.next_id
              (record db {
                applications = db.applications ++ new_application cmd target now db ∷ [];
                next_id = db.next_id + 1;
              })
              s in
          rw (apply, e) (ground (arith, kept))
    ]

handle_application-Keeps :
    (cmd : Command) (target now : ℕ) (db : Db)
    → IsSymmetric db
    → Ensures Keeps (handle_application cmd target now db)
unfolding handle_application set_handled
handle_application-Keeps cmd target now db s =
    elim (Option-cases (find (is_application cmd.application_id) db.applications)) [
      | inl e ↦ rw (handle_application, e) tt
      | inr (a, e) ↦
          let added =
            with_application-Keeps cmd.application_id
              (befriend cmd.actor target (set_handled cmd now db))
              (befriend-IsSymmetric cmd.actor target (set_handled cmd now db) s) in
          let marked = with_application-Keeps cmd.application_id (set_handled cmd now db) s in
          let same = with_application-Keeps cmd.application_id db s in
          rw (handle_application, e) (ground (arith, added, marked, same))
    ]

run-Keeps :
    (op : Operation) (cmd : Command) (target seq now : ℕ) (db : Db)
    → IsSymmetric db
    → Ensures Keeps (run op cmd target seq now db)
unfolding run
run-Keeps Operation.apply cmd target seq now db s = apply-Keeps cmd target now db s
run-Keeps Operation.delete_friend cmd target seq now db s =
    delete_friend-IsSymmetric cmd.actor target seq now db s
run-Keeps Operation.handle_application cmd target seq now db s =
    handle_application-Keeps cmd target now db s

-- A command of friends that succeeds leaves every friendship with both its directions, if they had
-- them before.
pub mutate-IsSymmetric :
    (cmd : Command) (seq now : ℕ) (db : Db)
    → IsSymmetric db
    → Ensures (λ (o : Db × List ApplicationRow). IsSymmetric o.0) (mutate cmd seq now db)
unfolding mutate
mutate-IsSymmetric cmd seq now db s =
    Ensures-bind Keeps (target_of cmd db) _
      λ target _. ground (arith, run-Keeps cmd.operation cmd target seq now db s)

end_friendship-count :
    (x y seq now : ℕ) (db : Db)
    → count (is_either x y) (end_friendship x y seq now db).outbox.friends ≡ 0
unfolding end_friendship
end_friendship-count x y seq now db = elim (Bool-cases (any (is_either x y) db.outbox.friends)) [
  | inl e ↦ rw (end_friendship, e) (count-delete_own (is_either x y) db.outbox.friends)
  | inr e ↦ rw (end_friendship, e) (count_zero (is_either x y) _ (unmatched (is_either x y) _ e))
]

-- After a friendship is ended, no message of the one account to the other is allowed, whatever its
-- number.
pub delete_friend-stops :
    (x y seq now number : ℕ) (db : Db)
    → friend_allows x y number (delete_friend x y seq now db).outbox ≡ false
unfolding friend_allows delete_friend
delete_friend-stops x y seq now number db =
    let gone : count (is_either x y)
          (remove_chat x y (end_friendship x y seq now db)).outbox.friends
        ≡ 0 =
      ap (count (is_either x y)) (remove_chat-friends x y (end_friendship x y seq now db))
      ∙ end_friendship-count x y seq now db in
    rw gone (ground arith)
