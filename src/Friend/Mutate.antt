-- ===== src/Friend/Mutate.antt =====
-- `mutate`: what runs under the lock of the two accounts' pair, in one transaction.
use ape_server.Prelude.{
  ℕ, ◌+◌, Bool, not, ◌&&◌, ◌||◌, Option, none, some, List, [], ◌∷◌, ◌++◌, ◌==◌, if◌then◌else◌, find,
  update, delete, any, Result, ok, err, ◌>>=◌, ◌>>◌, guard,
}
use ape_server.Conversation.Record
use ape_server.Outbox.Data.{FriendRow, DeletionRow}
use ape_server.Outbox.Queue.{queue_cleanup, pair_id}
use ape_server.Friend.Data.{
  Operation, Command, ApplicationRow, Db, Code, forbidden, invalid_target, user_not_found,
  already_friend, application_not_found, already_handled, is_pair, is_either,
}

abbrev pub or_fail {ℓ} : {A : Type ℓ} → Option A → Code → Result Code A
or_fail none c = err c
or_fail (some a) c = ok a

abbrev pub is_application : ℕ → ApplicationRow → Bool
is_application id a = a.id == id

abbrev pub is_user : Db → ℕ → Bool
is_user db account = any (λ u. u == account) db.users

-- The application with its two users.
unfoldable pub application : ℕ → Db → Result Code ApplicationRow
application id db = do
  a ← or_fail (find (is_application id) db.applications) application_not_found
  guard (is_user db a.sender && is_user db a.recipient) user_not_found
  ok a

-- Whom a command is about.
unfoldable pub target_of : Command → Db → Result Code ℕ
target_of cmd db = elim cmd.operation [
  | Operation.handle_application ↦ do
    a ← application cmd.application_id db
    guard (a.recipient == cmd.actor) forbidden
    ok a.sender
  | _ ↦ ok cmd.target
]

-- A pending application is used again.
abbrev pub is_pending_between : ℕ → ℕ → ApplicationRow → Bool
is_pending_between a b r = (r.sender == a && r.recipient == b) && r.status == 0

abbrev pub new_application : Command → ℕ → ℕ → Db → ApplicationRow
new_application cmd target now db = record {
  id = db.next_id;
  sender = cmd.actor;
  recipient = target;
  message = cmd.message;
  status = 0;
  created_time = now;
  handled_time = 0;
}

abbrev pub Outcome : Type 0
Outcome = Result Code (Db × List ApplicationRow)

abbrev pub with_application : ℕ → Db → Outcome
with_application id db = do a ← application id db; ok (db, a ∷ [])

unfoldable pub apply : Command → ℕ → ℕ → Db → Outcome
apply cmd target now db = do
  guard (not (any (is_pair cmd.actor target) db.outbox.friends)) already_friend
  elim (find (is_pending_between cmd.actor target) db.applications) [
    | some a ↦ with_application a.id db
    | none ↦ with_application db.next_id (record db {
      applications = db.applications ++ new_application cmd target now db ∷ [];
      next_id = db.next_id + 1;
    })
  ]

-- INSERT … ON DUPLICATE KEY UPDATE, for one of the two rows
unfoldable pub mark_deleted : ℕ → ℕ → ℕ → List DeletionRow → List DeletionRow
mark_deleted owner peer seq ds =
    if any (λ (d : DeletionRow). d.owner == owner && d.peer == peer) ds
    then update (λ (d : DeletionRow). d.owner == owner && d.peer == peer)
        (λ (d : DeletionRow). record d { seq = seq }) ds
    else ds ++ record { owner = owner; peer = peer; seq = seq } ∷ []

-- Both directions go, with a mark under which no message comes back.
unfoldable pub end_friendship : ℕ → ℕ → ℕ → ℕ → Db → Db
end_friendship actor target seq now db =
    if any (is_either actor target) db.outbox.friends
    then record db {
      outbox = record db.outbox {
        friends = delete (is_either actor target) db.outbox.friends;
        deletions =
            mark_deleted target actor seq (mark_deleted actor target seq db.outbox.deletions);
      };
      applications =
          update
            (λ (a : ApplicationRow).
              a.status == 0
              && ((a.sender == actor && a.recipient == target)
                  || (a.sender == target && a.recipient == actor)))
            (λ (a : ApplicationRow). record a { status = 2; handled_time = now }) db.applications;
    }
    else db

-- What was written before the mark is removed, also when the friendship had ended earlier.
unfoldable pub remove_chat : ℕ → ℕ → Db → Db
remove_chat actor target db =
    elim (find (λ (d : DeletionRow). d.owner == actor && d.peer == target) db.outbox.deletions) [
      | none ↦ db
      | some d ↦ record db {
        outbox = queue_cleanup actor target d.seq (record db.outbox {
          chats = Record.delete_pair (pair_id actor target) db.outbox.chats;
        });
      }
    ]

unfoldable pub delete_friend : ℕ → ℕ → ℕ → ℕ → Db → Db
delete_friend actor target seq now db =
    remove_chat actor target (end_friendship actor target seq now db)

unfoldable pub add_friend : ℕ → ℕ → List FriendRow → List FriendRow
add_friend owner friend fs =
    if any (is_pair owner friend) fs
    then fs
    else fs ++ record { owner = owner; friend = friend } ∷ []

abbrev pub befriend : ℕ → ℕ → Db → Db
befriend actor target db = record db {
  outbox = record db.outbox {
    friends = add_friend target actor (add_friend actor target db.outbox.friends);
  };
}

abbrev pub wanted : Command → ℕ
wanted cmd = if cmd.accept then 1 else 2

unfoldable pub set_handled : Command → ℕ → Db → Db
set_handled cmd now db = record db {
  applications =
      update (λ (a : ApplicationRow). a.id == cmd.application_id && a.status == 0)
        (λ (a : ApplicationRow). record a { status = wanted cmd; handled_time = now })
        db.applications;
}

unfoldable pub handle_application : Command → ℕ → ℕ → Db → Outcome
handle_application cmd target now db = do
  a ← or_fail (find (is_application cmd.application_id) db.applications) application_not_found
  guard (a.status == 0 || a.status == wanted cmd) already_handled
  let db₁ = if a.status == 0 then set_handled cmd now db else db
  with_application cmd.application_id
      (if a.status == 0 && cmd.accept then befriend cmd.actor target db₁ else db₁)

unfoldable pub run : Operation → Command → ℕ → ℕ → ℕ → Db → Outcome
run Operation.apply cmd target seq now db = apply cmd target now db
run Operation.delete_friend cmd target seq now db =
    ok (delete_friend cmd.actor target seq now db, [])
run Operation.handle_application cmd target seq now db = handle_application cmd target now db

-- The snowflake and the clock are given; a failure leaves the tables of before.
unfoldable pub mutate : Command → ℕ → ℕ → Db → Outcome
mutate cmd seq now db = do
  target ← target_of cmd db
  guard (not (target == 0 || target == cmd.actor)) invalid_target
  guard (is_user db target) user_not_found
  run cmd.operation cmd target seq now db
