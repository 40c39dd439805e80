-- ===== src/Push/Visible.antt =====
-- Whether a single-chat message may still be seen: `WithFriendMessage`, `FilterVisibleMessages`,
-- `FriendDeletionSeq` and `MessageDispatchDone` of src/storage/mysqlhandler.cpp.
use ape_server.Prelude.{
  ℕ, Bool, true, not, ◌&&◌, ◌||◌, none, some, List, Bytes, bytes_eq, is_empty, leb, ltb, ◌==◌, find,
  any, select,
}
use ape_server.Outbox.Data.{Message, Task, FriendRow, DeletionRow, Db, friend_allows}
use ape_server.Outbox.Queue.{is_message_task, is_receipt}

abbrev pub is_deletion : ℕ → ℕ → DeletionRow → Bool
is_deletion owner peer d = d.owner == owner && d.peer == peer

-- The text is saved and the message not cancelled, or it has no task.
unfoldable pub is_committed : Bytes → Db → Bool
is_committed server_id db = elim (find (is_message_task server_id) db.tasks) [
  | none ↦ true
  | some t ↦ leb 1 t.stage && not (t.state == 3)
]

-- The condition under which `WithFriendMessage` runs its action.
unfoldable pub with_friend_message : Message → Bool → Db → Bool
with_friend_message m require_undelivered db =
    friend_allows m.sender m.receiver m.seq db
    && (is_empty m.server_id
        || (is_committed m.server_id db
            && not (require_undelivered && any (is_receipt m.receiver m.server_id) db.receipts)))

abbrev pub is_friend : ℕ → ℕ → FriendRow → Bool
is_friend owner friend f = f.owner == owner && f.friend == friend

-- A row of the message joined with an outbox row, or with none.
abbrev pub is_shown : Task → Bool
is_shown t = t.stage == 1 && not (t.state == 3)

-- The condition of the query of `FilterVisibleMessages`, with its joins.
unfoldable pub is_visible : Db → Message → Bool
is_visible db m =
    any (is_friend m.sender m.receiver) db.friends
    && any (is_friend m.receiver m.sender) db.friends
    && (not (any (is_deletion m.sender m.receiver) db.deletions)
        || any (λ (d : DeletionRow). is_deletion m.sender m.receiver d && ltb d.seq m.seq)
            db.deletions)
    && (not (any (is_message_task m.server_id) db.tasks)
        || any (λ (t : Task). is_message_task m.server_id t && is_shown t) db.tasks)

-- The identifiers of the rows are collected, and the messages kept whose identifier is among them.
unfoldable pub filter_visible_messages : Db → List Message → List Message
filter_visible_messages db ms =
    select
      (λ (m : Message).
        any (λ (v : Message). bytes_eq v.server_id m.server_id) (select (is_visible db) ms))
      ms

unfoldable pub friend_deletion_seq : ℕ → ℕ → Db → ℕ
friend_deletion_seq owner peer db = elim (find (is_deletion owner peer) db.deletions) [
  | none ↦ 0
  | some d ↦ d.seq
]

unfoldable pub message_dispatch_done : ℕ → Bytes → Db → Bool
message_dispatch_done owner server_id db =
    any (λ (t : Task). is_message_task server_id t && (t.state == 3 || t.dispatch_done)) db.tasks
    || any (is_receipt owner server_id) db.receipts
