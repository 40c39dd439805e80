-- ===== src/Outbox/Process.antt =====
-- `ProcessOutboxTask`: a task that is held is checked again and carried through the other stores.
-- Each of them succeeds or fails as Services says; what was asked of them stays asked when the
-- transaction is rolled back.
use ape_server.Prelude.{
  ℕ, ◌+◌, Bool, true, false, not, ◌&&◌, Option, none, some, List, [], ◌∷◌, ◌++◌, Bytes, bytes_eq,
  leb, ◌==◌, if◌then◌else◌, find, update, any, Result, ok, err,
}
use ape_server.Conversation.Data
use ape_server.Conversation.Record
use ape_server.Outbox.Data.{Message, Task, Db, Json, Failure, failed, friend_allows}
use ape_server.Outbox.Queue.{is_receipt, removed_reason, cancelled}
use ape_server.Outbox.Lease.{is_task}

-- Whether MongoDB saves and marks, Redis saves, and Kafka's broker confirms.
pub record Services : Type 0 where
  pub saves : Bool
  pub caches : Bool
  pub confirms : Bool
  pub marks : Bool
  -- the JSON summary of a message for its conversation
  pub summarise : Data.Message → Option Bytes

-- What is asked of the other stores.
pub data Effect : Type 0 where
  save : Message → Effect
  publish : Bytes → Effect
  cache : Message → Effect
  deliver : Bytes → Bytes → Effect
  remove_history : Bytes → ℕ → Effect
  mark_delivered : ℕ → Bytes → Effect
  clean_up : ℕ → Bytes → Effect

-- The result, what was asked, and the tables.
pub record Run : Type 0 where
  pub result : Result Failure Bool
  pub effects : List Effect
  pub db : Db

abbrev pub returns : Bool → List Effect → Db → Run
returns b es db = record { result = ok b; effects = es; db = db }

abbrev pub throws : List Effect → Db → Run
throws es db = record { result = err failed; effects = es; db = db }

abbrev pub set_task : ℕ → (Task → Task) → Db → Db
set_task id f db = record db { tasks = update (is_task id) f db.tasks }

-- UPDATE … SET state=2
abbrev pub finished : Task → Task
finished t = record t { state = 2; lease_token = []; last_error = [] }

abbrev pub conversation_message : Message → Data.Message
conversation_message m = record {
  is_group = m.is_group;
  seq = m.seq;
  conversation = m.conversation;
  sender = m.sender;
  receiver = m.receiver;
  send_time = m.send_time;
}

-- The first stage: the text is saved and the conversations are brought up to date.
unfoldable pub persist : Services → Task → Message → Db → Run
persist w task m db =
    if not (task.stage == 0)
    then returns true [] db
    else if not w.saves
    then throws (save m ∷ []) db
    else elim (Record.record_message w.summarise (conversation_message m) db.chats) [
      | err e ↦ throws (save m ∷ []) db
      | ok chats ↦
          returns true (save m ∷ [])
            (set_task task.id (λ (t : Task). record t { stage = 1 }) (record db { chats = chats }))
    ]

-- The second: what the receiver has not acknowledged is handed to the queue, and the task is ready
-- again in five seconds.
unfoldable pub hand_over : Services → Task → ℕ → Message → Db → Run
hand_over w task now m db =
    if any (is_receipt task.peer task.server_id) db.receipts
    then returns true (publish task.server_id ∷ []) (set_task task.id finished db)
    else if not w.caches
    then throws (publish task.server_id ∷ cache m ∷ []) db
    else if not w.confirms
    then throws (publish task.server_id ∷ cache m ∷ deliver task.conversation task.server_id ∷ [])
        db
    else returns true
        (publish task.server_id ∷ cache m ∷ deliver task.conversation task.server_id ∷ [])
        (set_task task.id
          (λ (t : Task). record t {
            state = 0;
            available_at = now + 5000;
            lease_token = [];
            last_error = [];
          })
          db)

unfoldable pub carry_message : Json → Services → Task → ℕ → Bool → Db → Run
carry_message j w task now first db =
    if friend_allows task.actor task.peer task.seq db
    then elim (j.parse task.payload) [
      | none ↦ throws [] db
      | some m ↦ if first then persist w task m db else hand_over w task now m db
    ]
    else returns false []
        (set_task task.id (λ (t : Task). record t { state = 3; last_error = removed_reason }) db)

-- UPDATE … WHERE operation=1 AND conversation_id={} AND seq<={}
abbrev pub is_removed_with : Task → Task → Bool
is_removed_with task t =
    t.operation == 1 && (bytes_eq t.conversation task.conversation && leb t.seq task.seq)

unfoldable pub clean : Task → Db → Run
clean task db = returns true (remove_history task.conversation task.seq ∷ []) (
    set_task task.id finished
      (record db { tasks = update (is_removed_with task) cancelled db.tasks }))

unfoldable pub settle : Services → Task → Db → Run
settle w task db =
    if w.marks
    then returns true
        (mark_delivered task.peer task.server_id ∷ clean_up task.peer task.server_id ∷ [])
        (set_task task.id finished db)
    else throws (mark_delivered task.peer task.server_id ∷ []) db

-- By the task's operation, with the stage that its row has.
unfoldable pub carry : Json → Services → Task → ℕ → Bool → Db → Run
carry j w task now first db =
    if task.operation == 1
    then carry_message j w task now first db
    else if task.operation == 2
    then clean task db
    else if task.operation == 3
    then settle w task db
    else throws [] db

abbrev pub holds : Task → Task → Bool
holds task current = current.state == 1 && bytes_eq current.lease_token task.lease_token

-- A transaction that throws leaves the tables of before.
abbrev pub conclude : Db → Run → Run
conclude db r = elim r.result [ ok b ↦ r | err e ↦ throws r.effects db ]

-- Whoever lost the lease does nothing.
unfoldable pub phase : Json → Services → Task → ℕ → Bool → Db → Run
phase j w task now first db = elim (find (is_task task.id) db.tasks) [
  | none ↦ returns false [] db
  | some current ↦
      if holds task current
      then conclude db (carry j w (record task { stage = current.stage }) now first db)
      else returns false [] db
]

-- A message has both phases, unless the first ends it.
unfoldable pub process : Json → Services → Task → ℕ → Db → Run
process j w task now db =
    if task.operation == 1
    then (let r = phase j w task now true db in
        elim r.result [
          | err e ↦ r
          | ok false ↦ r
          | ok true ↦
              let s = phase j w task now false r.db in record s { effects = r.effects ++ s.effects }
        ])
    else phase j w task now false db
