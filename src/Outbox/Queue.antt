-- ===== src/Outbox/Queue.antt =====
-- What is put into the outbox: `QueueSingleMessage`, `QueueConversationCleanup`, `QueueMessageAck`,
-- and `ConfirmMessageDispatch`.
use ape_server.Prelude.{
  ℕ, ◌+◌, min, max, Bool, true, false, not, ◌&&◌, ◌||◌, Option, none, some, [], ◌∷◌, ◌++◌, Bytes,
  codes, bytes_eq, is_empty, ltb, leb, ◌==◌, if◌then◌else◌, length, find, update, any, Result, ok,
  err, ◌>>=◌, ◌>>◌, guard,
}
use ape_server.Text.Decimal.{to_string}
use ape_server.Outbox.Data.{
  Message, Task, Db, ReceiptRow, Json, Failure, refused, failed, friend_allows,
}

abbrev pub or_refuse {ℓ} : {A : Type ℓ} → Option A → Result Failure A
or_refuse none = err refused
or_refuse (some a) = ok a

-- Visible ASCII characters only.
abbrev pub is_visible_text : Bytes → Bool
is_visible_text s = not (any (λ c. ltb c 33 || ltb 126 c) s)

unfoldable pub is_single : Message → Bool
is_single m =
    not (m.sender == 0 || m.receiver == 0 || m.sender == m.receiver)
    && not (m.is_group || not (m.session_type == 1) || is_empty m.client_id)
    && not (ltb 128 (length m.client_id) || ltb 65536 (length m.content))
    && is_visible_text m.client_id

-- UNIQUE KEY outbox_dedupe(operation,dedupe_key)
abbrev pub is_keyed : ℕ → Bytes → Task → Bool
is_keyed operation key t = t.operation == operation && bytes_eq t.key key

-- "<sender>:<client id>"
abbrev pub message_key : Message → Bytes
message_key m = to_string m.sender ++ 58 ∷ m.client_id

-- A new row, whose other columns have their defaults.
abbrev pub new_task : ℕ → ℕ → Bytes → ℕ → ℕ → Bytes → Bytes → ℕ → Bytes → Task
new_task id operation key actor peer conversation server_id seq payload = record {
  id = id;
  operation = operation;
  key = key;
  actor = actor;
  peer = peer;
  conversation = conversation;
  server_id = server_id;
  seq = seq;
  payload = payload;
  state = 0;
  stage = 0;
  dispatch_done = false;
  attempts = 0;
  available_at = 0;
  lease_until = 0;
  lease_token = [];
  last_error = [];
}

abbrev pub add_task : Db → Task → Db
add_task db t = record db { tasks = db.tasks ++ t ∷ []; next_id = db.next_id + 1 }

abbrev pub message_task : Db → Message → Bytes → Task
message_task db m payload =
    new_task db.next_id 1 (message_key m) m.sender m.receiver m.conversation m.server_id m.seq
      payload

abbrev pub is_same_message : Message → Message → Bool
is_same_message a b =
    a.receiver == b.receiver
    && bytes_eq a.content b.content
    && (a.content_type == b.content_type && a.session_type == b.session_type)

-- The task that was queued for the same client identifier, if the message is the same.
unfoldable pub queued_before : Json → Message → Task → Db → Result Failure (Task × Db)
queued_before j m t db = do
  guard (not (t.state == 3 || is_empty t.payload)) refused
  original ← elim (j.parse t.payload) [ none ↦ err failed | some o ↦ ok o ]
  guard (friend_allows original.sender original.receiver original.seq db) refused
  guard (is_same_message original m) refused
  ok (t, db)

unfoldable pub queue_single : Json → Message → Db → Result Failure (Task × Db)
queue_single j m db = do
  guard (is_single m) refused
  guard (friend_allows m.sender m.receiver m.seq db) refused
  elim (find (is_keyed 1 (message_key m)) db.tasks) [
    | some t ↦ queued_before j m t db
    | none ↦ do
      payload ← or_refuse (j.print m)
      ok (message_task db m payload, add_task db (message_task db m payload))
  ]

-- "<lower account>_<higher account>"
abbrev pub pair_id : ℕ → ℕ → Bytes
pair_id a b = to_string (min a b) ++ 95 ∷ to_string (max a b)

-- ON DUPLICATE KEY UPDATE id=id
abbrev pub add_once : ℕ → Bytes → Task → Db → Db
add_once operation key t db = if any (is_keyed operation key) db.tasks then db else add_task db t

-- state IN (0,1)
abbrev pub is_cancellable : Bytes → ℕ → Task → Bool
is_cancellable id cutoff t =
    bytes_eq t.conversation id
    && (t.operation == 1 && leb t.seq cutoff)
    && (t.state == 0 || t.state == 1)

abbrev pub removed_reason : Bytes
removed_reason = codes "Friend relationship removed"

abbrev pub cancelled : Task → Task
cancelled t = record t { state = 3; payload = []; lease_token = []; last_error = removed_reason }

unfoldable pub queue_cleanup : ℕ → ℕ → ℕ → Db → Db
queue_cleanup actor peer cutoff db =
    let id = pair_id actor peer in
    let key = id ++ 58 ∷ to_string cutoff in
    let db₁ = add_once 2 key (new_task db.next_id 2 key actor peer id [] cutoff []) db in
    record db₁ { tasks = update (is_cancellable id cutoff) cancelled db₁.tasks }

abbrev pub is_message_task : Bytes → Task → Bool
is_message_task server_id t = t.operation == 1 && bytes_eq t.server_id server_id

abbrev pub is_receipt : ℕ → Bytes → ReceiptRow → Bool
is_receipt owner server_id r = r.owner == owner && bytes_eq r.server_id server_id

-- The receipt and the task of an acknowledgement, each once.
unfoldable pub acknowledge : ℕ → Bytes → ℕ → Message → Db → Db
acknowledge owner server_id now m db =
    let key = to_string owner ++ 58 ∷ server_id in
    let db₁ = if any (is_receipt owner server_id) db.receipts then db else record db {
      receipts =
          db.receipts
          ++ record {
            owner = owner;
            server_id = server_id;
            conversation = m.conversation;
            seq = m.seq;
            delivered_at = now;
          }
            ∷ [];
    } in
    add_once 3 key (new_task db₁.next_id 3 key m.sender owner m.conversation server_id m.seq []) db₁

-- The message of a task whose first stage is done.
unfoldable pub committed_message :
    Json → (Bytes → Option Message) → Bytes → Task → Result Failure (Option Message)
committed_message j stored server_id t = do
  guard (not (t.stage == 0)) refused
  m ← or_refuse (j.parse t.payload)
  ok (if is_empty m.server_id then stored server_id else some m)

-- The message comes from its task, or, without one, from MongoDB, which is a parameter; a cancelled
-- one has none.
unfoldable pub acknowledged_message :
    Json → (Bytes → Option Message) → ℕ → Bytes → Db → Result Failure (Option Message)
acknowledged_message j stored owner server_id db =
    elim (find (is_message_task server_id) db.tasks) [
      | none ↦ ok (stored server_id)
      | some t ↦ do
        guard (t.peer == owner) refused
        (if t.state == 3 then ok none else committed_message j stored server_id t)
    ]

unfoldable pub queue_ack :
    Json → (Bytes → Option Message) → ℕ → Bytes → ℕ → Db → Result Failure (Bool × Db)
queue_ack j stored owner server_id now db = do
  guard (not (owner == 0 || is_empty server_id || ltb 128 (length server_id))) refused
  found ← acknowledged_message j stored owner server_id db
  elim found [
    | none ↦ ok (true, db)
    | some m ↦
        if m.is_group
        then ok (false, db)
        else do guard (m.receiver == owner) refused; ok (true, acknowledge owner server_id now m db)
  ]

unfoldable pub confirm_dispatch : Bytes → Db → Db
confirm_dispatch server_id db = record db {
  tasks =
      update (λ (t : Task). is_message_task server_id t && (t.stage == 1 && not (t.state == 3)))
        (λ (t : Task). record t {
          state = 2;
          dispatch_done = true;
          lease_token = [];
          last_error = [];
        })
        db.tasks;
}
