-- ===== src/Group/Execute.antt =====
-- `executeOnPool` of src/storage/mysqlhandler.cpp: one command in one transaction, with the reply
-- of a mutation kept under its actor and request identifier.
use ape_server.Prelude.{
  ◌<◌, ◌≡◌, Bool, true, false, not, ◌&&◌, ◌||◌, Option, some, List, [], ◌∷◌, ◌++◌, Bytes, bytes_eq,
  collates, is_empty, ltb, ◌==◌, if◌then◌else◌, length, find, update, any, All, Result, ok, err,
  ◌>>=◌, ◌>>◌, guard,
}
use ape_server.Text.Hex.{hex, unhex}
use ape_server.Group.Data.{
  Db, Env, Code, Command, Operation, RequestRow, Reply, invalid_request_id, idempotency_conflict,
  cache_error, db_error,
}
use ape_server.Group.Store.{or_throw}
use ape_server.Group.Perform.{perform}

-- Protobuf's serialisation of a command and of a reply.
pub record Codec : Type 0 where
  pub command_bytes : Command → Bytes
  pub reply_bytes : Reply → Bytes
  pub parse_reply : Bytes → Option Reply

-- What the program relies on for a command and its reply: both are written as bytes, the reply is
-- parsed back from them, and, having an error code "0", it is not the empty string.
pub record IsLawful (p : Codec) (cmd : Command) (r : Reply) : Type 0 where
  pub command_fits : All (λ b. b < 256) (p.command_bytes cmd)
  pub reply_fits : All (λ b. b < 256) (p.reply_bytes r)
  pub parses : p.parse_reply (p.reply_bytes r) ≡ some r
  pub not_empty : is_empty (hex (p.reply_bytes r)) ≡ false

unfoldable pub is_mutation : Operation → Bool
is_mutation Operation.create = true
is_mutation Operation.apply = true
is_mutation Operation.review = true
is_mutation Operation.rename = true
is_mutation Operation.leave = true
is_mutation Operation.kick = true
is_mutation Operation.dismiss = true
is_mutation Operation.send = true
is_mutation _ = false

abbrev pub is_request_of : Command → RequestRow → Bool
is_request_of cmd q = q.actor == cmd.actor && collates q.client_id cmd.client_id

-- COMMIT, or ROLLBACK of all that the body wrote.
abbrev pub transaction {ℓ} : {A : Type ℓ} → Db → Result Code (Db × A) → Result Code A × Db
transaction db (ok (db', a)) = (ok a, db')
transaction db (err c) = (err c, db)

module _ (p : Codec) where
  abbrev pub payload : Command → Bytes
  payload cmd = hex (p.command_bytes cmd)

  -- INSERT … ON DUPLICATE KEY UPDATE client_id=client_id
  unfoldable pub with_request : Command → List RequestRow → List RequestRow
  with_request cmd qs =
      if any (is_request_of cmd) qs
      then qs
      else qs
        ++ record {
          actor = cmd.actor;
          client_id = cmd.client_id;
          payload = payload cmd;
          reply = [];
        }
          ∷ []

  unfoldable pub save_reply : Command → Reply → Db → Db
  save_reply cmd r db = record db {
    requests =
        update (is_request_of cmd) (λ (q : RequestRow). record q { reply = hex (p.reply_bytes r) })
          db.requests;
  }

  unfoldable pub parse_saved : Bytes → Result Code Reply
  parse_saved saved = do
    bytes ← or_throw (unhex saved) cache_error
    or_throw (p.parse_reply bytes) cache_error

  unfoldable pub first_time : Env → Command → Db → Result Code (Db × Reply)
  first_time env cmd db = do (db', r) ← perform env cmd db; ok (save_reply cmd r db', r)

  unfoldable pub again : Bytes → Db → Result Code (Db × Reply)
  unfolding parse_saved
  again saved db = do r ← parse_saved saved; ok (db, r)

  unfoldable pub mutate : Env → Command → Db → Result Code (Db × Reply)
  unfolding first_time again
  mutate env cmd db = do
    guard (not (cmd.actor == 0) && not (is_empty cmd.client_id || ltb 64 (length cmd.client_id)))
        invalid_request_id
    let db₁ = record db { requests = with_request cmd db.requests }
    old ← or_throw (find (is_request_of cmd) db₁.requests) db_error
    guard (bytes_eq old.payload (payload cmd)) idempotency_conflict
    if is_empty old.reply then first_time env cmd db₁ else again old.reply db₁

  unfoldable pub execute : Env → Command → Db → Result Code Reply × Db
  unfolding is_mutation
  execute env cmd db =
      transaction db (if is_mutation cmd.operation then mutate env cmd db else perform env cmd db)
