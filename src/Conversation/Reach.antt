-- ===== src/Conversation/Reach.antt =====
-- The states that the operations lead to, from empty tables.
use ape_server.Prelude.{ℕ, ◌≡◌, Bool, Option, [], Bytes, ok, Ensures-ok, find}
use ape_server.Conversation.Data.{Db, Message}
use ape_server.Conversation.Record.{record_message, delete_pair}
use ape_server.Conversation.Owner.{mark_read, update_settings, delete_conversation}
use ape_server.Conversation.Sound.{IsSound}
use ape_server.Conversation.Keeps.{record_message-IsSound}
use ape_server.Conversation.Changes.{
  mark_read-IsSound, update_settings-IsSound, delete_conversation-IsSound, delete_pair-IsSound,
}

pub data Step (summarise : Message → Option Bytes) : Db → Db → Type 0 where
  recorded :
      (m : Message) (db db' : Db) → record_message summarise m db ≡ ok db' → Step summarise db db'
  read :
      (owner : ℕ) (id : Bytes) (seq : ℕ) (db : Db) → Step summarise db (mark_read owner id seq db).1
  settled :
      (owner : ℕ) (id : Bytes) (pinned : Option Bool) (recv_opt : Option ℕ) (found : Bool)
      (db db' : Db)
      → update_settings owner id pinned recv_opt db ≡ ok (found, db')
      → Step summarise db db'
  deleted : (owner : ℕ) (id : Bytes) (db : Db) → Step summarise db (delete_conversation owner id db)
  dropped : (id : Bytes) (db : Db) → Step summarise db (delete_pair id db)

abbrev pub empty : Db
empty = record { conversations = []; unread = [] }

pub data Reach (summarise : Message → Option Bytes) : Db → Type 0 where
  start : Reach summarise empty
  next : {db db' : Db} → Reach summarise db → Step summarise db db' → Reach summarise db'

empty-IsSound : IsSound empty
unfolding find
empty-IsSound = record { rows_ok = λ o i r e. cc; linked = tt }

Step-IsSound :
    {summarise : Message → Option Bytes} {db db' : Db}
    → Step summarise db db'
    → IsSound db
    → IsSound db'
Step-IsSound {summarise} (recorded m db db' e) s =
    Ensures-ok IsSound (record_message summarise m db) db' (record_message-IsSound summarise m db s)
      e
Step-IsSound (read owner id seq db) s = mark_read-IsSound owner id db s seq
Step-IsSound (settled owner id pinned recv_opt found db db' e) s =
    Ensures-ok (λ (o : Bool × Db). IsSound o.1) (update_settings owner id pinned recv_opt db)
      (found, db') (update_settings-IsSound owner id db s pinned recv_opt) e
Step-IsSound (deleted owner id db) s = delete_conversation-IsSound owner id db s
Step-IsSound (dropped id db) s = delete_pair-IsSound id db s

-- In every state that recording, reading, settings and deletions lead to from empty tables, the
-- unread count of a conversation is the number of its unread messages, which all lie past the
-- position read and not past the last message, and every unread message has its conversation.
pub Reach-IsSound : {summarise : Message → Option Bytes} {db : Db} → Reach summarise db → IsSound db
Reach-IsSound start = empty-IsSound
Reach-IsSound (next r s) = Step-IsSound s (Reach-IsSound r)
