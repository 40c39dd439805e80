-- ===== src/Conversation/Record.antt =====
-- `RecordConversationMessage` and `DeleteConversationPair`, which run in the transaction of their
-- caller.
use ape_server.Prelude.{
  ℕ, ◌+◌, Bool, false, not, ◌&&◌, ◌||◌, Option, none, some, List, [], ◌∷◌, ◌++◌, Bytes, bytes_eq,
  ltb, ◌==◌, if◌then◌else◌, find, update, delete, any, Result, ok, err, ◌>>◌, guard,
}
use ape_server.Conversation.Data.{
  ConversationRow, UnreadRow, Db, Message, Failure, invalid_argument, runtime_error, is_of,
  is_unread_of,
}

-- ON DUPLICATE KEY UPDATE: a message that is not newer leaves the row as it is.
unfoldable pub newer : Message → Bytes → ConversationRow → ConversationRow
newer m summary r =
    if ltb r.max_seq m.seq
    then record r {
      hidden = false;
      latest_message = summary;
      latest_time = m.send_time;
      max_seq = m.seq;
    }
    else r

-- The columns that the INSERT leaves out have their defaults.
abbrev pub new_conversation : Message → Bytes → ℕ → ℕ → ConversationRow
new_conversation m summary owner peer = record {
  owner = owner;
  id = m.conversation;
  peer = peer;
  pinned = false;
  recv_opt = 0;
  hidden = false;
  min_seq = 0;
  max_seq = m.seq;
  read_seq = 0;
  unread_count = 0;
  latest_time = m.send_time;
  latest_message = summary;
}

unfoldable pub upsert : Message → Bytes → ℕ → ℕ → List ConversationRow → List ConversationRow
upsert m summary owner peer rows =
    if any (is_of owner m.conversation) rows
    then update (is_of owner m.conversation) (newer m summary) rows
    else rows ++ new_conversation m summary owner peer ∷ []

abbrev pub is_same_unread : ℕ → Bytes → ℕ → UnreadRow → Bool
is_same_unread owner id seq u = is_unread_of owner id u && u.seq == seq

-- INSERT IGNORE … SELECT, which takes the receiver's row if the message is new to it.
abbrev pub is_new_to : ℕ → ConversationRow → Bool
is_new_to seq r = ltb r.read_seq seq && ltb r.min_seq seq

unfoldable pub adds_unread : Message → Db → Bool
adds_unread m db =
    elim (find (is_of m.receiver m.conversation) db.conversations) [
      | none ↦ false
      | some r ↦ is_new_to m.seq r
    ]
    && not (any (is_same_unread m.receiver m.conversation m.seq) db.unread)

unfoldable pub add_unread : Message → Db → Db
add_unread m db =
    if adds_unread m db
    then record {
      conversations =
          update (is_of m.receiver m.conversation)
            (λ (r : ConversationRow). record r { unread_count = r.unread_count + 1 })
            db.conversations;
      unread = db.unread ++ record { owner = m.receiver; id = m.conversation; seq = m.seq } ∷ [];
    }
    else db

-- Both participants' rows.
abbrev pub upsert_both : Message → Bytes → Db → Db
upsert_both m summary db = record db {
  conversations =
      upsert m summary m.receiver m.sender (upsert m summary m.sender m.receiver db.conversations);
}

-- The summary is protobuf's JSON of the message, where it can be made.
unfoldable pub record_message : (Message → Option Bytes) → Message → Db → Result Failure Db
record_message summarise m db = do
  guard (not (m.is_group || m.seq == 0)) invalid_argument
  elim (summarise m) [
    | none ↦ err runtime_error
    | some summary ↦ ok (add_unread m (upsert_both m summary db))
  ]

-- DELETE FROM im_conversations, on which the rows that refer to a deleted one follow.
unfoldable pub delete_pair : Bytes → Db → Db
delete_pair id db = record {
  conversations = delete (λ (r : ConversationRow). bytes_eq r.id id) db.conversations;
  unread =
      delete
        (λ (u : UnreadRow).
          any (λ (r : ConversationRow). bytes_eq r.id id && is_of u.owner u.id r) db.conversations)
        db.unread;
}
