-- ===== src/Conversation/Owner.antt =====
-- What the owner of a conversation changes: `MarkConversationRead`, `UpdateConversationSettings`
-- and `DeleteConversation`.
use ape_server.Prelude.{
  ℕ, ◌-◌, min, Bool, true, false, not, ◌&&◌, ◌||◌, Option, none, some, Bytes, ltb, leb, ◌==◌,
  if◌then◌else◌, find, update, delete, count, any, Result, ok, ◌>>◌, guard,
}
use ape_server.Conversation.Data.{
  ConversationRow, UnreadRow, Db, Failure, invalid_argument, is_of, is_unread_of,
}

abbrev pub is_read_by : ℕ → Bytes → ℕ → UnreadRow → Bool
is_read_by owner id seq u = is_unread_of owner id u && leb u.seq seq

-- The rows removed from im_conversation_unread are taken off the count.
unfoldable pub read_up_to : ℕ → Bytes → ℕ → Db → Db
read_up_to owner id seq db =
    let removed = count (is_read_by owner id seq) db.unread in
    record {
      unread = delete (is_read_by owner id seq) db.unread;
      conversations =
          update (is_of owner id)
            (λ (r : ConversationRow). record r {
              read_seq = seq;
              unread_count = r.unread_count - min r.unread_count removed;
            })
            db.conversations;
    }

unfoldable pub mark_read : ℕ → Bytes → ℕ → Db → Bool × Db
mark_read owner id seq db = elim (find (is_of owner id) db.conversations) [
  | none ↦ (false, db)
  | some r ↦
      if seq == 0 || ltb r.max_seq seq
      then (false, db)
      else if leb seq r.read_seq
      then (true, db)
      else (true, read_up_to owner id seq db)
]

abbrev pub is_visible : ℕ → Bytes → ConversationRow → Bool
is_visible owner id r = is_of owner id r && not r.hidden

-- A setting that is not given is none.
unfoldable pub set_options : Option Bool → Option ℕ → ConversationRow → ConversationRow
set_options pinned recv_opt r = record r {
  pinned = elim pinned [ none ↦ r.pinned | some p ↦ p ];
  recv_opt = elim recv_opt [ none ↦ r.recv_opt | some o ↦ o ];
}

-- A negative option is refused as one above 1 is.
unfoldable pub are_settings : Option Bool → Option ℕ → Bool
are_settings none none = false
are_settings pinned none = true
are_settings pinned (some o) = leb o 1

unfoldable pub update_settings :
    ℕ → Bytes → Option Bool → Option ℕ → Db → Result Failure (Bool × Db)
update_settings owner id pinned recv_opt db = do
  guard (are_settings pinned recv_opt) invalid_argument
  ok (
    any (is_visible owner id) db.conversations,
    record db {
      conversations = update (is_visible owner id) (set_options pinned recv_opt) db.conversations;
    },
  )

unfoldable pub delete_conversation : ℕ → Bytes → Db → Db
delete_conversation owner id db =
    if any (is_of owner id) db.conversations
    then record {
      unread = delete (is_unread_of owner id) db.unread;
      conversations =
          update (is_of owner id)
            (λ (r : ConversationRow). record r {
              hidden = true;
              read_seq = r.max_seq;
              unread_count = 0;
            })
            db.conversations;
    }
    else db
