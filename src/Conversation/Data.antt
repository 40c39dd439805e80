-- ===== src/Conversation/Data.antt =====
-- The tables of InitializeConversations and what the operations read.
use ape_server.Prelude.{ℕ, Bool, ◌&&◌, List, Bytes, bytes_eq, ◌==◌}

-- im_conversations
pub record ConversationRow : Type 0 where
  pub owner : ℕ
  pub id : Bytes
  pub peer : ℕ
  pub pinned : Bool
  pub recv_opt : ℕ
  pub hidden : Bool
  pub min_seq : ℕ
  pub max_seq : ℕ
  pub read_seq : ℕ
  pub unread_count : ℕ
  pub latest_time : ℕ
  pub latest_message : Bytes

-- im_conversation_unread
pub record UnreadRow : Type 0 where
  pub owner : ℕ
  pub id : Bytes
  pub seq : ℕ

pub record Db : Type 0 where
  pub conversations : List ConversationRow
  pub unread : List UnreadRow

-- What `RecordConversationMessage` reads of a sdkws::MsgData. A negative `seq` is refused as 0 is.
pub record Message : Type 0 where
  pub is_group : Bool
  pub seq : ℕ
  pub conversation : Bytes
  pub sender : ℕ
  pub receiver : ℕ
  pub send_time : ℕ

-- std::invalid_argument, and std::runtime_error of the serialisation.
pub data Failure : Type 0 where
  invalid_argument runtime_error : Failure

-- `WHERE owner_account={} AND conversation_id={}`; the identifier's column is binary.
abbrev pub is_of : ℕ → Bytes → ConversationRow → Bool
is_of owner id r = r.owner == owner && bytes_eq r.id id

abbrev pub is_unread_of : ℕ → Bytes → UnreadRow → Bool
is_unread_of owner id u = u.owner == owner && bytes_eq u.id id
