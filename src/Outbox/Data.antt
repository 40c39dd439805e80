-- ===== src/Outbox/Data.antt =====
-- The tables of InitializeOutbox, with those of the friends that they are checked against, and
-- `friendAllows`.
use ape_server.Prelude.{
  ℕ, Bool, true, not, ◌&&◌, ◌||◌, Option, none, some, List, Bytes, ltb, ◌==◌, find, count,
}
use ape_server.Conversation.Data

-- What the outbox reads of a sdkws::MsgData.
pub record Message : Type 0 where
  pub sender : ℕ
  pub receiver : ℕ
  pub is_group : Bool
  pub session_type : ℕ
  pub client_id : Bytes
  pub server_id : Bytes
  pub content : Bytes
  pub content_type : ℕ
  pub conversation : Bytes
  pub seq : ℕ
  pub send_time : ℕ

-- im_outbox; its times of creation and change are read nowhere. operation 1 message, 2 cleanup,
-- 3 acknowledgement; state 0 ready, 1 leased, 2 done, 3 cancelled.
pub record Task : Type 0 where
  pub id : ℕ
  pub operation : ℕ
  pub key : Bytes
  pub actor : ℕ
  pub peer : ℕ
  pub conversation : Bytes
  pub server_id : Bytes
  pub seq : ℕ
  pub payload : Bytes
  pub state : ℕ
  pub stage : ℕ
  pub dispatch_done : Bool
  pub attempts : ℕ
  pub available_at : ℕ
  pub lease_until : ℕ
  pub lease_token : Bytes
  pub last_error : Bytes

-- friends
pub record FriendRow : Type 0 where
  pub owner : ℕ
  pub friend : ℕ

-- friend_chat_deletions
pub record DeletionRow : Type 0 where
  pub owner : ℕ
  pub peer : ℕ
  pub seq : ℕ

-- im_message_receipts
pub record ReceiptRow : Type 0 where
  pub owner : ℕ
  pub server_id : Bytes
  pub conversation : Bytes
  pub seq : ℕ
  pub delivered_at : ℕ

pub record Db : Type 0 where
  pub tasks : List Task
  -- AUTO_INCREMENT of im_outbox
  pub next_id : ℕ
  pub friends : List FriendRow
  pub deletions : List DeletionRow
  pub receipts : List ReceiptRow
  pub chats : Data.Db

-- Protobuf's JSON of a message.
pub record Json : Type 0 where
  pub print : Message → Option Bytes
  pub parse : Bytes → Option Message

-- std::invalid_argument, and std::runtime_error of a step that failed.
pub data Failure : Type 0 where
  refused failed : Failure

-- Both directions of the friendship are there, and the message is newer than the last deletion.
unfoldable pub friend_allows : ℕ → ℕ → ℕ → Db → Bool
friend_allows actor peer seq db =
    not (actor == peer)
    && (count
          (λ (f : FriendRow).
            (f.owner == actor && f.friend == peer) || (f.owner == peer && f.friend == actor))
          db.friends
        == 2)
    && elim (find (λ (d : DeletionRow). d.owner == actor && d.peer == peer) db.deletions) [
      | none ↦ true
      | some d ↦ ltb d.seq seq
    ]
