-- ===== src/Friend/Data.antt =====
-- The tables of friends. The rows of friendships and of deletions are the outbox's, which reads them
-- too.
use ape_server.Prelude.{ℕ, Bool, ◌&&◌, ◌||◌, List, Bytes, ◌==◌}
use ape_server.Outbox.Data
use ape_server.Outbox.Data.{FriendRow}

-- The values of friendpb::Operation that reach `mutate`; lookups and lists do not.
pub data Operation : Type 0 where
  apply delete_friend handle_application : Operation

pub record Command : Type 0 where
  pub operation : Operation
  pub actor : ℕ
  pub target : ℕ
  pub application_id : ℕ
  pub message : Bytes
  pub accept : Bool

-- friend_applications; status 0 pending, 1 accepted, 2 rejected
pub record ApplicationRow : Type 0 where
  pub id : ℕ
  pub sender : ℕ
  pub recipient : ℕ
  pub message : Bytes
  pub status : ℕ
  pub created_time : ℕ
  pub handled_time : ℕ

pub record Db : Type 0 where
  pub users : List ℕ
  pub applications : List ApplicationRow
  pub next_id : ℕ
  pub outbox : Data.Db

-- `FriendError::code`
pub data Code : Type 0 where
  forbidden invalid_target user_not_found already_friend application_not_found : Code
  already_handled : Code

abbrev pub is_pair : ℕ → ℕ → FriendRow → Bool
is_pair owner friend f = f.owner == owner && f.friend == friend

abbrev pub is_either : ℕ → ℕ → FriendRow → Bool
is_either a b f = is_pair a b f || is_pair b a f
