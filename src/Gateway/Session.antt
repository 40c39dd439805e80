-- ===== src/Gateway/Session.antt =====
-- `WSSession` of src/gateway/ws_session.cpp: one connection, its queue of frames to write and its
-- end. Redis is given. A function here is code that runs without waiting for anything but Redis, so
-- that the functions are the steps between which other coroutines of the session run.
use ape_server.Services.Redis.{Redis}
use ape_server.Services.Backbon.{online_key}
use ape_server.Group.Data
use ape_server.Outbox.Data.{Message}
use ape_server.Gateway.Sessions.{Manager, register_session, unregister_session}
use ape_server.Prelude.{
  ℕ, Bool, true, false, not, ◌||◌, Option, none, some, List, [], ◌∷◌, ◌++◌, Bytes, bytes_eq, codes,
  ltb, ◌==◌, if◌then◌else◌, length, delete,
}

-- SdkWSResp, without the texts of errors and the device
pub record Frame : Type 0 where
  pub type : ℕ
  pub account : ℕ
  pub request : Bytes
  pub code : Bytes
  pub token : Bytes
  pub payload : Bytes

-- An entry of `pendingOfflineMsgs_`.
pub record Pending : Type 0 where
  pub id : Bytes
  pub seq : ℕ
  pub conversation : Bytes

-- `queue` is none before `startWriteQueue`, and `writing` is what was received from it and is being
-- written; `accepted` and `written` are what the queue took and what was written from it, and `direct`
-- what was written past it.
pub record Session : Type 0 where
  pub id : ℕ
  pub account : ℕ
  pub disconnected : Bool
  pub closed : Bool
  pub queue : Option (List Frame)
  pub writing : Option Frame
  pub pending : List Pending
  pub accepted : List Frame
  pub written : List Frame
  pub direct : List Frame

-- The fields of GetSingleChatHistoryReq, of the requests on conversations and of friendpb::Command.
pub record History : Type 0 where
  pub owner : ℕ
  pub peer : ℕ
  pub after_seq : ℕ
  pub limit : ℕ

pub record Conversation : Type 0 where
  pub owner : ℕ
  pub id : Bytes
  pub read_seq : ℕ
  pub is_pinned : Option Bool
  pub recv_opt : Option ℕ

pub record FriendCommand : Type 0 where
  pub actor : ℕ
  pub operation : ℕ
  pub target : ℕ
  pub application_id : ℕ
  pub message : Bytes
  pub accept : Bool
  pub after : ℕ
  pub limit : ℕ
  pub snapshot : ℕ

-- A call of another service.
pub data Ask : Type 0 where
  send_messages : List Message → Ask
  group_execute : Data.Command → Ask
  chat_history : History → Ask
  list_conversations : ℕ → Ask
  mark_read update_settings delete_conversation : Conversation → Ask
  friend_execute : FriendCommand → Ask
  ack_message : ℕ → Bytes → ℕ → Ask

-- The session, the sessions of the gateway, Redis, and the calls that the session made.
pub record World (r : Redis) : Type 0 where
  pub session : Session
  pub manager : Manager
  pub store : r.Store
  pub calls : List Ask

-- When Redis runs a call, and whether it answers.
pub record Moment : Type 0 where
  pub at : ℕ
  pub redis : Bool

-- What the queue holds.
abbrev pub waiting : Option (List Frame) → List Frame
waiting none = []
waiting (some q) = q

-- What is being written.
abbrev pub flying : Option Frame → List Frame
flying none = []
flying (some f) = f ∷ []

-- `try_send` on a channel of 256 frames.
unfoldable pub try_send : Frame → Session → Option Session
try_send f s = elim s.queue [
  | none ↦ none
  | some q ↦
      if s.disconnected || not (ltb (length q) 256)
      then none
      else some (record s { queue = some (q ++ f ∷ []); accepted = s.accepted ++ f ∷ [] })
]

unfoldable pub start_write_queue : Session → Session
start_write_queue s = record s { queue = some [] }

abbrev pub ended : Session → Session
ended s = record s { disconnected = true; closed = true; pending = [] }

module _ (r : Redis) where
  abbrev pub mark : Moment → ℕ → Bytes → r.Store → r.Store
  mark m account value store =
      if m.redis then r.setex m.at (online_key account) 300 value store else store

  -- Only the session that is registered marks its account as offline.
  unfoldable pub leave : Moment → World r → World r
  leave m w =
      let (active, manager) = unregister_session w.session.account w.session.id w.manager in
      if w.session.account == 0 then w else record w {
        manager = manager;
        store = if active then mark m w.session.account (codes "0") w.store else w.store;
      }

  unfoldable pub on_disconnect : Moment → World r → World r
  on_disconnect m w =
      if w.session.disconnected then w else leave m (record w { session = ended w.session })

  -- False is the exception after which the caller ends.
  unfoldable pub queued_write : Moment → Frame → World r → Bool × World r
  queued_write m f w = elim (try_send f w.session) [
    | none ↦ (false, on_disconnect m w)
    | some s ↦ (true, record w { session = s })
  ]

  -- What `asyncSend` posts to the session's executor.
  unfoldable pub async_send : Moment → Frame → World r → World r
  async_send m f w = if w.session.disconnected then w else (queued_write m f w).1

  abbrev pub taken : World r → Option Frame → Option (List Frame) → World r
  taken w none (some (f ∷ q)) = record w {
    session = record w.session { queue = some q; writing = some f };
  }
  taken w none (some []) = w
  taken w none none = w
  taken w (some g) queue = w

  -- `doDrainWriteQueue` up to its second wait: a frame is received, when none is being written.
  unfoldable pub take_frame : World r → World r
  take_frame w = if w.session.disconnected then w else taken w w.session.writing w.session.queue

  abbrev pub put_down : World r → World r
  put_down w = record w { session = record w.session { writing = none } }

  abbrev pub write_ended : Moment → Bool → World r → Option Frame → World r
  write_ended m succeeds w none = w
  write_ended m succeeds w (some f) =
      if succeeds
      then record w {
        session = record w.session { writing = none; written = w.session.written ++ f ∷ [] };
      }
      else on_disconnect m (put_down w)

  -- The rest of its turn, after the write, which succeeds or not.
  unfoldable pub finish_write : Moment → Bool → World r → World r
  finish_write m succeeds w = write_ended m succeeds w w.session.writing

  abbrev pub is_pending : Bytes → Pending → Bool
  is_pending id p = bytes_eq p.id id

  -- An acknowledgement that the push service took.
  unfoldable pub acknowledged : Bytes → World r → World r
  acknowledged id w = record w {
    session = record w.session { pending = delete (is_pending id) w.session.pending };
  }

  unfoldable pub close_socket : World r → World r
  close_socket w = record w { session = record w.session { closed = true } }

  -- The session of an account that was verified.
  unfoldable pub accept : ℕ → World r → World r
  accept account w = record w {
    session = start_write_queue (record w.session { account = account });
    manager = register_session account w.session.id w.manager;
  }
