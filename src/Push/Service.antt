-- ===== src/Push/Service.antt =====
-- `PushServer` and `PushHandler` of src/services/push_service, with `GatewayPushServer`, which they
-- call. What the network and the other stores answer is given.
use ape_server.Prelude.{
  ℕ, Bool, true, false, not, ◌&&◌, ◌||◌, Option, none, some, [], ◌∷◌, Bytes, bytes_eq, codes, ◌==◌,
  if◌then◌else◌, ok, err,
}
use ape_server.Outbox.Data
use ape_server.Outbox.Data.{Message, Json, refused, failed}
use ape_server.Outbox.Queue.{queue_ack, confirm_dispatch}
use ape_server.Gateway.Sessions.{Manager, push_to_user}
use ape_server.Push.Visible.{with_friend_message, message_dispatch_done}

-- The tables and the sessions of the gateway.
pub record World : Type 0 where
  pub db : Data.Db
  pub gateway : Manager

-- grpc::StatusCode, of those that are returned
pub data Status : Type 0 where
  fine invalid_argument unimplemented unavailable : Status

pub record Network : Type 0 where
  -- MySQL answers
  pub answers : Bool
  -- what Redis has under an account's online key; `none` is an error
  pub presence : ℕ → Option (Option Bytes)
  -- the call of the gateway gets there
  pub reaches : Bool
  -- the message from Redis or else MongoDB; `none` is an error
  pub fetch : Bytes → Option (Option Message)
  -- the reply of a push comes back in time
  pub replies : Bool
  -- protobuf's serialisation of a message, and of its envelope of type 104
  pub serialize : Message → Bytes
  pub envelope : ℕ → Bytes → Bytes

abbrev pub is_present : Option Bytes → Bool
is_present none = false
is_present (some v) = bytes_eq v (codes "1") || bytes_eq v (codes "true")

-- `GatewayPushServer::PushToUser`
unfoldable pub gateway_push : Network → ℕ → Bytes → Manager → Status × Manager
gateway_push n account binary g =
    if account == 0
    then (invalid_argument, g)
    else (fine, (push_to_user account (n.envelope account binary) g).1)

-- The action that `PushMsg` runs under the lock of the friends' pair.
unfoldable pub dispatch : Network → Message → World → Status × World
dispatch n m w = elim (n.presence m.receiver) [
  | none ↦ (unavailable, w)
  | some v ↦
      if is_present v && n.reaches
      then (fine, record w { gateway = (gateway_push n m.receiver (n.serialize m) w.gateway).1 })
      else (fine, w)
]

unfoldable pub push_single : Network → Message → World → Status × World
push_single n m w =
    if m.is_group
    then (unimplemented, w)
    else if not n.answers
    then (unavailable, w)
    else if with_friend_message m true w.db
    then dispatch n m w
    else (fine, w)

-- `PushServer::PushMsg`; a request may lack its message.
unfoldable pub push_msg : Network → Option Message → World → Status × World
push_msg n none w = (invalid_argument, w)
push_msg n (some m) w = push_single n m w

-- What follows the first bar, if there is one.
pub after_bar : Bytes → Option Bytes
after_bar [] = none
after_bar (c ∷ cs) = if c == b'|' then some cs else after_bar cs

-- "traceparent|servermsgid", or the identifier alone
unfoldable pub server_id_of : Bytes → Bytes
unfolding after_bar
server_id_of payload = elim (after_bar payload) [ none ↦ payload | some id ↦ id ]

abbrev pub is_fine : Status → Bool
is_fine fine = true
is_fine invalid_argument = false
is_fine unimplemented = false
is_fine unavailable = false

unfoldable pub hand_on : Network → Bytes → Message → World → Bool × World
hand_on n id m w =
    if m.is_group || message_dispatch_done m.receiver id w.db
    then (true, w)
    else let (s, w') = push_msg n (some m) w in
      if n.replies && is_fine s
      then (true, record w' { db = confirm_dispatch id w'.db })
      else (false, w')

-- `PushHandler::handle`; when it throws, the queue hands the message over again.
unfoldable pub handle : Network → Bytes → World → Bool × World
handle n payload w = elim (n.fetch (server_id_of payload)) [
  | none ↦ (false, w)
  | some none ↦ (true, w)
  | some (some m) ↦ if n.answers then hand_on n (server_id_of payload) m w else (false, w)
]

-- `PushServer::AckMsg`; what MongoDB has of a message without a task is given.
unfoldable pub ack_msg :
    Json → (Bytes → Option Message) → ℕ → Bytes → ℕ → ℕ → World → Status × World
ack_msg j stored owner id type now w =
    if not (type == 1 || type == 2)
    then (invalid_argument, w)
    else elim (queue_ack j stored owner id now w.db) [
      | ok (true, db) ↦ (fine, record w { db = db })
      | ok (false, db) ↦ (unimplemented, w)
      | err refused ↦ (invalid_argument, w)
      | err failed ↦ (unavailable, w)
    ]
