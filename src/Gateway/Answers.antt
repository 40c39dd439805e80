-- ===== src/Gateway/Answers.antt =====
-- What the requests to `doReadLoop` of src/gateway/ws_session.cpp ask of the other services, and how
-- they are answered. The services are given, with protobuf's reading of requests and writing of
-- replies.
use ape_server.Group.Data
use ape_server.Outbox.Data.{Message}
use ape_server.Gateway.Session.{
  Frame, Ask, send_messages, group_execute, chat_history, list_conversations, mark_read,
  update_settings, delete_conversation, friend_execute, History, Conversation, FriendCommand,
}
use ape_server.Gateway.Enter.{Request, coded}
use ape_server.Prelude.{
  ℕ, ◌-◌, Bool, ◌&&◌, Option, none, some, List, [], ◌∷◌, Bytes, bytes_eq, codes, leb, ◌==◌,
  if◌then◌else◌, is_empty, map,
}

-- friendpb::Reply: its code, the accounts that it changed, and the whole of it.
pub record FriendReply : Type 0 where
  pub code : Bytes
  pub changed : List ℕ
  pub whole : Bytes

-- AckReq
pub record Acks : Type 0 where
  pub type : ℕ
  pub ids : List Bytes

-- The clients of the services, of which three may be missing; none is an exception.
pub record Clients : Type 0 where
  pub send : List Message → Option Bytes
  pub group : Option (Data.Command → Bytes)
  pub history : History → Option Bytes
  pub conversations : Option (Ask → Option Bytes)
  pub friends : Option (FriendCommand → Option FriendReply)
  -- the attempts of `AckMsg` that get through
  pub acks : Bytes → ℕ → Bool

-- Protobuf.
pub record Codec : Type 0 where
  pub parse_send : Bytes → Option (List Message)
  pub parse_group : Bytes → Option Data.Command
  pub parse_history : Bytes → Option History
  pub parse_conversation : ℕ → Bytes → Option Conversation
  pub parse_friend : Bytes → Option FriendCommand
  pub parse_acks : Bytes → Option Acks
  pub group_error : Bytes → Bytes
  pub friend_error : Bytes → Bytes
  pub serialize : Frame → Bytes

abbrev pub reply : ℕ → Request → Bytes → Bytes → Frame
reply account q code payload = record {
  type = q.type;
  account = account;
  request = q.request;
  code = code;
  token = [];
  payload = payload;
}

-- The account of the session stands for whatever account the client wrote.
abbrev pub own_conversation : ℕ → Conversation → Conversation
own_conversation account c = record c { owner = account }

-- The call on conversations that a request asks for, if it is valid.
unfoldable pub conversation_ask : Codec → ℕ → Request → Option Ask
conversation_ask codec account q =
    if q.type == 240
    then some (list_conversations account)
    else elim (codec.parse_conversation q.type q.payload) [
      | none ↦ none
      | some c ↦
          if is_empty c.id
          then none
          else if q.type == 241
          then some (mark_read (own_conversation account c))
          else if q.type == 242
          then some (update_settings (own_conversation account c))
          else some (delete_conversation (own_conversation account c))
    ]

-- The calls of a request, and the frame that answers it, if one does.
pub record Answer : Type 0 where
  pub asks : List Ask
  pub frame : Option Frame
  pub changed : List ℕ

abbrev pub answered : List Ask → Frame → Answer
answered asks f = record { asks = asks; frame = some f; changed = [] }

unfoldable pub ping : ℕ → Request → Frame
ping account q = coded 0 account q.request (codes "0")

unfoldable pub send : Clients → Codec → ℕ → Request → Answer
send s codec account q = elim (codec.parse_send q.payload) [
  | none ↦ record { asks = []; frame = none; changed = [] }
  | some ms ↦
      let own = map (λ (m : Message). record m { sender = account }) ms in
      elim (s.send own) [
        | none ↦ answered (send_messages own ∷ []) (reply account q (codes "500") [])
        | some bytes ↦ answered (send_messages own ∷ []) (reply account q (codes "0") bytes)
      ]
]

unfoldable pub group : Clients → Codec → ℕ → Request → Answer
group s codec account q = elim (codec.parse_group q.payload) [
  | none ↦ answered [] (reply account q [] (codec.group_error (codes "INVALID_PARAM")))
  | some c ↦ elim s.group [
    | none ↦ answered [] (reply account q [] (codec.group_error (codes "DB_ERROR")))
    | some execute ↦
        let own = record c { actor = account } in
        answered (group_execute own ∷ []) (reply account q [] (execute own))
  ]
]

unfoldable pub history : Clients → Codec → ℕ → Request → Answer
history s codec account q = elim (codec.parse_history q.payload) [
  | none ↦ answered [] (reply account q (codes "INVALID_PARAM") [])
  | some h ↦
      let own = record h { owner = account } in
      if h.peer == 0
      then answered [] (reply account q (codes "INVALID_PARAM") [])
      else elim (s.history own) [
        | none ↦ answered (chat_history own ∷ []) (reply account q (codes "HISTORY_ERROR") [])
        | some bytes ↦ answered (chat_history own ∷ []) (reply account q (codes "0") bytes)
      ]
]

unfoldable pub conversations : Clients → Codec → ℕ → Request → Answer
conversations s codec account q = elim s.conversations [
  | none ↦ answered [] (reply account q (codes "CONVERSATION_ERROR") [])
  | some execute ↦ elim (conversation_ask codec account q) [
    | none ↦ answered [] (reply account q (codes "CONVERSATION_ERROR") [])
    | some a ↦ elim (execute a) [
      | none ↦ answered (a ∷ []) (reply account q (codes "CONVERSATION_ERROR") [])
      | some bytes ↦
          answered (a ∷ []) (reply account q (codes "0") (if q.type == 240 then bytes else []))
    ]
  ]
]

abbrev friend_failed : Codec → ℕ → Request → List Ask → Bytes → Answer
friend_failed codec account q asks code =
    answered asks (reply account q code (codec.friend_error code))

unfoldable pub friends : Clients → Codec → ℕ → Request → Answer
friends s codec account q = elim (codec.parse_friend q.payload) [
  | none ↦ friend_failed codec account q [] (codes "INVALID_PARAM")
  | some c ↦ elim s.friends [
    | none ↦ friend_failed codec account q [] (codes "SERVICE_UNAVAILABLE")
    | some execute ↦
        let own = record c { actor = account; operation = q.type - 220 } in
        elim (execute own) [
          | none ↦
              friend_failed codec account q (friend_execute own ∷ []) (codes "SERVICE_UNAVAILABLE")
          | some a ↦ record {
            asks = friend_execute own ∷ [];
            frame = some (reply account q a.code a.whole);
            changed = if bytes_eq a.code (codes "0") then a.changed else [];
          }
        ]
  ]
]

-- What a request of a type other than 0 and 106 comes to; one of another type has no answer.
unfoldable pub answer : Clients → Codec → ℕ → Request → Answer
answer s codec account q =
    if q.type == 101
    then send s codec account q
    else if q.type == 250
    then group s codec account q
    else if q.type == 244
    then history s codec account q
    else if leb 240 q.type && leb q.type 243
    then conversations s codec account q
    else if leb 220 q.type && leb q.type 225
    then friends s codec account q
    else record { asks = []; frame = none; changed = [] }
