-- ===== src/Gateway/Enter.antt =====
-- `doRead`, `handleReg`, `handleAuth` and `fallback` of src/gateway/ws_session.cpp: the first frame
-- of a connection. The answers of the authentication service are given.
use ape_server.Services.Redis.{Redis}
use ape_server.Gateway.Session.{Frame, World, Moment, accept, queued_write, mark, on_disconnect}
use ape_server.Prelude.{
  ℕ, Bool, true, ◌&&◌, ◌||◌, Option, none, some, [], ◌∷◌, ◌++◌, Bytes, codes, ◌==◌, if◌then◌else◌,
  is_empty,
}

-- SdkWSReq, without the device and the trace
pub record Request : Type 0 where
  pub type : ℕ
  pub account : ℕ
  pub request : Bytes
  pub token : Bytes
  pub payload : Bytes

-- AuthRegResponse, of a registration and of a login
pub record AuthReply : Type 0 where
  pub success : Bool
  pub account : ℕ
  pub code : Bytes
  pub token : Bytes

-- ValidateTokenResponse
pub record TokenReply : Type 0 where
  pub valid : Bool
  pub account : ℕ

-- RegisterRequest
pub record RegisterInfo : Type 0 where
  pub phone : Bytes
  pub nickname : Bytes
  pub password : Bytes

-- `AuthClient`, and how protobuf reads a registration; none is an exception.
pub record Auth : Type 0 where
  pub register : RegisterInfo → Bytes → Option AuthReply
  pub login : ℕ → Bytes → Option AuthReply
  pub validate : Bytes → Option TokenReply
  pub parse_register : Bytes → Option RegisterInfo

-- How the handling of a frame ends: it returns, or it throws.
pub data Handled : Type 0 where
  returned threw : Handled

-- A frame with a code for a request, and nothing else.
abbrev pub coded : ℕ → ℕ → Bytes → Bytes → Frame
coded type account request code = record {
  type = type;
  account = account;
  request = request;
  code = code;
  token = [];
  payload = [];
}

unfoldable pub register_frame : Request → Option AuthReply → Frame
register_frame q none = coded 0 0 q.request (codes "REG_CLIENT_ERROR")
register_frame q (some a) =
    if a.success
    then coded 0 a.account q.request []
    else coded 0 0 q.request (if is_empty a.code then codes "REGISTER_FAILED" else a.code)

-- The token of a session that may enter; the frame of one that may not; or an exception.
pub data Verdict : Type 0 where
  admitted : Bytes → Verdict
  denied : Frame → Verdict
  broken : Verdict

unfoldable pub by_password : Request → Option AuthReply → Verdict
by_password q none = broken
by_password q (some a) =
    if a.success then admitted a.token else denied (coded 0 q.account q.request (codes "401"))

unfoldable pub by_token : Request → Option TokenReply → Verdict
by_token q none = denied (coded 0 q.account q.request (codes "INVALID_PARAM"))
by_token q (some a) =
    if a.valid && a.account == q.account
    then admitted q.token
    else denied (coded 0 q.account q.request (codes "INVALID_PARAM"))

unfoldable pub authenticate : Auth → Request → Verdict
authenticate auth q =
    if is_empty q.token
    then by_password q (auth.login q.account q.payload)
    else by_token q (auth.validate q.token)

-- The frame that says that the session is authenticated.
abbrev pub ok_frame : Request → Bytes → Frame
ok_frame q token = record {
  type = q.type;
  account = q.account;
  request = q.request;
  code = [];
  token = token;
  payload = [];
}

module _ (r : Redis) where
  -- `ws_.async_write`, before the queue is started
  unfoldable pub write_direct : Frame → World r → World r
  write_direct f w = record w { session = record w.session { direct = w.session.direct ++ f ∷ [] } }

  -- A frame with an error, after which the connection is closed.
  unfoldable pub reject : Frame → World r → World r
  reject f w = record w {
    session = record w.session { direct = w.session.direct ++ f ∷ []; closed = true };
  }

  unfoldable pub handle_reg : Auth → Request → World r → World r
  handle_reg auth q w = elim (auth.parse_register q.payload) [
    | none ↦ reject (coded q.type 0 q.request (codes "PARSE_ERROR")) w
    | some info ↦
        if is_empty info.phone || (is_empty info.nickname || is_empty info.password)
        then reject (coded q.type 0 q.request (codes "IMCOMPLETE_INFO")) w
        else write_direct (register_frame q (auth.register info q.request)) w
  ]

  -- What follows the registration of the session, up to the start of the loop that reads.
  unfoldable pub welcome : Moment → Frame → ℕ → World r → Handled × World r
  welcome m f account w =
      let (queued, w') =
        queued_write r m f (record w { store = mark r m account (codes "1") w.store }) in
      (if queued then returned else threw, w')

  unfoldable pub handle_auth : Auth → Moment → Request → World r → Handled × World r
  handle_auth auth m q w =
      if q.account == 0
      then (returned, reject (coded 0 0 [] (codes "INVALID_PARAM")) w)
      else elim (authenticate auth q) [
        | broken ↦ (threw, w)
        | denied f ↦ (returned, reject f w)
        | admitted token ↦ welcome m (ok_frame q token) q.account (accept r q.account w)
      ]

  unfoldable pub fallback : Request → World r → World r
  fallback q w = reject (coded 0 0 q.request (codes "4401")) w

  -- `none` is a frame that protobuf does not read.
  unfoldable pub do_read : Auth → Moment → Option Request → World r → Handled × World r
  do_read auth m none w = (returned, reject (coded 0 0 [] (codes "1")) w)
  do_read auth m (some q) w =
      if q.type == 100
      then (returned, handle_reg auth q w)
      else if q.type == 101
      then handle_auth auth m q w
      else (returned, fallback q w)

  -- The end of `start`: an exception ends the session.
  abbrev pub concluded : Moment → Handled × World r → World r
  concluded m (returned, w) = w
  concluded m (threw, w) = on_disconnect r m w

  unfoldable pub start : Auth → Moment → Option Request → World r → World r
  start auth m q w = concluded m (do_read auth m q w)
