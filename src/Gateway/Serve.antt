-- ===== src/Gateway/Serve.antt =====
-- `doReadLoop` and `handleAck` of src/gateway/ws_session.cpp: the requests of a session.
use ape_server.Services.Redis.{Redis}
use ape_server.Gateway.Sessions.{has_session, push_to_user}
use ape_server.Gateway.Session.{
  World, Moment, Ask, ack_message, queued_write, mark, on_disconnect, acknowledged, close_socket,
}
use ape_server.Gateway.Enter.{Request, coded}
use ape_server.Prelude.{
  ℕ, Bool, true, ◌||◌, Option, none, some, List, [], ◌∷◌, ◌++◌, Bytes, codes, ◌==◌, if◌then◌else◌,
}
use ape_server.Gateway.Answers.{Clients, Codec, Answer, answer, ping}

module _ (r : Redis) (s : Clients) (codec : Codec) where
  unfoldable pub called : Ask → World r → World r
  called a w = record w { calls = w.calls ++ a ∷ [] }

  -- A second attempt follows the first one if it fails; when both do, the socket is closed.
  unfoldable pub handle_acks : ℕ → List Bytes → World r → World r
  handle_acks type [] w = w
  handle_acks type (id ∷ ids) w =
      let ask = ack_message w.session.account id type in
      let once = called ask w in
      let twice = called ask once in
      let first = handle_acks type ids (acknowledged r id once) in
      let second = handle_acks type ids (acknowledged r id twice) in
      if s.acks id 0 then first else if s.acks id 1 then second else close_socket r twice

  unfoldable pub handle_ack : Request → World r → World r
  handle_ack q w = elim (codec.parse_acks q.payload) [
    | none ↦ w
    | some a ↦ if a.type == 1 || a.type == 2 then handle_acks a.type a.ids w else w
  ]

  -- A notice of type 230 to each account that is online here.
  unfoldable pub notify : List ℕ → World r → World r
  notify [] w = w
  notify (account ∷ accounts) w =
      let pushed = record w {
        manager =
            (push_to_user account (codec.serialize (coded 230 account [] (codes "0"))) w.manager).1;
      } in
      notify accounts (if has_session account w.manager then pushed else w)

  -- The calls are made, the answer is queued, and the others are told, unless the queue refuses.
  unfoldable pub give : Moment → Answer → World r → Bool × World r
  give m a w =
      let asked = record w { calls = w.calls ++ a.asks } in
      elim a.frame [
        | none ↦ (true, asked)
        | some f ↦
            let (queued, w') = queued_write r m f asked in
            (queued, if queued then notify a.changed w' else w')
      ]

  -- After the answer to a ping, the account is marked online again.
  unfoldable pub pong : Moment → Request → World r → Bool × World r
  pong m q w =
      let (queued, w') = queued_write r m (ping w.session.account q) w in
      (
        queued,
        if queued
            then record w' { store = mark r m w'.session.account (codes "1") w'.store }
            else w',
      )

  -- One frame; `none` is one that protobuf does not read. False is an exception.
  unfoldable pub serve : Moment → Option Request → World r → Bool × World r
  serve m none w = (true, w)
  serve m (some q) w =
      if q.type == 0
      then pong m q w
      else if q.type == 106
      then (true, handle_ack q w)
      else give m (answer s codec w.session.account q) w

  -- The frames that are read, each with its moment, up to the error at which reading ends.
  unfoldable pub do_read_loop : Moment → List (Moment × Option Request) → World r → World r
  do_read_loop last [] w = on_disconnect r last w
  do_read_loop last ((m, q) ∷ qs) w =
      let (goes_on, w') = serve m q w in
      let rest = do_read_loop last qs w' in if goes_on then rest else on_disconnect r m w'
