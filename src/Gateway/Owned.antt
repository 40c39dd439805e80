-- ===== src/Gateway/Owned.antt =====
-- Whose commands the loop of src/gateway/ws_session.cpp passes on.
use mathlib.Core.Option
use ape_server.Services.Redis.{Redis}
use ape_server.Gateway.Session.{
  Frame, Session, World, Moment, Ask, ack_message, queued_write, on_disconnect, leave, try_send,
  acknowledged, close_socket,
}
use ape_server.Gateway.Enter.{Request}
use ape_server.Gateway.Answers.{Clients, Codec, Answer, answer, ping}
use ape_server.Gateway.Serve.{
  called, handle_acks, handle_ack, notify, give, pong, serve, do_read_loop,
}
use ape_server.Gateway.Sessions.{has_session}
use ape_server.Prelude.{
  ℕ, ◌≡◌, refl, sym, subst, ap, ◌∙◌, inl, inr, not, ◌||◌, Option, none, some, List, [], ◌∷◌, ◌++◌,
  Bytes, ◌==◌, ltb, length, All, All-append, Bool-cases, Option-cases,
}
use ape_server.Gateway.Asks.{IsFor, answer-Asks}

module _ (r : Redis) where
  -- The session's account and the calls are what they were.
  record Same (w w' : World r) : Type 0 where
    account : w'.session.account ≡ w.session.account
    calls : w'.calls ≡ w.calls

  on_disconnect-Same : (m : Moment) (w : World r) → Same w (on_disconnect r m w)
  unfolding on_disconnect leave
  on_disconnect-Same m w = elim (Bool-cases w.session.disconnected) [
    | inl e ↦ rw (on_disconnect, e) (record { account = refl; calls = refl })
    | inr e ↦ elim (Bool-cases (w.session.account == 0)) [
      | inl z ↦ rw (on_disconnect, e, leave, z) (record { account = refl; calls = refl })
      | inr z ↦ rw (on_disconnect, e, leave, z) (record { account = refl; calls = refl })
    ]
  ]

  try_send-account : (f : Frame) (s t : Session) → try_send f s ≡ some t → t.account ≡ s.account
  unfolding try_send
  try_send-account f s t h = elim (Option-cases s.queue) [
    | inl e ↦ cc (rw (try_send, e) at h)
    | inr (q, e) ↦ elim (Bool-cases (s.disconnected || not (ltb (length q) 256))) [
      | inl b ↦ cc (rw (try_send, e, b) at h)
      | inr b ↦
          sym
            (ap (λ (x : Session). x.account) (Option.some-injective _ t (rw (try_send, e, b) at h)))
    ]
  ]

  queued_write-Same : (m : Moment) (f : Frame) (w : World r) → Same w (queued_write r m f w).1
  unfolding queued_write
  queued_write-Same m f w = elim (Option-cases (try_send f w.session)) [
    | inl e ↦ rw (queued_write, e) (on_disconnect-Same m w)
    | inr (s, e) ↦
        rw (queued_write, e) (record { account = try_send-account f w.session s e; calls = refl })
  ]

  -- The session is of an account, and every call that it made is in that account's name.
  pub record Owned (account : ℕ) (w : World r) : Type 0 where
    pub is : w.session.account ≡ account
    pub asked : All (IsFor account) w.calls

  Same-Owned : (account : ℕ) (w w' : World r) → Same w w' → Owned account w → Owned account w'
  Same-Owned account w w' s o = record {
    is = s.account ∙ o.is;
    asked = subst (All (IsFor account)) (sym s.calls) o.asked;
  }

  module _ (account : ℕ) (s : Clients) (codec : Codec) where
    called-Owned :
        (a : Ask) (w : World r)
        → IsFor account a
        → Owned account w
        → Owned account (called r s codec a w)
    unfolding called
    called-Owned a w f o = record {
      is = o.is;
      asked = All-append (IsFor account) w.calls (a ∷ []) o.asked (f, tt);
    }

    handle_acks-Owned :
        (type : ℕ) (ids : List Bytes) (w : World r)
        → Owned account w
        → Owned account (handle_acks r s codec type ids w)
    unfolding handle_acks acknowledged close_socket called
    handle_acks-Owned type [] w o = o
    handle_acks-Owned type (id ∷ ids) w o =
        let ask = ack_message w.session.account id type in
        let once = called-Owned ask w o.is o in
        let twice = called-Owned ask (called r s codec ask w) o.is once in
        elim (Bool-cases (s.acks id 0)) [
          | inl e ↦
              rw (handle_acks, e)
                (handle_acks-Owned type ids (acknowledged r id (called r s codec ask w))
                  (record { is = once.is; asked = once.asked }))
          | inr e ↦ elim (Bool-cases (s.acks id 1)) [
            | inl f ↦
                rw (handle_acks, e, f)
                  (handle_acks-Owned type ids
                    (acknowledged r id (called r s codec ask (called r s codec ask w)))
                    (record { is = twice.is; asked = twice.asked }))
            | inr f ↦ rw (handle_acks, e, f) (record { is = twice.is; asked = twice.asked })
          ]
        ]

    handle_ack-Owned :
        (q : Request) (w : World r) → Owned account w → Owned account (handle_ack r s codec q w)
    unfolding handle_ack
    handle_ack-Owned q w o = elim (Option-cases (codec.parse_acks q.payload)) [
      | inl e ↦ rw (handle_ack, e) o
      | inr (a, e) ↦ elim (Bool-cases (a.type == 1 || a.type == 2)) [
        | inl t ↦ rw (handle_ack, e, t) (handle_acks-Owned a.type a.ids w o)
        | inr t ↦ rw (handle_ack, e, t) o
      ]
    ]

    notify-Owned :
        (others : List ℕ) (w : World r)
        → Owned account w
        → Owned account (notify r s codec others w)
    unfolding notify
    notify-Owned [] w o = o
    notify-Owned (other ∷ others) w o = elim (Bool-cases (has_session other w.manager)) [
      | inl e ↦ rw (notify, e) (notify-Owned others _ (record { is = o.is; asked = o.asked }))
      | inr e ↦ rw (notify, e) (notify-Owned others w o)
    ]

    give-Owned :
        (m : Moment) (a : Answer) (w : World r)
        → All (IsFor account) a.asks
        → Owned account w
        → Owned account (give r s codec m a w).1
    unfolding give
    give-Owned m a w h o =
        let asked : Owned account (record w { calls = w.calls ++ a.asks }) = record {
          is = o.is;
          asked = All-append (IsFor account) w.calls a.asks o.asked h;
        } in
        elim (Option-cases a.frame) [
          | inl e ↦ rw (give, e) asked
          | inr (f, e) ↦
              let after =
                Same-Owned account _ _
                  (queued_write-Same m f (record w { calls = w.calls ++ a.asks })) asked in
              elim (Bool-cases (queued_write r m f (record w { calls = w.calls ++ a.asks })).0) [
                | inl b ↦ rw (give, e, b) (notify-Owned a.changed _ after)
                | inr b ↦ rw (give, e, b) after
              ]
        ]

    pong-Owned :
        (m : Moment) (q : Request) (w : World r)
        → Owned account w
        → Owned account (pong r s codec m q w).1
    unfolding pong
    pong-Owned m q w o =
        let after = Same-Owned account _ _ (queued_write-Same m (ping w.session.account q) w) o in
        elim (Bool-cases (queued_write r m (ping w.session.account q) w).0) [
          | inl b ↦ rw (pong, b) (record { is = after.is; asked = after.asked })
          | inr b ↦ rw (pong, b) after
        ]

    serve-Owned :
        (m : Moment) (q : Option Request) (w : World r)
        → Owned account w
        → Owned account (serve r s codec m q w).1
    unfolding serve
    serve-Owned m none w o = o
    serve-Owned m (some q) w o = elim (Bool-cases (q.type == 0)) [
      | inl t ↦ rw (serve, t) (pong-Owned m q w o)
      | inr t ↦ elim (Bool-cases (q.type == 106)) [
        | inl u ↦ rw (serve, t, u) (handle_ack-Owned q w o)
        | inr u ↦
            rw (serve, t, u)
              (give-Owned m (answer s codec w.session.account q) w
                (subst (λ x. All (IsFor account) (answer s codec x q).asks) (sym o.is)
                  (answer-Asks s codec account q))
                o)
      ]
    ]

    -- Whatever frames a client sends, and whichever accounts it writes in them, every call of
    -- another service that the loop makes for them is in the name of the session's own account.
    pub do_read_loop-Owned :
        (last : Moment) (qs : List (Moment × Option Request)) (w : World r)
        → Owned account w
        → Owned account (do_read_loop r s codec last qs w)
    unfolding do_read_loop
    do_read_loop-Owned last [] w o = Same-Owned account _ _ (on_disconnect-Same last w) o
    do_read_loop-Owned last ((m, q) ∷ qs) w o =
        let after = serve-Owned m q w o in
        elim (Bool-cases (serve r s codec m q w).0) [
          | inl b ↦
              rw (do_read_loop, b) (do_read_loop-Owned last qs (serve r s codec m q w).1 after)
          | inr b ↦
              rw (do_read_loop, b)
                (Same-Owned account _ _ (on_disconnect-Same m (serve r s codec m q w).1) after)
        ]
