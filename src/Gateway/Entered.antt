-- ===== src/Gateway/Entered.antt =====
-- Who enters through the first frame of a connection to src/gateway/ws_session.cpp.
use ape_server.Services.Redis.{Redis}
use ape_server.Gateway.Sessions.{register_session}
use ape_server.Gateway.Session.{
  World, Moment, accept, queued_write, try_send, on_disconnect, leave, start_write_queue,
}
use ape_server.Gateway.Enter.{
  Request, AuthReply, TokenReply, Auth, Handled, returned, Verdict, admitted, denied, broken,
  by_password, by_token, authenticate, handle_reg, welcome, handle_auth, fallback, do_read,
  concluded, start, reject, write_direct,
}
use ape_server.Prelude.{
  ◌≡◌, refl, sym, subst, inl, inr, true, false, ◌||◌, ◌==◌, ==_iff, Option, none, some, Bytes,
  is_empty, Bool-cases, Option-cases,
}

-- The authentication service took the password, or the token for the account.
pub data Proven (auth : Auth) (q : Request) : Type 0 where
  by_login :
      (a : AuthReply)
      → is_empty q.token ≡ true
      → auth.login q.account q.payload ≡ some a
      → a.success ≡ true
      → Proven auth q
  by_valid :
      (a : TokenReply)
      → is_empty q.token ≡ false
      → auth.validate q.token ≡ some a
      → a.valid ≡ true
      → a.account ≡ q.account
      → Proven auth q

authenticate-Proven :
    (auth : Auth) (q : Request) (token : Bytes)
    → authenticate auth q ≡ admitted token
    → Proven auth q
unfolding authenticate by_password by_token
authenticate-Proven auth q token h = elim (Bool-cases (is_empty q.token)) [
  | inl e ↦ elim (Option-cases (auth.login q.account q.payload)) [
    | inl f ↦ cc (rw (authenticate, e, f) at h)
    | inr (a, f) ↦ elim (Bool-cases a.success) [
      | inl t ↦ by_login a e f t
      | inr t ↦ cc (rw (authenticate, e, f, by_password, t) at h)
    ]
  ]
  | inr e ↦ elim (Option-cases (auth.validate q.token)) [
    | inl f ↦ cc (rw (authenticate, e, f) at h)
    | inr (a, f) ↦ elim (Bool-cases a.valid) [
      | inr t ↦ cc (rw (authenticate, e, f, by_token, t) at h)
      | inl t ↦ elim (Bool-cases (a.account == q.account)) [
        | inl u ↦ by_valid a e f t ((==_iff a.account q.account).0 u)
        | inr u ↦ cc (rw (authenticate, e, f, by_token, t, u) at h)
      ]
    ]
  ]
]

module _ (r : Redis) (auth : Auth) where
  -- A session that entered, and one that did not.
  pub record Admitted (w w' : World r) (q : Request) : Type 0 where
    pub proven : Proven auth q
    pub account : w'.session.account ≡ q.account
    pub real : (q.account == 0) ≡ false
    pub registered : w'.manager ≡ register_session q.account w.session.id w.manager

  pub record Outside (w w' : World r) : Type 0 where
    pub account : w'.session.account ≡ 0
    pub same : w'.manager ≡ w.manager

  pub data Entered (w : World r) (q : Option Request) (w' : World r) : Type 0 where
    inside : (p : Request) → q ≡ some p → Admitted w w' p → Entered w q w'
    outside : Outside w w' → Entered w q w'

  module _ (m : Moment) (w : World r) (new : w.session.account ≡ 0) where
    stays : Outside w w
    stays = record { account = new; same = refl }

    on_disconnect-Outside : Outside w (on_disconnect r m w)
    unfolding on_disconnect leave
    on_disconnect-Outside = record {
      account = elim (Bool-cases w.session.disconnected) [
        | inl e ↦ rw (on_disconnect, e) new
        | inr e ↦ rw (on_disconnect, e, leave, new) refl
      ];
      same = elim (Bool-cases w.session.disconnected) [
        | inl e ↦ rw (on_disconnect, e) refl
        | inr e ↦ rw (on_disconnect, e, leave, new) refl
      ];
    }

    handle_reg-Outside : (q : Request) → Outside w (handle_reg r auth q w)
    unfolding handle_reg reject write_direct
    handle_reg-Outside q = elim (Option-cases (auth.parse_register q.payload)) [
      | inl e ↦ rw (handle_reg, e) (record { account = new; same = refl })
      | inr (info, e) ↦
          elim (Bool-cases
            (is_empty info.phone || (is_empty info.nickname || is_empty info.password))) [
              | inl t ↦ rw (handle_reg, e, t) (record { account = new; same = refl })
              | inr t ↦ rw (handle_reg, e, t) (record { account = new; same = refl })
            ]
    ]

    handle_auth-Entered :
        (q : Request)
        → w.session.disconnected ≡ false
        → Entered w (some q) (concluded r m (handle_auth r auth m q w))
    unfolding handle_auth reject welcome queued_write try_send accept start_write_queue
    handle_auth-Entered q fresh = elim (Bool-cases (q.account == 0)) [
      | inl z ↦ rw (handle_auth, z) (outside (record { account = new; same = refl }))
      | inr z ↦ verdict z (authenticate auth q) refl
    ]
      where
        verdict :
            (q.account == 0) ≡ false
            → (v : Verdict) → authenticate auth q ≡ v
            → Entered w (some q) (concluded r m (handle_auth r auth m q w))
        verdict z broken e = rw (handle_auth, z, e) (outside on_disconnect-Outside)
        verdict z (denied f) e =
            rw (handle_auth, z, e) (outside (record { account = new; same = refl }))
        verdict z (admitted token) e =
            rw (handle_auth, z, e, fresh)
              (inside q refl (record {
                proven = authenticate-Proven auth q token e;
                account = refl;
                real = z;
                registered = refl;
              }))

    -- After the first frame of a new connection, whatever it holds, the session is registered for
    -- an account exactly if it has that account; and then the frame asked for this account, which
    -- is not 0, and the authentication service took its password or found its token valid for it.
    -- Otherwise the registered sessions are as before.
    pub start-Entered :
        (q : Option Request) → w.session.disconnected ≡ false → Entered w q (start r auth m q w)
    unfolding start do_read fallback reject
    start-Entered none fresh = outside (record { account = new; same = refl })
    start-Entered (some q) fresh = elim (Bool-cases (q.type == 100)) [
      | inl e ↦
          on (returned, handle_reg r auth q w) (rw (do_read, e) refl)
            (outside (handle_reg-Outside q))
      | inr e ↦ elim (Bool-cases (q.type == 101)) [
        | inl f ↦
            on (handle_auth r auth m q w) (rw (do_read, e, f) refl) (handle_auth-Entered q fresh)
        | inr f ↦
            on (returned, fallback r q w) (rw (do_read, e, f) refl)
              (outside (record { account = new; same = refl }))
      ]
    ]
      where
        on :
            (p : Handled × World r)
            → do_read r auth m (some q) w ≡ p
            → Entered w (some q) (concluded r m p)
            → Entered w (some q) (start r auth m (some q) w)
        on p e h = subst (λ x. Entered w (some q) (concluded r m x)) (sym e) h
