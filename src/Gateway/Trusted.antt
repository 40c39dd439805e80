-- ===== src/Gateway/Trusted.antt =====
-- `WSSession` of src/gateway/ws_session.cpp before the authentication service of
-- src/services/auth_service, by its client.
use mathlib.Core.Option
use ape_server.Services.Redis.{Redis, Lawful}
use ape_server.Register.Data.{User}
use ape_server.Services.Auth.{
  State, Call, LoginError, LoggedIn, Validation, invalid, redis_error, valid, Look, login,
  validate_token,
}
use ape_server.Services.Auth.Tokens.{Verified, Logged, refused, issued, login-Logged}
use ape_server.Services.Auth.History.{Reach, Issued}
use ape_server.Services.Auth.Valid.{validate_token-Issued}
use ape_server.Gateway.Sessions.{register_session}
use ape_server.Gateway.Session.{World, Moment}
use ape_server.Gateway.Enter.{Request, Auth, AuthReply, TokenReply, RegisterInfo, start}
use ape_server.Gateway.Entered.{
  Proven, by_login, by_valid, Admitted, Outside, Entered, inside, outside, start-Entered,
}
use ape_server.Prelude.{
  ◌≡◌, refl, sym, ap, ◌∙◌, subst, Bool, true, false, Option, none, some, [], Bytes, Result, ok, err,
  codes, ◌⊎◌, inl, inr,
}

-- A status that is not OK leaves the reply empty.
abbrev pub token_reply : Validation → TokenReply
token_reply invalid = record { valid = false; account = 0 }
token_reply redis_error = record { valid = false; account = 0 }
token_reply (valid user account expires) = record { valid = true; account = account }

abbrev pub error_code : LoginError → Bytes
error_code LoginError.invalid_param = codes "INVALID_PARAM"
error_code LoginError.user_not_found = codes "USER_NOT_FOUND"
error_code LoginError.wrong_password = codes "WRONG_PASSWORD"
error_code LoginError.internal_error = []

abbrev pub login_reply : Result LoginError LoggedIn → AuthReply
login_reply (ok a) = record { success = true; account = a.account; code = []; token = a.token }
login_reply (err e) = record { success = false; account = 0; code = error_code e; token = [] }

module _ (sha : Bytes → Bytes) (redis : Redis) (s : State redis) (c : Call) (l : Look) where
  -- `AuthClient`, when the service is in a state; registration is given.
  abbrev pub client :
      (RegisterInfo → Bytes → Option AuthReply) → (Bytes → Option RegisterInfo) → Auth
  client register parse = record {
    register = register;
    login = λ account password.
        some
          (login_reply (login sha redis (record c { account = account; password = password }) s).0);
    validate = λ token. some (token_reply (validate_token sha redis l token s.store));
    parse_register = parse;
  }

  -- The password of the account was given, or a token that one of the logins that led to the state
  -- gave for the account.
  pub data Trusted (reached : Reach sha redis s) (q : Request) : Type 0 where
    by_password :
        (u : User)
        → Verified sha redis (record c { account = q.account; password = q.payload }) s u
        → Trusted reached q
    by_token :
        (u : User)
        → Issued sha redis reached l.got q.token u
        → u.account ≡ q.account
        → Trusted reached q

  succeeded :
      (reached : Reach sha redis s) (q : Request)
      → (login_reply
          (login sha redis (record c { account = q.account; password = q.payload }) s).0).success
        ≡ true
      → Trusted reached q
  succeeded reached q h =
      told (login-Logged sha redis (record c { account = q.account; password = q.payload }) s)
    where
      told :
          Logged sha redis
            (record c { account = q.account; password = q.payload })
            s
            (login sha redis (record c { account = q.account; password = q.payload }) s)
          → Trusted reached q
      told (refused e p _ _) = cc (rw p at h)
      told (issued u v _ _ _) = by_password u v

  module _ (law : Lawful redis) (reached : Reach sha redis s) where
    validated :
        (q : Request) (v : Validation)
        → validate_token sha redis l q.token s.store ≡ v
        → (token_reply v).valid ≡ true
        → (token_reply v).account ≡ q.account
        → Trusted reached q
    validated q invalid e h a = cc
    validated q redis_error e h a = cc
    validated q (valid user account expires) e h a =
        let (u, from, _, same) =
          validate_token-Issued sha redis law reached l q.token user account expires e in
        by_token u from (same ∙ a)

    Proven-Trusted :
        (register : RegisterInfo → Bytes → Option AuthReply) (parse : Bytes → Option RegisterInfo)
        (q : Request)
        → Proven (client register parse) q
        → Trusted reached q
    Proven-Trusted register parse q (by_login a _ e t) =
        succeeded reached q (ap (λ (o : Option AuthReply). success_of o) e ∙ t)
      where
        success_of : Option AuthReply → Bool
        success_of none = false
        success_of (some x) = x.success
    Proven-Trusted register parse q (by_valid a _ e t n) =
        let same : token_reply (validate_token sha redis l q.token s.store) ≡ a =
          Option.some-injective _ a e in
        validated q (validate_token sha redis l q.token s.store) refl
          (ap (λ (x : TokenReply). x.valid) same ∙ t) (ap (λ (x : TokenReply). x.account) same ∙ n)

    -- After the first frame of a new connection, against a service that logins, and changes of the
    -- tables, led to: either the session has no account and the registered sessions are as before,
    -- or it is registered for the account that the frame names, and the frame has the password of
    -- that account's user, or a token that one of those logins, to that account, gave in the last
    -- seven days.
    pub start-Trusted :
        (register : RegisterInfo → Bytes → Option AuthReply) (parse : Bytes → Option RegisterInfo)
        (r : Redis) (m : Moment) (w : World r) (q : Request)
        → w.session.account ≡ 0
        → w.session.disconnected ≡ false
        → Outside r (client register parse) w (start r (client register parse) m (some q) w)
          ⊎ ((start r (client register parse) m (some q) w).manager
              ≡ register_session q.account w.session.id w.manager)
            × ((start r (client register parse) m (some q) w).session.account ≡ q.account)
            × Trusted reached q
    start-Trusted register parse r m w q new fresh =
        told (start-Entered r (client register parse) m w new (some q) fresh)
      where
        told :
            Entered r
              (client register parse)
              w
              (some q)
              (start r (client register parse) m (some q) w)
            → Outside r (client register parse) w (start r (client register parse) m (some q) w)
              ⊎ ((start r (client register parse) m (some q) w).manager
                  ≡ register_session q.account w.session.id w.manager)
                × ((start r (client register parse) m (some q) w).session.account ≡ q.account)
                × Trusted reached q
        told (outside o) = inl o
        told (inside p e a) =
            let b =
              subst
                (Admitted r (client register parse) w
                  (start r (client register parse) m (some q) w))
                (sym (Option.some-injective q p e)) a in
            inr (b.registered, b.account, Proven-Trusted register parse q b.proven)
