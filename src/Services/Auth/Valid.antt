-- ===== src/Services/Auth/Valid.antt =====
-- What `ValidateToken` of src/services/auth_service/server.cpp answers after logins.
use ape_server.Services.Redis.{Redis, Lawful}
use ape_server.Register.Data.{User, Db, has_account}
use ape_server.Services.Auth.{
  token_key, token_ttl_seconds, State, Call, LoggedIn, token_value, valid, Look, login, validated,
  parsed, validate_token,
}
use ape_server.Services.Auth.Tokens.{
  IsWide, found-All, token_key-eq, answer_of, Logged, refused, issued, login-Logged,
  parsed-token_value,
}
use ape_server.Services.Auth.History.{Reach, Issued, stored-Issued}
use ape_server.Prelude.{
  ℕ, ◌+◌, ◌-◌, ◌^◌, ◌≤◌, ◌<◌, ◌≡◌, refl, sym, ap, ◌∙◌, inl, inr, true, false, ==_iff, Option, some,
  Bytes, bytes_eq, is_empty, ok, ok-injective, err-ne-ok, Bool-cases, Option-cases, arith,
}

valid-users : (u v a b : ℕ) (e f : Option ℕ) → valid u a e ≡ valid v b f → (u ≡ v) × (a ≡ b)
valid-users u v a b e f h = (cc, cc)

module _ (sha : Bytes → Bytes) (r : Redis) where
  validated-users :
      (l : Look) (key : Bytes) (store : r.Store) (u v a b : ℕ) (e : Option ℕ)
      → validated sha r l key store (some u) (some a) ≡ valid v b e
      → (u ≡ v) × (a ≡ b)
  validated-users l key store u v a b e h = elim (Bool-cases l.counts) [
    | inl k ↦ valid-users u v a b _ e (rw k at h)
    | inr k ↦ cc (rw k at h)
  ]

  -- A token that is valid has a value in Redis, which is parsed.
  validate_token-stored :
      (l : Look) (token : Bytes) (store : r.Store) (v b : ℕ) (e : Option ℕ)
      → validate_token sha r l token store ≡ valid v b e
      → (value : Bytes) × (r.get l.got (token_key token) store ≡ some value)
        × (parsed sha r l (token_key token) store value ≡ valid v b e)
  unfolding validate_token
  validate_token-stored l token store v b e h = elim (Bool-cases (is_empty token)) [
    | inl t ↦ cc (rw (validate_token, t) at h)
    | inr t ↦ elim (Bool-cases l.gets) [
      | inr g ↦ cc (rw (validate_token, t, g) at h)
      | inl g ↦ elim (Option-cases (r.get l.got (token_key token) store)) [
        | inl n ↦ cc (rw (validate_token, t, g, n) at h)
        | inr (value, n) ↦ (value, n, rw (validate_token, t, g, n) at h)
      ]
    ]
  ]

  -- Where Redis keeps what it documents: a token that is found valid in a state, for a user and an
  -- account, was given by one of the logins that led to the state, to that account and with the
  -- password of its user, less than seven days before it is looked up, and no later one of those
  -- logins stored that token.
  pub validate_token-Issued :
      {s : State r} (law : Lawful r) (reached : Reach sha r s) (l : Look) (token : Bytes)
      (user account : ℕ) (expires : Option ℕ)
      → validate_token sha r l token s.store ≡ valid user account expires
      → (u : User) × Issued sha r reached l.got token u × (u.id ≡ user) × (u.account ≡ account)
  validate_token-Issued {s} law reached l token user account expires h =
      let (value, stored, read) = validate_token-stored l token s.store user account expires h in
      let (u, from, is) = stored-Issued sha r law l.got token value reached stored in
      let both = validated-users l (token_key token) s.store u.id user u.account account expires (
        sym (parsed-token_value sha r l (token_key token) s.store u from.wide.0 from.wide.1)
        ∙ ap (parsed sha r l (token_key token) s.store) (sym is)
        ∙ read) in
      (u, from, both.0, both.1)

  -- What follows a login: logins with other tokens, and whatever the tables of MySQL meet.
  pub data Later (token : Bytes) (s : State r) : State r → Type 0 where
    now : Later token s s
    then_login :
        {t : State r}
        → Later token s t
        → (c : Call) → bytes_eq c.token token ≡ false
        → Later token s (login sha r c t).1
    then_changed :
        {t : State r} → Later token s t → (db : Db) → Later token s (record t { db = db })

  module _ (law : Lawful r) where
    -- Another login leaves a token's value and its time to live.
    login-keeps :
        (c : Call) (s : State r) (token : Bytes) (at : ℕ)
        → bytes_eq c.token token ≡ false
        → (r.get at (token_key token) (login sha r c s).1.store
            ≡ r.get at (token_key token) s.store)
          × (r.ttl at (token_key token) (login sha r c s).1.store
              ≡ r.ttl at (token_key token) s.store)
    login-keeps c s token at n = kept (login-Logged sha r c s)
      where
        other : bytes_eq (token_key c.token) (token_key token) ≡ false
        other = token_key-eq c.token token ∙ n

        kept :
            Logged sha r c s (login sha r c s)
            → (r.get at (token_key token) (login sha r c s).1.store
                ≡ r.get at (token_key token) s.store)
              × (r.ttl at (token_key token) (login sha r c s).1.store
                  ≡ r.ttl at (token_key token) s.store)
        kept (refused x p q w) =
            (ap (r.get at (token_key token)) q, ap (r.ttl at (token_key token)) q)
        kept (issued u v p q w) = (
          ap (r.get at (token_key token)) q
              ∙ law.get_other c.stored at token_ttl_seconds (token_key c.token) (token_value u)
                  (token_key token) s.store other,
          ap (r.ttl at (token_key token)) q
              ∙ law.ttl_other c.stored at token_ttl_seconds (token_key c.token) (token_value u)
                  (token_key token) s.store other,
        )

    Later-keeps :
        {token : Bytes} {s t : State r} (at : ℕ)
        → Later token s t
        → (r.get at (token_key token) t.store ≡ r.get at (token_key token) s.store)
          × (r.ttl at (token_key token) t.store ≡ r.ttl at (token_key token) s.store)
    Later-keeps at now = (refl, refl)
    Later-keeps {token} at (then_login {t} before c n) =
        let (g, e) = login-keeps c t token at n in
        let (g', e') = Later-keeps at before in (g ∙ g', e ∙ e')
    Later-keeps at (then_changed before db) = Later-keeps at before

    -- A token that a login gave is found valid, for the account of the login and the user of the
    -- answer, at any time within seven days of its storing and whichever logins with other tokens
    -- and changes of the tables follow, if Redis answers; the time that is reported as its end is
    -- then as far off as the end of the seven days.
    pub validate_token-login :
        (c : Call) (s after : State r) (answer : LoggedIn) (l : Look)
        → IsWide s.db
        → (login sha r c s).0 ≡ ok answer
        → Later c.token (login sha r c s).1 after
        → is_empty c.token ≡ false
        → l.gets ≡ true
        → l.counts ≡ true
        → c.stored ≤ l.got
        → l.got ≤ l.counted
        → l.counted < c.stored + token_ttl_seconds
        → validate_token sha r l c.token after.store
          ≡ valid answer.user c.account (some (l.now + (c.stored + token_ttl_seconds - l.counted)))
    unfolding validate_token
    validate_token-login c s after answer l wide h later n g k a b d = read (login-Logged sha r c s)
      where
        ends : ℕ
        ends = l.now + (c.stored + token_ttl_seconds - l.counted)

        found :
            (u : User)
            → (u.id < 2 ^ 64) × (u.account < 2 ^ 64)
            → r.get l.got (token_key c.token) after.store ≡ some (token_value u)
            → r.ttl l.counted (token_key c.token) after.store
              ≡ some (c.stored + token_ttl_seconds - l.counted)
            → validate_token sha r l c.token after.store ≡ valid u.id u.account (some ends)
        found u w there left =
            rw
              (
                validate_token,
                n,
                g,
                there,
                parsed-token_value sha r l (token_key c.token) after.store u w.0 w.1,
                k,
                left,
              )
              refl

        read :
            Logged sha r c s (login sha r c s)
            → validate_token sha r l c.token after.store ≡ valid answer.user c.account (some ends)
        read (refused x p q w) = absurd (err-ne-ok x answer (sym p ∙ h))
        read (issued u v p q w) =
            let (bound, named) =
              found-All (λ (x : User). (x.id < 2 ^ 64) × (x.account < 2 ^ 64))
                (has_account c.account) s.db.users u wide v.found in
            let same : u.account ≡ c.account = (==_iff u.account c.account).0 named in
            let told : answer_of c u ≡ answer = ok-injective (answer_of c u) answer (sym p ∙ h) in
            found u bound
              ((Later-keeps l.got later).0
                ∙ ap (r.get l.got (token_key c.token)) q
                ∙ law.get-setex c.stored l.got token_ttl_seconds (token_key c.token) (token_value u)
                    s.store a (omega arith))
              ((Later-keeps l.counted later).1
                ∙ ap (r.ttl l.counted (token_key c.token)) q
                ∙ law.ttl-setex c.stored l.counted token_ttl_seconds (token_key c.token)
                    (token_value u) s.store (omega arith) d)
            ∙ ap (λ (x : LoggedIn). valid x.user u.account (some ends)) told
            ∙ ap (λ x. valid answer.user x (some ends)) same
