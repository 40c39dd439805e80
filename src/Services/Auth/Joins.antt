-- ===== src/Services/Auth/Joins.antt =====
-- `Register` and then `Login` of src/services/auth_service/server.cpp.
use ape_server.Services.Redis.{Redis}
use ape_server.Register.Data.{Db, Code, Weather, has_account, is_request}
use ape_server.Register.Refill.{Shuffle, create}
use ape_server.Register.Given.{create-Done}
use ape_server.Services.Auth.{
  hash_password, Call, LoggedIn, login, Registration, is_valid, registration_input, RegisterError,
  register_reply, register,
}
use ape_server.Services.Auth.Tokens.{answer_of}
use ape_server.Prelude.{
  ℕ, ◌≡◌, refl, ap, ◌∙◌, inl, inr, true, false, ◌||◌, ◌==◌, ==_iff, Bytes, bytes_eq, bytes_eq_refl,
  is_empty, find, find-true, any, some, Result, ok, err, Bool-cases, arith,
}

module _ (sha : Bytes → Bytes) (s : Shuffle) (ws : ℕ → ℕ → Weather) (salt : Bytes)
    (q : Registration) where
  filled : is_valid q ≡ true → is_empty q.password ≡ false
  unfolding is_valid
  filled h = ground arith

  -- A registration that succeeds is one of `create`.
  register-create :
      (db after : Db) (given : ℕ × ℕ)
      → register sha s ws salt q db ≡ (ok given, after)
      → (is_valid q ≡ true)
        × (create sha s ws (registration_input sha salt q) db ≡ (ok given, after))
  unfolding register
  register-create db after given h = elim (Bool-cases (is_valid q)) [
    | inr v ↦ absurd (refused (rw (register, v) at h))
    | inl v ↦ (v, told (create sha s ws (registration_input sha salt q) db) (rw (register, v) at h))
  ]
    where
      refused :
          ◌≡◌ {A = Result RegisterError (ℕ × ℕ) × Db}
            (err RegisterError.invalid_info, db)
            (ok given, after)
          → ⊥
      refused e = cc

      told :
          (p : Result Code (ℕ × ℕ) × Db)
          → ◌≡◌ {A = Result RegisterError (ℕ × ℕ) × Db} (register_reply p.0, p.1) (ok given, after)
          → p ≡ (ok given, after)
      told (ok g, d) e = cc
      told (err c, d) e = cc

  -- Whoever registered, from tables that had not seen the request and however the statements of the
  -- registration failed, logs in with the account that was answered and the password of the request,
  -- if MySQL finds the user and Redis stores the token, and is the user that was answered.
  pub login-register :
      (r : Redis) (db after : Db) (given : ℕ × ℕ) (c : Call) (store : r.Store)
      → any (is_request q.request) db.requests ≡ false
      → register sha s ws salt q db ≡ (ok given, after)
      → c.account ≡ given.1
      → c.password ≡ q.password
      → c.reads ≡ true
      → c.stores ≡ true
      → (answer : LoggedIn) × ((login sha r c (record { db = after; store = store })).0 ≡ ok answer)
        × (answer.user ≡ given.0)
        × (answer.account ≡ given.1)
  unfolding login registration_input
  login-register r db after given c store new h a p k t =
      let (valid, created) = register-create db after given h in
      let d = create-Done sha (registration_input sha salt q) s ws db after given new created in
      let asked : (c.account == 0 || is_empty c.password) ≡ false =
        rw (a, p, d.real) (filled valid) in
      let there : find (has_account c.account) after.users ≡ some d.user =
        ap (λ x. find (has_account x) after.users) a ∙ d.found in
      let matched : bytes_eq (hash_password sha c.password d.user.password_salt)
            d.user.password_hash
          ≡ true =
        rw (p, d.salt, d.hash) (bytes_eq_refl (hash_password sha q.password salt)) in
      (
        answer_of c d.user,
        rw (login, asked, k, there, matched, t) refl,
        d.is,
        (==_iff d.user.account given.1).0 (find-true (has_account given.1) after.users d.found),
      )
