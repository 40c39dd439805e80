-- ===== src/Services/Auth/Tokens.antt =====
-- The tokens of src/services/auth_service/server.cpp: what `Login` stores and `ValidateToken` reads.
use ape_server.Text.Decimal.{to_string}
use ape_server.Text.Number.{stoull-to_string, split_comma-digits, all_digits-to_string}
use ape_server.Services.Redis.{Redis}
use ape_server.Register.Data.{User, Db, has_account}
use ape_server.Services.Auth.{
  token_key, token_ttl_seconds, hash_password, update_last_login, State, Call, LoginError, LoggedIn,
  token_value, Look, login, validated, parsed,
}
use ape_server.Prelude.{
  ℕ, ◌+◌, ◌^◌, ◌<◌, ◌≡◌, refl, inl, inr, Bool, true, false, ◌||◌, ◌==◌, some, Bytes, List, bytes_eq,
  is_empty, find, All, All-find, find-true, All-update_to, Result, ok, err, Bool-cases,
  Option-cases,
}

-- `userInfo` keeps both in 64 bits.
abbrev pub IsWide : Db → Type 0
IsWide db = All (λ (u : User). (u.id < 2 ^ 64) × (u.account < 2 ^ 64)) db.users

pub found-All {ℓ} :
    (P : User → Type ℓ) (p : User → Bool) (us : List User) (u : User)
    → All P us
    → find p us ≡ some u
    → P u × (p u ≡ true)
found-All P p us u a e = (All-find P p us a e, find-true p us e)

stamped-IsWide :
    (stamps : Bool) (at user : ℕ) (db : Db)
    → IsWide db
    → IsWide (update_last_login stamps at user db)
unfolding update_last_login
stamped-IsWide false at user db w = w
stamped-IsWide true at user db w =
    All-update_to _ _ (λ (u : User). u.id == user) (λ (u : User). record u { last_login = some at })
      db.users (λ u e v. v) (λ u e v. v) w

-- The keys of two tokens are as different as the tokens.
pub token_key-eq : (a b : Bytes) → bytes_eq (token_key a) (token_key b) ≡ bytes_eq a b
unfolding bytes_eq
token_key-eq a b = refl

abbrev pub answer_of : Call → User → LoggedIn
answer_of c u = record {
  token = c.token;
  expires_at = c.started + token_ttl_seconds;
  user = u.id;
  account = u.account;
  nickname = u.nickname;
}

module _ (sha : Bytes → Bytes) (r : Redis) where
  -- The person whose password a login gave.
  pub record Verified (c : Call) (s : State r) (u : User) : Type 0 where
    pub found : find (has_account c.account) s.db.users ≡ some u
    pub matched : bytes_eq (hash_password sha c.password u.password_salt) u.password_hash ≡ true

  pub data Logged (c : Call) (s : State r) (p : Result LoginError LoggedIn × State r) : Type 0 where
    refused :
        (e : LoginError)
        → p.0 ≡ err e
        → p.1.store ≡ s.store
        → (IsWide s.db → IsWide p.1.db)
        → Logged c s p
    issued :
        (u : User)
        → Verified c s u
        → p.0 ≡ ok (answer_of c u)
        → p.1.store ≡ r.setex c.stored (token_key c.token) token_ttl_seconds (token_value u) s.store
        → (IsWide s.db → IsWide p.1.db)
        → Logged c s p

  pub login-Logged : (c : Call) (s : State r) → Logged c s (login sha r c s)
  unfolding login
  login-Logged c s = elim (Bool-cases (c.account == 0 || is_empty c.password)) [
    | inl e ↦ rw (login, e) (refused LoginError.invalid_param refl refl (λ w. w))
    | inr e ↦ elim (Bool-cases c.reads) [
      | inr k ↦ rw (login, e, k) (refused LoginError.user_not_found refl refl (λ w. w))
      | inl k ↦ elim (Option-cases (find (has_account c.account) s.db.users)) [
        | inl f ↦ rw (login, e, k, f) (refused LoginError.user_not_found refl refl (λ w. w))
        | inr (u, f) ↦
            elim (Bool-cases
              (bytes_eq (hash_password sha c.password u.password_salt) u.password_hash)) [
                | inr m ↦
                    rw (login, e, k, f, m) (refused LoginError.wrong_password refl refl (λ w. w))
                | inl m ↦ elim (Bool-cases c.stores) [
                  | inr t ↦
                      rw (login, e, k, f, m, t)
                        (refused LoginError.internal_error refl refl
                          (stamped-IsWide c.stamps c.noted u.id s.db))
                  | inl t ↦
                      rw (login, e, k, f, m, t)
                        (issued u (record { found = f; matched = m }) refl refl
                          (stamped-IsWide c.stamps c.noted u.id s.db))
                ]
              ]
      ]
    ]
  ]

  -- The value of a token gives both numbers back.
  pub parsed-token_value :
      (l : Look) (key : Bytes) (store : r.Store) (u : User)
      → u.id < 2 ^ 64
      → u.account < 2 ^ 64
      → parsed sha r l key store (token_value u)
        ≡ validated sha r l key store (some u.id) (some u.account)
  parsed-token_value l key store u i a =
      rw
        (
          parsed,
          split_comma-digits (to_string u.id) (to_string u.account) (all_digits-to_string u.id),
          stoull-to_string u.id i,
          stoull-to_string u.account a,
        )
        refl
