-- ===== src/Services/Auth/History.antt =====
-- The logins that led to a state of src/services/auth_service/server.cpp, and those that gave tokens.
use mathlib.Core.Option
use ape_server.Services.Redis.{Redis, Lawful}
use ape_server.Register.Data.{User, Db, has_account}
use ape_server.Services.Auth.{token_key, token_ttl_seconds, State, Call, token_value, login}
use ape_server.Prelude.{
  ℕ, ◌+◌, ◌^◌, ◌<◌, ◌≡◌, refl, sym, ap, ◌∙◌, subst, ◌⊎◌, inl, inr, false, some, Bytes, bytes_eq,
  bytes_eq→eq, ok, Bool-cases,
}
use ape_server.Services.Auth.Tokens.{
  IsWide, found-All, token_key-eq, answer_of, Verified, Logged, refused, issued, login-Logged,
}

module _ (sha : Bytes → Bytes) (r : Redis) where
  -- What happens to the tables and to Redis: logins, and anything else that the tables meet.
  pub data Reach : State r → Type 0 where
    begin : (db : Db) → IsWide db → Reach (record { db = db; store = r.empty })
    after : {s : State r} → Reach s → (c : Call) → Reach (login sha r c s).1
    changed : {s : State r} → Reach s → (db : Db) → IsWide db → Reach (record s { db = db })

  pub Reach-IsWide : {s : State r} → Reach s → IsWide s.db
  Reach-IsWide (begin db w) = w
  Reach-IsWide (after {s} reached c) = kept (Reach-IsWide reached) (login-Logged sha r c s)
    where
      kept : IsWide s.db → Logged sha r c s (login sha r c s) → IsWide (login sha r c s).1.db
      kept before (refused e p q w) = w before
      kept before (issued u v p q w) = w before
  Reach-IsWide (changed reached db w) = w

  -- One of the logins that led to the state is this call, made in that state, and no later one of
  -- them succeeded with its token.
  unfoldable pub Made : Call → State r → {s : State r} → Reach s → Type 0
  Made c before (begin db w) = ⊥
  Made c before (after {s} reached d) =
      ((s ≡ before) × (d ≡ c))
      ⊎ (Made c before reached
          × ((bytes_eq d.token c.token ≡ false) ⊎ ((login sha r d s).1.store ≡ s.store)))
  Made c before (changed reached db w) = Made c before reached

  -- The login that a value in Redis is of, among those that led to the state.
  pub record Issued {s : State r} (reached : Reach s) (at : ℕ) (token : Bytes) (person : User)
      : Type 0 where
    pub call : Call
    pub before : State r
    pub made : Made call before reached
    pub verified : Verified sha r call before person
    pub wide : (person.id < 2 ^ 64) × (person.account < 2 ^ 64)
    pub answered : (login sha r call before).0 ≡ ok (answer_of call person)
    pub named : call.token ≡ token
    pub recent : at < call.stored + token_ttl_seconds

  -- What follows a login keeps it in the history.
  changed-Issued :
      {s : State r} (reached : Reach s) (db : Db) (w : IsWide db) (at : ℕ) (token : Bytes)
      (u : User)
      → Issued reached at token u
      → Issued (changed reached db w) at token u
  unfolding Made
  changed-Issued reached db w at token u i = record {
    call = i.call;
    before = i.before;
    made = i.made;
    verified = i.verified;
    wide = i.wide;
    answered = i.answered;
    named = i.named;
    recent = i.recent;
  }

  after-Issued :
      {s : State r} (reached : Reach s) (c : Call) (at : ℕ) (token : Bytes) (u : User)
      → (bytes_eq c.token token ≡ false) ⊎ ((login sha r c s).1.store ≡ s.store)
      → Issued reached at token u
      → Issued (after reached c) at token u
  unfolding Made
  after-Issued {s} reached c at token u apart i = record {
    call = i.call;
    before = i.before;
    made = inr (
      i.made,
      subst (λ t. (bytes_eq c.token t ≡ false) ⊎ ((login sha r c s).1.store ≡ s.store))
          (sym i.named) apart,
    );
    verified = i.verified;
    wide = i.wide;
    answered = i.answered;
    named = i.named;
    recent = i.recent;
  }

  new-Issued :
      {s : State r} (reached : Reach s) (c : Call) (at : ℕ) (token : Bytes) (u : User)
      → Verified sha r c s u
      → (login sha r c s).0 ≡ ok (answer_of c u)
      → c.token ≡ token
      → at < c.stored + token_ttl_seconds
      → Issued (after reached c) at token u
  unfolding Made
  new-Issued {s} reached c at token u v p same fresh = record {
    call = c;
    before = s;
    made = inl (refl, refl);
    verified = v;
    wide =
        (found-All (λ (x : User). (x.id < 2 ^ 64) × (x.account < 2 ^ 64)) (has_account c.account)
          s.db.users u (Reach-IsWide reached) v.found).0;
    answered = p;
    named = same;
    recent = fresh;
  }

  module _ (law : Lawful r) where
    -- A value that Redis has under a token is of one of the logins that led to the state.
    pub stored-Issued :
        {s : State r} (at : ℕ) (token value : Bytes) (reached : Reach s)
        → r.get at (token_key token) s.store ≡ some value
        → (u : User) × Issued reached at token u × (value ≡ token_value u)
    stored-Issued at token value (begin db w) e =
        absurd (Option.none-ne-some value (sym (law.get-empty at (token_key token)) ∙ e))
    stored-Issued at token value (changed reached db w) e =
        let (u, i, is) = stored-Issued at token value reached e in
        (u, changed-Issued reached db w at token u i, is)
    stored-Issued at token value (after {s} reached c) e =
        told (stored-Issued at token value reached) (login-Logged sha r c s)
      where
        told :
            (r.get at (token_key token) s.store ≡ some value
              → (u : User) × Issued reached at token u × (value ≡ token_value u))
            → Logged sha r c s (login sha r c s)
            → (u : User) × Issued (after reached c) at token u × (value ≡ token_value u)
        told earlier (refused x p q w) =
            let (u, i, is) = earlier (sym (ap (r.get at (token_key token)) q) ∙ e) in
            (u, after-Issued reached c at token u (inr q) i, is)
        told earlier (issued u v p q w) = elim (Bool-cases (bytes_eq c.token token)) [
          | inr n ↦
              let (u', i, is) = earlier (
                sym (
                  ap (r.get at (token_key token)) q
                  ∙ law.get_other c.stored at token_ttl_seconds (token_key c.token) (token_value u)
                      (token_key token) s.store (token_key-eq c.token token ∙ n))
                ∙ e) in
              (u', after-Issued reached c at token u' (inl n) i, is)
          | inl n ↦
              let same : c.token ≡ token = bytes_eq→eq c.token token n in
              let (is, fresh) =
                law.get_only c.stored at token_ttl_seconds (token_key c.token) (token_value u) value
                  s.store
                  (sym (ap (r.get at (token_key c.token)) q)
                    ∙ ap (λ t. r.get at (token_key t) (login sha r c s).1.store) same
                    ∙ e) in
              (u, new-Issued reached c at token u v p same fresh, is)
        ]
