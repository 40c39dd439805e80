-- ===== src/Register/Claims.antt =====
-- What a transaction of `once` has found when it comes to an outcome.
use ape_server.Prelude.{
  ℕ, ◌≡◌, refl, sym, ap, inl, inr, Bool, true, false, not, ◌&&◌, ◌||◌, Option, none, some, Bytes,
  ◌==◌, find, count, leb, any, ◌⊎◌, Result, ok, guard, >>=-eq-ok, guard-eq-ok, ok-injective,
}
use ape_server.Register.Data.{
  PoolRow, RequestRow, Db, Input, schema_error, Failure, thrown, Weather, statement, min_account,
  max_account, has_account, has_phone, is_request, result_of,
}
use ape_server.Register.Once.{
  or_fail, is_free, is_free_row, is_given, Outcome, replayed, empty_pool, allocated, verifies,
  with_request, assigned, assign, allocate, body,
}

pub or_fail-eq-ok {ℓ} :
    {A : Type ℓ} (o : Option A) (f : Failure) {a : A} → or_fail o f ≡ ok a → o ≡ some a
or_fail-eq-ok none f h = cc
or_fail-eq-ok (some x) f h = ap some (ok-injective _ _ h)

-- The row that is taken out of the pool, and the checks that it passed.
pub record Claim (w : Weather) (input : Input) (db : Db) (p : PoolRow) : Type 0 where
  pub free : find is_free db.pool ≡ some p
  pub ranged : (not (p.id == 0) && (leb min_account p.account && leb p.account max_account)) ≡ true
  pub unused :
      not (any (has_account p.account) db.users || any (has_phone input.phone) db.users) ≡ true
  pub counted : not (db.next_user == 0) ≡ true
  pub single : (count (is_free_row p.id) db.pool == 1) ≡ true
  pub fresh : not (any (is_given db.next_user p.account) db.requests) ≡ true

assign-Claim :
    (w : Weather) (input : Input) (p : PoolRow) (db : Db) (o : Outcome)
    → find is_free db.pool ≡ some p
    → assign w input p db ≡ ok o
    → Claim w input db p × (o ≡ allocated (db.next_user, p.account) (assigned input p db))
unfolding assign
assign-Claim w input p db o f h =
    let (a, ea, h₁) = >>=-eq-ok (guard _ _) _ h in
    let (b, eb, h₂) = >>=-eq-ok (statement w 5) _ h₁ in
    let (c, ec, h₃) = >>=-eq-ok (guard _ _) _ h₂ in
    let (d, ed, h₄) = >>=-eq-ok (guard _ _) _ h₃ in
    let (e, ee, h₅) = >>=-eq-ok (statement w 6) _ h₄ in
    let (g, eg, h₆) = >>=-eq-ok (guard _ _) _ h₅ in
    let (i, ei, h₇) = >>=-eq-ok (statement w 7) _ h₆ in
    let (j, ej, h₈) = >>=-eq-ok (guard _ _) _ h₇ in
    let (k, ek, h₉) =
      >>=-eq-ok (guard (count (is_request input.request) db.requests == 1) (thrown schema_error))
        (λ _. ok (allocated (db.next_user, p.account) (assigned input p db))) h₈ in
    (
      record {
        free = f;
        ranged = guard-eq-ok _ _ ea;
        unused = guard-eq-ok _ _ ec;
        counted = guard-eq-ok _ _ ed;
        single = guard-eq-ok _ _ eg;
        fresh = guard-eq-ok _ _ ej;
      },
      sym (ok-injective _ _ h₉),
    )

-- A pool without a free account, or a claim.
pub data Came (w : Weather) (input : Input) (db : Db) (o : Outcome) : Type 0 where
  emptied : find is_free db.pool ≡ none → o ≡ empty_pool → Came w input db o
  claimed :
      (p : PoolRow)
      → Claim w input db p
      → o ≡ allocated (db.next_user, p.account) (assigned input p db)
      → Came w input db o

pub allocate-Came :
    (w : Weather) (input : Input) (db : Db) (o : Outcome)
    → allocate w input db ≡ ok o
    → Came w input db o × (any (has_phone input.phone) db.users ≡ false)
unfolding allocate
allocate-Came w input db o h =
    let (a, ea, h₁) = >>=-eq-ok (statement w 3) _ h in
    let (b, eb, h₂) = >>=-eq-ok (guard _ _) _ h₁ in
    let (c, ec, h₃) = >>=-eq-ok (statement w 4) _ h₂ in
    (
      came (find is_free db.pool) refl h₃,
      unlisted (any (has_phone input.phone) db.users) (guard-eq-ok _ _ eb),
    )
  where
    unlisted : (b : Bool) → not b ≡ true → b ≡ false
    unlisted false e = refl
    unlisted true e = cc

    came :
        (f : Option PoolRow)
        → find is_free db.pool ≡ f
        → ◌≡◌ {A = Result Failure Outcome}
            (elim f [ none ↦ ok empty_pool | some p ↦ assign w input p db ])
            (ok o)
        → Came w input db o
    came none e q = emptied e (sym (ok-injective _ _ q))
    came (some p) e q = let (claim, same) = assign-Claim w input p db o e q in claimed p claim same

-- The tables with the request's row.
abbrev pub opened : (Bytes → Bytes) → Input → Db → Db
opened sha input db = record db { requests = with_request sha input db.requests }

module _ (sha : Bytes → Bytes) (input : Input) where
  -- What the first statements find, and what follows from the row.
  pub record Opened (w : Weather) (db : Db) (o : Outcome) : Type 0 where
    pub row : RequestRow
    pub there : find (is_request input.request) (with_request sha input db.requests) ≡ some row
    pub verified : verifies sha input row ≡ true
    pub rest :
        ((given : ℕ × ℕ) × (result_of row ≡ some given) × (o ≡ replayed given))
        ⊎ ((result_of row ≡ none) × (allocate w input (opened sha input db) ≡ ok o))

  pub body-Opened :
      (w : Weather) (db : Db) (o : Outcome) → body sha w input db ≡ ok o → Opened w db o
  unfolding body
  body-Opened w db o h =
      let (a, e, h₁) = >>=-eq-ok (statement w 1) _ h in
      let (b, f, h₂) = >>=-eq-ok (statement w 2) _ h₁ in
      let (r, g, h₃) = >>=-eq-ok (or_fail _ _) _ h₂ in
      let (c, i, h₄) = >>=-eq-ok (guard _ _) _ h₃ in
      record {
        row = r;
        there = or_fail-eq-ok _ _ g;
        verified = guard-eq-ok _ _ i;
        rest = next (result_of r) r refl h₄;
      }
    where
      next :
          (g : Option (ℕ × ℕ)) (r : RequestRow)
          → result_of r ≡ g
          → ◌≡◌ {A = Result Failure Outcome}
              (elim g [
                | some given ↦ ok (replayed given)
                | none ↦ allocate w input (opened sha input db)
              ])
              (ok o)
          → ((given : ℕ × ℕ) × (result_of r ≡ some given) × (o ≡ replayed given))
            ⊎ ((result_of r ≡ none) × (allocate w input (opened sha input db) ≡ ok o))
      next none r e q = inr (e, q)
      next (some given) r e q = inl (given, e, sym (ok-injective _ _ q))
