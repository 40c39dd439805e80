-- ===== src/Register/Extends.antt =====
-- The accounts that `refill` adds.
use ape_server.Prelude.{
  ℕ, zero, suc, ◌+◌, ◌-◌, max, ◌≤◌, ◌<◌, ◌≡◌, refl, sym, ◌∙◌, subst, inl, inr, Bool, true, false,
  not, ◌&&◌, ◌||◌, Option, none, some, List, [], ◌∷◌, ◌++◌, Bool-cases, Option-cases, ltb, ltb→lt,
  leb, >>=-eq-ok, guard-eq-ok, guard, ◌>>=◌, ◌>>◌, ◌==◌, if◌then◌else◌, arith, All, All-append,
  All-mono, count, any, count-append, zero→All, Result, ok, subst,
}
use mathlib.Core.Option
use ape_server.Register.Data.{
  User, PoolRow, Db, Failure, Weather, min_account, max_account, has_account, is_pooled,
}
use ape_server.Register.Once.{is_free}
use ape_server.Register.Claims.{or_fail-eq-ok}
use ape_server.Register.Data.{
  low_water_mark, thrown, schema_error, pool_inconsistent, account_range_exhausted, statement,
}
use ape_server.Register.Once.{or_fail}
use ape_server.Register.Refill.{
  Shuffle, range_from, generate_shuffled_batch, max_of, max_user, max_pooled, greater, add_accounts,
  Refilled, sufficient, extended, batch_of, extend, refill_body,
}
use ape_server.Register.Keeps.{IsConsistent, IsRanged}

-- What bounds the largest bounds each.
max_of-All :
    {R : Type 0} (key : R → ℕ) (xs : List R) (bound : ℕ)
    → ((m : ℕ) → max_of key xs ≡ some m → m ≤ bound)
    → All (λ x. key x ≤ bound) xs
unfolding max_of
max_of-All key [] bound h = tt
max_of-All key (x ∷ xs) bound h = elim (Option-cases (max_of key xs)) [
  | inl e ↦ (
    h (key x) (rw e refl),
    max_of-All key xs bound (λ m f. absurd (Option.none-ne-some m (sym e ∙ f))),
  )
  | inr (n, e) ↦
      let most : max (key x) n ≤ bound = h (max (key x) n) (rw e refl) in
      (
        omega (arith, most),
        max_of-All key xs bound (λ m f. omega (arith, most, Option.some-injective n m (sym e ∙ f))),
      )
]

count-add :
    (a id : ℕ) (xs : List ℕ) → count (is_pooled a) (add_accounts id xs) ≡ count (λ x. x == a) xs
unfolding add_accounts count
count-add a id [] = refl
count-add a id (x ∷ xs) = ground (arith, count-add a (id + 1) xs)

range_within : (a start n : ℕ) → a < start → count (λ x. x == a) (range_from start n) ≡ 0
unfolding range_from count
range_within a start zero h = refl
range_within a start (suc n) h = ground (arith, range_within a (start + 1) n)

range_once : (a start n : ℕ) → count (λ x. x == a) (range_from start n) ≤ 1
unfolding range_from count
range_once a start zero = omega arith
range_once a start (suc n) =
    ground (arith, range_once a (start + 1) n, range_within a (start + 1) n)

-- Outside of the range asked for.
abbrev is_out : ℕ → ℕ → ℕ → Bool
is_out low high x = not (leb low x && ltb x high)

range_inside :
    (low high start n : ℕ)
    → low ≤ start
    → start + n ≤ high
    → count (is_out low high) (range_from start n) ≡ 0
unfolding range_from count
range_inside low high start zero h k = refl
range_inside low high start (suc n) h k = ground (arith, range_inside low high (start + 1) n)

-- The rows of accounts that lie in a range.
add-All :
    (P : PoolRow → Type 0) (low high id : ℕ) (xs : List ℕ)
    → ((i x : ℕ) → low ≤ x → x < high → P (record { id = i; account = x; taken = false }))
    → All (λ x. is_out low high x ≡ false) xs
    → All P (add_accounts id xs)
unfolding add_accounts
add-All P low high id [] h a = tt
add-All P low high id (x ∷ xs) h a =
    (h id x (ground (arith, a.0)) (ground (arith, a.0)), add-All P low high (id + 1) xs h a.1)

-- Nobody has an account above the largest.
above_all :
    (us : List User) (start x : ℕ)
    → All (λ (u : User). u.account < start) us
    → start ≤ x
    → any (has_account x) us ≡ false
unfolding any
above_all [] start x a h = refl
above_all (u ∷ us) start x a h = ground (arith, a.0, above_all us start x a.1 h)

pooled_below :
    (ps : List PoolRow) (start x : ℕ)
    → All (λ (p : PoolRow). p.account < start) ps
    → start ≤ x
    → count (is_pooled x) ps ≡ 0
unfolding count
pooled_below [] start x a h = refl
pooled_below (p ∷ ps) start x a h = ground (arith, a.0, pooled_below ps start x a.1 h)

module _ (s : Shuffle) (db : Db) (start end : ℕ) where
  pub extend-IsConsistent :
      IsConsistent db
      → All (λ (u : User). u.account < start) db.users
      → All (λ (p : PoolRow). p.account < start) db.pool
      → min_account ≤ start
      → start ≤ end
      → end ≤ max_account + 1
      → IsConsistent (extend s start end db)
  unfolding generate_shuffled_batch
  extend-IsConsistent k us ps low order high = record {
    accounts = k.accounts;
    phones = k.phones;
    pooled = once;
    unused = All-append _ db.pool (add_accounts db.next_pool batch) k.unused (
        add-All _ start end db.next_pool batch (λ i x l h t. above_all db.users start x us l)
          inside);
    ranged = All-append IsRanged db.pool (add_accounts db.next_pool batch) k.ranged (
        add-All IsRanged start end db.next_pool batch (λ i x l h. (omega arith, omega arith))
          inside);
    completed = k.completed;
  }
    where
      batch : List ℕ
      batch = s.shuffle (range_from start (end - start))

      inside : All (λ x. is_out start end x ≡ false) batch
      inside = zero→All (is_out start end) batch (
          s.keeps (is_out start end) (range_from start (end - start))
          ∙ range_inside start end start (end - start) (omega arith) (omega arith))

      once : (a : ℕ) → count (is_pooled a) (db.pool ++ add_accounts db.next_pool batch) ≤ 1
      once a = elim (Bool-cases (ltb a start)) [
        | inl e ↦ omega (
          arith,
          k.pooled a,
          count-append (is_pooled a) db.pool (add_accounts db.next_pool batch),
          count-add a db.next_pool batch,
          s.keeps (λ x. x == a) (range_from start (end - start)),
          range_within a start (end - start) (ltb→lt a start e),
        )
        | inr e ↦
            let after : start ≤ a = ground arith in
            omega (
              arith,
              pooled_below db.pool start a ps after,
              count-append (is_pooled a) db.pool (add_accounts db.next_pool batch),
              count-add a db.next_pool batch,
              s.keeps (λ x. x == a) (range_from start (end - start)),
              range_once a start (end - start),
            )
      ]

greater-bounds :
    (a b : Option ℕ) (m : ℕ)
    → greater a b ≡ some m
    → ((n : ℕ) → a ≡ some n → n ≤ m) × ((n : ℕ) → b ≡ some n → n ≤ m)
greater-bounds none none m e = cc
greater-bounds none (some y) m e = (λ n f. cc, λ n f. ground arith)
greater-bounds (some x) none m e = (λ n f. ground arith, λ n f. cc)
greater-bounds (some x) (some y) m e = (λ n f. ground arith, λ n f. ground arith)

ok-extended :
    (a b : Db) → ◌≡◌ {A = Result Failure Refilled} (ok (extended a)) (ok (extended b)) → a ≡ b
ok-extended a b h = cc

above_maximum :
    (s : Shuffle) (batch : ℕ) (db : Db) (start maximum : ℕ)
    → IsConsistent db
    → or_fail (greater (max_user db.users) (max_pooled db.pool)) (thrown schema_error) ≡ ok maximum
    → not (ltb start min_account || leb start maximum) ≡ true
    → leb start max_account ≡ true
    → IsConsistent (extend s start (start + batch_of batch start) db)
above_maximum s batch db start maximum k e h t =
    let least : (min_account ≤ start) × (maximum < start) = ground arith in
    let most : start ≤ max_account = ground arith in
    let bounds =
      greater-bounds (max_user db.users) (max_pooled db.pool) maximum (
        or_fail-eq-ok (greater (max_user db.users) (max_pooled db.pool)) (thrown schema_error) e) in
    extend-IsConsistent s db start (start + batch_of batch start) k
      (All-mono (λ (u : User). u.account ≤ maximum) (λ (u : User). u.account < start) db.users
        (λ u l. omega arith) (max_of-All (λ (u : User). u.account) db.users maximum bounds.0))
      (All-mono (λ (p : PoolRow). p.account ≤ maximum) (λ (p : PoolRow). p.account < start) db.pool
        (λ p l. omega arith) (max_of-All (λ (p : PoolRow). p.account) db.pool maximum bounds.1))
      least.0 (omega arith) (omega arith)

-- A refill that ends with new tables extends them by accounts above all others.
pub refilled-IsConsistent :
    (s : Shuffle) (w : Weather) (batch : ℕ) (db after : Db)
    → IsConsistent db
    → refill_body s w batch db ≡ ok (extended after)
    → IsConsistent after
unfolding refill_body
refilled-IsConsistent s w batch db after k h =
    let (a, ea, h₁) = >>=-eq-ok (statement w 1) _ h in
    let (start, eb, h₂) = >>=-eq-ok (or_fail db.next_start (thrown pool_inconsistent)) _ h₁ in
    let (c, ec, h₃) = >>=-eq-ok (statement w 2) _ h₂ in
    more start (leb low_water_mark (count is_free db.pool)) h₃
  where
    rest : ℕ → Result Failure Refilled
    rest start = do
      statement w 3
      maximum ← or_fail (greater (max_user db.users) (max_pooled db.pool)) (thrown schema_error)
      guard (not (ltb start min_account || leb start maximum)) (thrown pool_inconsistent)
      guard (leb start max_account) (thrown account_range_exhausted)
      statement w 4
      statement w 5
      ok (extended (extend s start (start + batch_of batch start) db))

    more :
        (start : ℕ) (b : Bool)
        → (if b then ok sufficient else rest start) ≡ ok (extended after)
        → IsConsistent after
    more start true q = cc
    more start false q =
        let (d, ed, h₄) = >>=-eq-ok (statement w 3) _ q in
        let (maximum, ee, h₅) =
          >>=-eq-ok
            (or_fail (greater (max_user db.users) (max_pooled db.pool)) (thrown schema_error)) _
            h₄ in
        let (f, ef, h₆) =
          >>=-eq-ok
            (guard (not (ltb start min_account || leb start maximum)) (thrown pool_inconsistent)) _
            h₅ in
        let (g, eg, h₇) =
          >>=-eq-ok (guard (leb start max_account) (thrown account_range_exhausted)) _ h₆ in
        let (i, ei, h₈) = >>=-eq-ok (statement w 4) _ h₇ in
        let (j, ej, h₉) =
          >>=-eq-ok (statement w 5)
            (λ _. ok (extended (extend s start (start + batch_of batch start) db))) h₈ in
        subst IsConsistent (ok-extended (extend s start (start + batch_of batch start) db) after h₉)
          (above_maximum s batch db start maximum k ee (guard-eq-ok _ _ ef) (guard-eq-ok _ _ eg))
