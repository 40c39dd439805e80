-- ===== src/Register/Given.antt =====
-- The user that `create` of src/storage/mysqlhandler.cpp leads to, through its refill.
use ape_server.Register.Data.{
  Db, Input, Code, Failure, thrown, Weather, statement, refill_batch, is_request, low_water_mark,
  min_account, max_account, schema_error, pool_inconsistent, account_range_exhausted,
}
use ape_server.Register.Once.{once, or_fail, is_transient, is_free}
use ape_server.Register.Refill
use ape_server.Register.Refill.{
  Shuffle, Refilled, sufficient, extended, refill_body, refill_attempt, refill_from, refill, create,
  conclude, done, End, greater, max_user, max_pooled, refill_settle, extend, batch_of, answer_twice,
  then_once, then_refill,
}
use ape_server.Register.Joined.{Done, Kept, fresh, Kept-same, Once, once_from-Once}
use ape_server.Prelude.{
  if-any, ℕ, zero, suc, ◌+◌, ◌≡◌, refl, subst, false, not, ◌&&◌, ◌||◌, Option, none, some, Bytes,
  ltb, leb, ◌==◌, any, Result, ok, err, Ensures, Ensures-bind, Ensures-if, Ensures-guard, guard,
  count, ◌>>=◌, ◌>>◌,
}

-- A refill that ends changes neither the users nor the requests.
abbrev Untouched : Db → Refilled → Type 0
Untouched db sufficient = Unit
Untouched db (extended after) = (after.users ≡ db.users) × (after.requests ≡ db.requests)

module _ (s : Shuffle) (w : Weather) (batch : ℕ) (db : Db) where
  -- What follows when the pool is not full enough.
  abbrev filling : ℕ → Result Failure Refilled
  filling start = do
    statement w 3
    maximum ← or_fail (greater (max_user db.users) (max_pooled db.pool)) (thrown schema_error)
    guard (not (ltb start min_account || leb start maximum)) (thrown pool_inconsistent)
    guard (leb start max_account) (thrown account_range_exhausted)
    statement w 4
    statement w 5
    ok (extended (extend s start (start + batch_of batch start) db))

  filling-Untouched : (start : ℕ) → Ensures (Untouched db) (filling start)
  filling-Untouched start = Ensures-bind (Untouched db) (statement w 3) _ λ _ _.
      Ensures-bind (Untouched db)
        (or_fail (greater (max_user db.users) (max_pooled db.pool)) (thrown schema_error)) _
        λ maximum _.
          Ensures-guard (Untouched db) (not (ltb start min_account || leb start maximum))
            (thrown pool_inconsistent) _
            λ _.
              Ensures-guard (Untouched db) (leb start max_account) (thrown account_range_exhausted)
                _
                λ _. Ensures-bind (Untouched db) (statement w 4) _ λ _ _.
                  Ensures-bind (Untouched db) (statement w 5)
                    (λ _. ok (extended (extend s start (start + batch_of batch start) db)))
                    λ _ _. (refl, refl)

  refill_body-Untouched : Ensures (Untouched db) (refill_body s w batch db)
  unfolding refill_body
  refill_body-Untouched = Ensures-bind (Untouched db) (statement w 1) _ λ _ _.
      Ensures-bind (Untouched db) (or_fail db.next_start (thrown pool_inconsistent)) _ λ start _.
        Ensures-bind (Untouched db) (statement w 2) _ λ _ _.
          Ensures-if (Untouched db) (leb low_water_mark (count is_free db.pool)) (ok sufficient)
            (filling start) (λ _. tt) (λ _. filling-Untouched start)

-- A refill keeps what holds of the users and the requests.
module _ (P : Db → Type 0)
    (same : (a b : Db) → b.users ≡ a.users → b.requests ≡ a.requests → P a → P b) where
  conclude_keeps :
      (w : Weather) (db : Db) (r : Result Failure Refilled)
      → Ensures (Untouched db) r
      → P db
      → P (conclude w db r).1
  conclude_keeps w db (err f) u k = k
  conclude_keeps w db (ok sufficient) u k = if-any (λ (p : End × Db). P p.1) w.rolls_back _ _ k k
  conclude_keeps w db (ok (extended after)) u k =
      let h = same db after u.0 u.1 k in
      if-any (λ (p : End × Db). P p.1) (w.fails_at == 6) _ _ (if-any (P) w.applied _ _ h k) h

  refill_from_keeps :
      (s : Shuffle) (ws : ℕ → Weather) (batch left k : ℕ) (db : Db)
      → P db
      → P (refill_from s ws batch left k db).1
  unfolding refill_from refill_attempt refill_settle
  refill_from_keeps s ws batch zero k db h = h
  refill_from_keeps s ws batch (suc left) k db h =
      settled (refill_attempt s (ws k) batch db).0
        (refill_from s ws batch left (k + 1) (refill_attempt s (ws k) batch db).1)
        (refill_from_keeps s ws batch left (k + 1) (refill_attempt s (ws k) batch db).1 after)
    where
      after : P (refill_attempt s (ws k) batch db).1
      after =
          if-any (λ (p : End × Db). P p.1) (ws k).begins _ _
            (conclude_keeps (ws k) db (refill_body s (ws k) batch db)
              (refill_body-Untouched s (ws k) batch db) h)
            h

      settled :
          (e : End) (again : Result Code (Unit {0}) × Db)
          → P again.1
          → P (refill_settle k (refill_attempt s (ws k) batch db).1 again e).1
      settled done again a = after
      settled (Refill.failed f b c) again a =
          if-any (λ (p : Result Code (Unit {0}) × Db). P p.1) b _ _ after
            (if-any (λ (p : Result Code (Unit {0}) × Db). P p.1) (c && is_transient f) _ _
              (if-any (λ (p : Result Code (Unit {0}) × Db). P p.1) (ltb k 2) _ _ a after) after)

  pub refill_keeps :
      (s : Shuffle) (ws : ℕ → Weather) (batch : ℕ) (db : Db) → P db → P (refill s ws batch db).1
  unfolding refill
  refill_keeps s ws batch db h =
      if-any (λ (p : Result Code (Unit {0}) × Db). P p.1) (batch == 0 || ltb refill_batch batch) _ _
        h (refill_from_keeps s ws batch 3 0 db h)

module _ (sha : Bytes → Bytes) (input : Input) where
  -- What a registration comes to.
  abbrev Came : Result Code (ℕ × ℕ) × Db → Type 0
  Came (ok given, after) = Done sha input given after
  Came (err c, after) = Unit

  answer_twice-Came :
      (p : Result Code (Option (ℕ × ℕ)) × Db) → Once sha input p → Came (answer_twice p)
  answer_twice-Came (err c, db) h = tt
  answer_twice-Came (ok (some given), db) h = h
  answer_twice-Came (ok none, db) h = tt

  then_once-Came :
      (again : Db → Result Code (Option (ℕ × ℕ)) × Db) (p : Result Code (Unit {0}) × Db)
      → ((db : Db) → Kept sha input db → Once sha input (again db))
      → Kept sha input p.1
      → Came (then_once again p)
  then_once-Came again (err c, db) h k = tt
  then_once-Came again (ok u, db) h k = answer_twice-Came (again db) (h db k)

  then_refill-Came :
      (fill : Db → Result Code (Unit {0}) × Db) (again : Db → Result Code (Option (ℕ × ℕ)) × Db)
      (p : Result Code (Option (ℕ × ℕ)) × Db)
      → ((db : Db) → Kept sha input db → Kept sha input (fill db).1)
      → ((db : Db) → Kept sha input db → Once sha input (again db))
      → Once sha input p
      → Came (then_refill fill again p)
  then_refill-Came fill again (err c, db) f h k = tt
  then_refill-Came fill again (ok (some given), db) f h k = k
  then_refill-Came fill again (ok none, db) f h k = then_once-Came again (fill db) h (f db k)

  -- A registration that answers, from tables that have not seen its request, however its statements
  -- fail, leads to a user with the answer's identifier and account and the input's password.
  pub create-Done :
      (s : Shuffle) (ws : ℕ → ℕ → Weather) (db after : Db) (given : ℕ × ℕ)
      → any (is_request input.request) db.requests ≡ false
      → create sha s ws input db ≡ (ok given, after)
      → Done sha input given after
  unfolding create once
  create-Done s ws db after given n e = subst Came e (
      then_refill-Came (refill s (ws 1) refill_batch) (once sha (ws 2) input)
        (once sha (ws 0) input db)
        (refill_keeps (Kept sha input) (Kept-same sha input) s (ws 1) refill_batch)
        (λ d k. once_from-Once sha input (ws 2) 3 0 d k)
        (once_from-Once sha input (ws 0) 3 0 db (fresh n)))
