-- ===== src/Register/Refill.antt =====
-- `refill`, which adds a range of accounts to the pool, and `create`, which refills an empty pool
-- once. The shuffle of std::shuffle is given.
use ape_server.Prelude.{
  ℕ, zero, suc, ◌+◌, ◌-◌, ◌≡◌, Bool, true, false, not, ◌&&◌, ◌||◌, Option, none, some, List, [],
  ◌∷◌, ◌++◌, Bytes, min, max, ltb, leb, ◌==◌, if◌then◌else◌, count, Result, ok, err, ◌>>=◌, ◌>>◌,
  guard,
}
use ape_server.Register.Data.{
  User, PoolRow, Db, Input, Code, schema_error, pool_inconsistent, db_error, registration_busy,
  refill_invalid_param, refill_uncertain, account_range_exhausted, account_pool_unavailable,
  mysql_error, Failure, thrown, Weather, statement, min_account, max_account, low_water_mark,
  refill_batch,
}
use ape_server.Register.Once.{or_fail, is_free, is_transient, once}

-- A shuffle keeps how often each account stands in the list.
pub record Shuffle : Type 0 where
  pub shuffle : List ℕ → List ℕ
  pub keeps : (p : ℕ → Bool) (xs : List ℕ) → count p (shuffle xs) ≡ count p xs

-- start, start + 1, …, as many as are asked for
unfoldable pub range_from : ℕ → ℕ → List ℕ
range_from start zero = []
range_from start (suc n) = start ∷ range_from (start + 1) n

unfoldable pub generate_shuffled_batch : Shuffle → ℕ → ℕ → List ℕ
unfolding range_from
generate_shuffled_batch s start end = s.shuffle (range_from start (end - start))

-- SELECT MAX(account), which is NULL of no rows
unfoldable pub max_of : {R : Type 0} → (R → ℕ) → List R → Option ℕ
max_of key [] = none
max_of key (x ∷ xs) = some (elim (max_of key xs) [ none ↦ key x | some m ↦ max (key x) m ])

abbrev pub max_user : List User → Option ℕ
max_user = max_of (λ u. u.account)

abbrev pub max_pooled : List PoolRow → Option ℕ
max_pooled = max_of (λ p. p.account)

abbrev pub greater : Option ℕ → Option ℕ → Option ℕ
greater none b = b
greater (some a) none = some a
greater (some a) (some b) = some (max a b)

-- INSERT INTO account_pool(account,status) VALUES …, in blocks of a thousand
unfoldable pub add_accounts : ℕ → List ℕ → List PoolRow
add_accounts id [] = []
add_accounts id (a ∷ as') =
    record { id = id; account = a; taken = false } ∷ add_accounts (id + 1) as'

unfoldable pub size : List ℕ → ℕ
size [] = 0
size (a ∷ as') = suc (size as')

-- There are enough, or the tables with more.
pub data Refilled : Type 0 where
  sufficient : Refilled
  extended : Db → Refilled

abbrev pub batch_of : ℕ → ℕ → ℕ
batch_of size start = min size (max_account - start + 1)

abbrev pub extend : Shuffle → ℕ → ℕ → Db → Db
extend s start end db =
    let accounts = generate_shuffled_batch s start end in
    record db {
      pool = db.pool ++ add_accounts db.next_pool accounts;
      next_pool = db.next_pool + size accounts;
      next_start = some end;
    }

-- Statements 1 to 5.
unfoldable pub refill_body : Shuffle → Weather → ℕ → Db → Result Failure Refilled
refill_body s w batch db = do
  statement w 1
  start ← or_fail db.next_start (thrown pool_inconsistent)
  statement w 2
  if leb low_water_mark (count is_free db.pool) then ok sufficient else do
    statement w 3
    maximum ← or_fail (greater (max_user db.users) (max_pooled db.pool)) (thrown schema_error)
    guard (not (ltb start min_account || leb start maximum)) (thrown pool_inconsistent)
    guard (leb start max_account) (thrown account_range_exhausted)
    statement w 4
    statement w 5
    ok (extended (extend s start (start + batch_of batch start) db))

-- How a transaction of `refill` ends: it is done, or as in `once`.
pub data End : Type 0 where
  done : End
  failed : Failure → Bool → Bool → End

-- COMMIT is statement 6.
abbrev pub conclude : Weather → Db → Result Failure Refilled → End × Db
conclude w db (err f) = (failed f false w.rolls_back, db)
conclude w db (ok sufficient) =
    if w.rolls_back then (done, db) else (failed (thrown db_error) false false, db)
conclude w db (ok (extended after)) =
    if w.fails_at == 6
    then (failed w.failure true w.rolls_back, if w.applied then after else db)
    else (done, after)

unfoldable pub refill_attempt : Shuffle → Weather → ℕ → Db → End × Db
refill_attempt s w batch db =
    if w.begins
    then conclude w db (refill_body s w batch db)
    else (failed Failure.broken false false, db)

abbrev pub code_of : Failure → Code
code_of Failure.transient = mysql_error
code_of Failure.duplicate = mysql_error
code_of Failure.broken = mysql_error
code_of (thrown c) = c

-- What follows the end of attempt `k`, of three that are counted from 0.
unfoldable pub refill_settle :
    ℕ → Db → Result Code (Unit {0}) × Db → End → Result Code (Unit {0}) × Db
refill_settle k after again done = (ok tt, after)
refill_settle k after again (failed f committing rolled_back) =
    if committing
    then (err refill_uncertain, after)
    else if rolled_back && is_transient f
    then if ltb k 2 then again else (err registration_busy, after)
    else (err (code_of f), after)

unfoldable pub refill_from : Shuffle → (ℕ → Weather) → ℕ → ℕ → ℕ → Db → Result Code (Unit {0}) × Db
refill_from s ws batch zero k db = (ok tt, db)
refill_from s ws batch (suc left) k db =
    let (e, after) = refill_attempt s (ws k) batch db in
    let again = refill_from s ws batch left (k + 1) after in refill_settle k after again e

unfoldable pub refill : Shuffle → (ℕ → Weather) → ℕ → Db → Result Code (Unit {0}) × Db
refill s ws batch db =
    if batch == 0 || ltb refill_batch batch
    then (err refill_invalid_param, db)
    else refill_from s ws batch 3 0 db

-- What follows the first `once`: a refill and a second `once`, if the pool was empty.
abbrev pub answer_twice : Result Code (Option (ℕ × ℕ)) × Db → Result Code (ℕ × ℕ) × Db
answer_twice (err c, db) = (err c, db)
answer_twice (ok (some given), db) = (ok given, db)
answer_twice (ok none, db) = (err account_pool_unavailable, db)

abbrev pub then_once :
    (Db → Result Code (Option (ℕ × ℕ)) × Db)
    → Result Code (Unit {0}) × Db
    → Result Code (ℕ × ℕ) × Db
then_once again (err c, db) = (err c, db)
then_once again (ok u, db) = answer_twice (again db)

abbrev pub then_refill :
    (Db → Result Code (Unit {0}) × Db)
    → (Db → Result Code (Option (ℕ × ℕ)) × Db)
    → Result Code (Option (ℕ × ℕ)) × Db
    → Result Code (ℕ × ℕ) × Db
then_refill fill again (err c, db) = (err c, db)
then_refill fill again (ok (some given), db) = (ok given, db)
then_refill fill again (ok none, db) = then_once again (fill db)

-- A first `once`, a refill and a second `once`, each with its weather.
unfoldable pub create :
    (Bytes → Bytes) → Shuffle → (ℕ → ℕ → Weather) → Input → Db → Result Code (ℕ × ℕ) × Db
create sha s ws input db =
    then_refill (refill s (ws 1) refill_batch) (once sha (ws 2) input) (once sha (ws 0) input db)
