-- ===== src/Register/Once.antt =====
-- `once`: up to three transactions, each of which answers, fails or ends in doubt.
use ape_server.Prelude.{
  ℕ, zero, suc, ◌+◌, Bool, true, false, not, ◌&&◌, ◌||◌, Option, none, some, List, [], ◌∷◌, ◌++◌,
  Bytes, bytes_eq, ltb, leb, ◌==◌, if◌then◌else◌, find, update, count, any, Result, ok, err, ◌>>=◌,
  ◌>>◌, guard,
}
use ape_server.Register.Data.{
  User, PoolRow, RequestRow, Db, Input, Code, schema_error, internal_error, idempotency_conflict,
  phone_exists, pool_inconsistent, db_error, registration_uncertain, registration_busy, mysql_error,
  Failure, transient, duplicate, broken, thrown, Weather, statement, min_account, max_account,
  digest, is_request, has_account, has_phone, result_of,
}

abbrev pub or_fail {ℓ} : {A : Type ℓ} → Option A → Failure → Result Failure A
or_fail none f = err f
or_fail (some a) f = ok a

-- What a transaction comes to before it commits.
pub data Outcome : Type 0 where
  replayed : ℕ × ℕ → Outcome
  empty_pool : Outcome
  allocated : ℕ × ℕ → Db → Outcome

module _ (sha : Bytes → Bytes) where
  -- `verify`
  unfoldable pub verifies : Input → RequestRow → Bool
  verifies input r = bytes_eq (digest sha r.salt input.payload) r.hash

  abbrev pub new_request : Input → RequestRow
  new_request input = record {
    request = input.request;
    salt = input.password_salt;
    hash = digest sha input.password_salt input.payload;
    user = none;
    account = none;
  }

  -- INSERT … ON DUPLICATE KEY UPDATE
  abbrev pub with_request : Input → List RequestRow → List RequestRow
  with_request input rs =
      if any (is_request input.request) rs then rs else rs ++ new_request input ∷ []

abbrev pub is_free : PoolRow → Bool
is_free p = not p.taken

-- account_pool's id, and the status it must have
abbrev pub is_free_row : ℕ → PoolRow → Bool
is_free_row id p = p.id == id && not p.taken

abbrev pub new_user : Input → ℕ → ℕ → User
new_user input id account = record {
  id = id;
  account = account;
  nickname = input.nickname;
  phone = input.phone;
  password_hash = input.password_hash;
  password_salt = input.password_salt;
  last_login = none;
}

abbrev pub is_given : ℕ → ℕ → RequestRow → Bool
is_given user account r =
    elim r.user [ none ↦ false | some u ↦ u == user ]
    || elim r.account [ none ↦ false | some a ↦ a == account ]

-- The tables with the user, the taken row and the finished request.
abbrev pub assigned : Input → PoolRow → Db → Db
assigned input p db = record db {
  users = db.users ++ new_user input db.next_user p.account ∷ [];
  next_user = db.next_user + 1;
  pool = update (is_free_row p.id) (λ (x : PoolRow). record x { taken = true }) db.pool;
  requests =
      update (is_request input.request)
        (λ (r : RequestRow). record r { user = some db.next_user; account = some p.account })
        db.requests;
}

-- Statements 5 to 7. Each table's unique keys are those of the schema.
unfoldable pub assign : Weather → Input → PoolRow → Db → Result Failure Outcome
assign w input p db = do
  guard (not (p.id == 0) && (leb min_account p.account && leb p.account max_account))
      (thrown pool_inconsistent)
  statement w 5
  guard (not (any (has_account p.account) db.users || any (has_phone input.phone) db.users))
      duplicate
  guard (not (db.next_user == 0)) (thrown schema_error)
  statement w 6
  guard (count (is_free_row p.id) db.pool == 1) (thrown pool_inconsistent)
  statement w 7
  guard (not (any (is_given db.next_user p.account) db.requests)) duplicate
  guard (count (is_request input.request) db.requests == 1) (thrown schema_error)
  ok (allocated (db.next_user, p.account) (assigned input p db))

-- Statements 3 and 4: the pool's rows are in the order of their identifiers.
unfoldable pub allocate : Weather → Input → Db → Result Failure Outcome
allocate w input db = do
  statement w 3
  guard (not (any (has_phone input.phone) db.users)) (thrown phone_exists)
  statement w 4
  elim (find is_free db.pool) [ none ↦ ok empty_pool | some p ↦ assign w input p db ]

-- How an attempt ends: an answer, or a failure, with whether it was committing and whether its
-- rollback succeeded.
pub data End : Type 0 where
  answered : Option (ℕ × ℕ) → End
  failed : Failure → Bool → Bool → End

abbrev pub leave : Weather → Option (ℕ × ℕ) → Db → End × Db
leave w answer db =
    if w.rolls_back then (answered answer, db) else (failed (thrown db_error) false false, db)

-- COMMIT is statement 8.
abbrev pub commit : Weather → ℕ × ℕ → Db → Db → End × Db
commit w given before after =
    if w.fails_at == 8
    then (failed w.failure true w.rolls_back, if w.applied then after else before)
    else (answered (some given), after)

abbrev pub finish : Weather → Db → Result Failure Outcome → End × Db
finish w db (ok (replayed given)) = leave w (some given) db
finish w db (ok empty_pool) = leave w none db
finish w db (ok (allocated given after)) = commit w given db after
finish w db (err f) = (failed f false w.rolls_back, db)

abbrev pub is_transient : Failure → Bool
is_transient transient = true
is_transient duplicate = false
is_transient broken = false
is_transient (thrown c) = false

-- A duplicate is of the phone or of the account; what else was caught is thrown again.
unfoldable pub explain : Weather → Input → Failure → Db → Code
explain w input duplicate db =
    if w.confirms
    then if any (has_phone input.phone) db.users then phone_exists else pool_inconsistent
    else mysql_error
explain w input transient db = mysql_error
explain w input broken db = mysql_error
explain w input (thrown c) db = c

module _ (sha : Bytes → Bytes) where
  unfoldable pub body : Weather → Input → Db → Result Failure Outcome
  body w input db = do
    statement w 1
    statement w 2
    r ←
        or_fail (find (is_request input.request) (with_request sha input db.requests))
          (thrown schema_error)
    guard (verifies sha input r) (thrown idempotency_conflict)
    elim (result_of r) [
      | some given ↦ ok (replayed given)
      | none ↦ allocate w input (record db { requests = with_request sha input db.requests })
    ]

  -- What is thrown before the transaction is not caught.
  unfoldable pub attempt : Weather → Input → Db → End × Db
  attempt w input db =
      if w.begins then finish w db (body w input db) else (failed broken false false, db)

  -- `lookup`, by a query that succeeds
  unfoldable pub lookup : Input → Db → Result Code (Option (ℕ × ℕ))
  lookup input db = elim (find (is_request input.request) db.requests) [
    | none ↦ ok none
    | some r ↦ if verifies sha input r then ok (result_of r) else err idempotency_conflict
  ]

  -- After a commit that failed: what is there now, or nothing certain.
  unfoldable pub confirm : Weather → Input → Db → Result Code (Option (ℕ × ℕ))
  confirm w input db =
      if w.confirms
      then elim (lookup input db) [
        | ok (some given) ↦ ok (some given)
        | ok none ↦ err registration_uncertain
        | err c ↦ err registration_uncertain
      ]
      else err registration_uncertain

  -- What follows the end of attempt `k`, of three that are counted from 0.
  unfoldable pub settle :
      Weather
      → Input
      → ℕ
      → Db
      → Result Code (Option (ℕ × ℕ)) × Db
      → End
      → Result Code (Option (ℕ × ℕ)) × Db
  settle w input k after again (answered given) = (ok given, after)
  settle w input k after again (failed f committing rolled_back) =
      if committing
      then (confirm w input after, after)
      else if is_transient f && rolled_back
      then if ltb k 2 then again else (err registration_busy, after)
      else (err (explain w input f after), after)

  -- With the weather of each attempt; `left` attempts remain of three.
  unfoldable pub once_from : (ℕ → Weather) → Input → ℕ → ℕ → Db → Result Code (Option (ℕ × ℕ)) × Db
  once_from ws input zero k db = (err internal_error, db)
  once_from ws input (suc left) k db =
      let (e, after) = attempt (ws k) input db in
      let again = once_from ws input left (k + 1) after in settle (ws k) input k after again e

  unfoldable pub once : (ℕ → Weather) → Input → Db → Result Code (Option (ℕ × ℕ)) × Db
  once ws input db = once_from ws input 3 0 db
