-- ===== src/Register/Reach.antt =====
-- The tables of registration under any sequence of the transactions of `once` and `refill`.
use ape_server.Prelude.{
  if-any, ℕ, ◌≡◌, refl, sym, subst, inl, inr, Bool, true, false, Option, none, some, Bytes,
  Bool-cases, ◌==◌, if◌then◌else◌, Result, ok, err, subst,
}
use ape_server.Register.Data.{PoolRow, Db, Input, Failure, Weather}
use ape_server.Register.Once.{End, assigned, Outcome, body, leave, commit, finish, attempt}
use ape_server.Register.Claims.{Claim, body-Opened, Came, emptied, claimed, allocate-Came, opened}
use ape_server.Register.Refill
use ape_server.Register.Refill.{
  Shuffle, Refilled, sufficient, extended, refill_body, refill_attempt, conclude,
}
use ape_server.Register.Extends.{refilled-IsConsistent}
use ape_server.Register.Keeps.{IsConsistent, assigned-IsConsistent}

-- The tables that a transaction leaves: those of before, or with a claim.
data Left (sha : Bytes → Bytes) (w : Weather) (input : Input) (db : Db) (after : Db) : Type 0 where
  same : after ≡ db → Left sha w input db after
  grown :
      (p : PoolRow)
      → Claim w input (opened sha input db) p
      → after ≡ assigned input p (opened sha input db)
      → Left sha w input db after

module _ (sha : Bytes → Bytes) (w : Weather) (input : Input) (db : Db) where
  leave-same : (answer : Option (ℕ × ℕ)) → (leave w answer db).1 ≡ db
  leave-same answer = elim (Bool-cases w.rolls_back) [ inl t ↦ rw t refl | inr t ↦ rw t refl ]

  commit-Left :
      (given : ℕ × ℕ) (after : Db)
      → Left sha w input db after
      → Left sha w input db (commit w given db after).1
  commit-Left given after l = elim (Bool-cases (w.fails_at == 8)) [
    | inr t ↦ rw t l
    | inl t ↦ rw t (in_doubt w.applied)
  ]
    where
      in_doubt : (b : Bool) → Left sha w input db (if b then after else db)
      in_doubt true = l
      in_doubt false = same refl

  Came-Left :
      (o : Outcome)
      → Came w input (opened sha input db) o
      → Left sha w input db (finish w db (ok o)).1
  Came-Left o (emptied e q) =
      subst (λ x. Left sha w input db (finish w db (ok x)).1) (sym q) (same (leave-same none))
  Came-Left o (claimed p c q) =
      subst (λ x. Left sha w input db (finish w db (ok x)).1) (sym q)
        (commit-Left (db.next_user, p.account) (assigned input p (opened sha input db))
          (grown p c refl))

  finish-Left :
      (r : Result Failure Outcome) → body sha w input db ≡ r → Left sha w input db (finish w db r).1
  finish-Left (err f) e = same refl
  finish-Left (ok o) e = elim (body-Opened sha input w db o e).rest [
    | inl (given, g, q) ↦
        subst (λ x. Left sha w input db (finish w db (ok x)).1) (sym q)
          (same (leave-same (some given)))
    | inr (g, q) ↦ Came-Left o (allocate-Came w input (opened sha input db) o q).0
  ]

  pub attempt-IsConsistent : IsConsistent db → IsConsistent (attempt sha w input db).1
  unfolding attempt
  attempt-IsConsistent s =
      if-any (λ (p : End × Db). IsConsistent p.1) w.begins _ _
        (elim (finish-Left (body sha w input db) refl) [
          | same e ↦ subst IsConsistent (sym e) s
          | grown p c e ↦ subst IsConsistent (sym e) (assigned-IsConsistent sha input p db s w c)
        ])
        s

refill_attempt-IsConsistent :
    (s : Shuffle) (w : Weather) (batch : ℕ) (db : Db)
    → IsConsistent db
    → IsConsistent (refill_attempt s w batch db).1
unfolding refill_attempt
refill_attempt-IsConsistent s w batch db k =
    if-any (λ (p : Refill.End × Db). IsConsistent p.1) w.begins _ _
      (ended (refill_body s w batch db) refl) k
  where
    chosen : (b : Bool) (after : Db) → IsConsistent after → IsConsistent (if b then after else db)
    chosen true after h = h
    chosen false after h = k

    ended :
        (r : Result Failure Refilled)
        → refill_body s w batch db ≡ r
        → IsConsistent (conclude w db r).1
    ended (err f) e = k
    ended (ok sufficient) e = elim (Bool-cases w.rolls_back) [ inl t ↦ rw t k | inr t ↦ rw t k ]
    ended (ok (extended after)) e =
        let h = refilled-IsConsistent s w batch db after k e in
        elim (Bool-cases (w.fails_at == 6)) [
          | inl t ↦ rw t (chosen w.applied after h)
          | inr t ↦ rw t h
        ]

-- Transactions of any clients, one after the other: the locks on the pool's row, on the request and
-- on the cursor make them so.
pub data Step (sha : Bytes → Bytes) (s : Shuffle) (db : Db) : Db → Type 0 where
  attempted : (w : Weather) (input : Input) → Step sha s db (attempt sha w input db).1
  refilled : (w : Weather) (batch : ℕ) → Step sha s db (refill_attempt s w batch db).1

pub data Reach (sha : Bytes → Bytes) (s : Shuffle) (db : Db) : Db → Type 0 where
  begin : Reach sha s db db
  after : {db' db'' : Db} → Reach sha s db db' → Step sha s db' db'' → Reach sha s db db''

-- From sound tables, whichever transactions of registrations and refills run, with whatever fails
-- in them, the tables stay sound: no two users share an account or a phone number, no account is
-- pooled twice or out of range, a free account has no user, and each request that is kept names its
-- user and account.
pub Reach-IsConsistent :
    {sha : Bytes → Bytes} {s : Shuffle} {db db' : Db}
    → IsConsistent db
    → Reach sha s db db'
    → IsConsistent db'
Reach-IsConsistent k begin = k
Reach-IsConsistent {sha} {s} k (after {db'} r (attempted w input)) =
    attempt-IsConsistent sha w input db' (Reach-IsConsistent k r)
Reach-IsConsistent {sha} {s} k (after {db'} r (refilled w batch)) =
    refill_attempt-IsConsistent s w batch db' (Reach-IsConsistent k r)
