-- ===== src/Outbox/Backoff.antt =====
-- How long a failed task waits.
use native.Mathlib.Numerals.{unary_clauses}
use ape_server.Prelude.{
  ℕ, zero, suc, ◌+◌, ◌^◌, ◌≤◌, ◌<◌, min, ◌≡◌, ◌≢◌, refl, arith, All, All-mono, true, some, List, [],
  ◌∷◌, Bytes, update, Bool-cases, inl, inr,
}
use ape_server.Outbox.Data.{Task, Db}
use ape_server.Outbox.Lease.{delay, retry, is_held, claim}
use ape_server.Outbox.Exclusive.{claim-All}

power_bound : (n : ℕ) → 1 ≤ 2 ^ n
power_bound zero = omega arith
power_bound (suc n) = simp unary_clauses (omega (arith, power_bound n))

delay_bounds : (attempts : ℕ) → (1000 ≤ delay attempts) × (delay attempts ≤ 60000)
unfolding delay
delay_bounds attempts = (omega (arith, power_bound (min attempts 6)), omega arith)

module _ (task : Task) (error : Bytes) (now : ℕ) where
  -- A row that waits until the delay is over, if it is the task's.
  abbrev Waits : Task → Type 0
  Waits u = u.id ≡ task.id → (u.state ≡ 0) × (now + 1000 ≤ u.available_at)

  retry-Waits :
      (f : Task → Task) (ts : List Task)
      → ((u : Task) → ((f u).state ≡ 0) × ((f u).available_at ≡ now + delay task.attempts))
      → All (λ u. u.id ≡ task.id → is_held task u ≡ true) ts
      → All Waits (update (is_held task) f ts)
  unfolding update
  retry-Waits f [] g a = tt
  retry-Waits f (u ∷ us) g a = elim (Bool-cases (is_held task u)) [
    | inl e ↦ rw e (
      (λ _. ((g u).0, omega (arith, (g u).1, delay_bounds task.attempts))),
      retry-Waits f us g a.1,
    )
    | inr e ↦ rw e ((λ i. ground (arith, a.0 i, e)), retry-Waits f us g a.1)
  ]

-- A failed task that its worker still held and gave back is not claimed by anyone in the second that
-- follows.
pub retry-claim :
    (task : Task) (error : Bytes) (now later : ℕ) (token : Bytes) (db : Db) (t : Task)
    → All (λ (u : Task). u.id ≡ task.id → is_held task u ≡ true) db.tasks
    → (claim later token (retry task error now db)).0 ≡ some t
    → later < now + 1000
    → t.id ≢ task.id
unfolding retry
retry-claim task error now later token db t a h early =
    claim-All (λ u. u.id ≢ task.id) later token (retry task error now db) t
      (All-mono _ _ _ (λ u w f i. ground (arith, w i, f))
        (retry-Waits task error now _ db.tasks (λ u. (refl, refl)) a))
      h
