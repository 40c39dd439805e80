-- ===== src/Outbox/Exclusive.antt =====
-- A lease is one worker's until it runs out.
use ape_server.Prelude.{
  ℕ, ◌+◌, ◌<◌, ◌≡◌, ◌≢◌, refl, ap, subst, inl, inr, Bool, true, ◌||◌, some, List, [], ◌∷◌, Bytes,
  Bool-cases, Option-cases, arith, select, order_by-All, All, All-mono, update-All,
}
use mathlib.Core.Option
use ape_server.Outbox.Data.{Task, Db}
use ape_server.Outbox.Lease.{
  is_task, first, earliest, is_ready, is_expired, leased, take_lease, claim,
}

-- What all chosen tasks satisfy, the first of them does.
pub earliest-All {κ} :
    (P : Task → Type κ) (key : Task → ℕ) (p : Task → Bool) (ts : List Task) (t : Task)
    → All P (select p ts)
    → earliest key p ts ≡ some t
    → P t
earliest-All P key p ts t a e =
    one _ (order_by-All P key _ (order_by-All P (λ (u : Task). u.id) _ a)) e
  where
    one : (us : List Task) → All P us → first us ≡ some t → P t
    one [] b h = absurd (Option.none-ne-some t h)
    one (u ∷ us) b h = subst P (Option.some-injective u t h) b.0

selected {κ} :
    (P : Task → Type κ) (p : Task → Bool) (ts : List Task)
    → All (λ u. p u ≡ true → P u) ts
    → All P (select p ts)
unfolding select
selected P p [] a = tt
selected P p (t ∷ ts) a = elim (Bool-cases (p t)) [
  | inl e ↦ rw e (a.0 e, selected P p ts a.1)
  | inr e ↦ rw e (selected P p ts a.1)
]

-- A task that may be claimed: it is ready, or its lease has run out.
abbrev pub is_free : ℕ → Task → Bool
is_free now t = is_ready now t || is_expired now t

module _ {κ} (P : Task → Type κ) (now : ℕ) (token : Bytes) (db : Db) where
  chosen-All :
      (key : Task → ℕ) (p : Task → Bool) (row t : Task)
      → ((u : Task) → p u ≡ true → is_free now u ≡ true)
      → All (λ u. is_free now u ≡ true → P (leased now token u)) db.tasks
      → earliest key p db.tasks ≡ some row
      → leased now token row ≡ t
      → P t
  chosen-All key p row t w a e h = subst P h (
      earliest-All (λ u. P (leased now token u)) key p db.tasks row
        (selected (λ u. P (leased now token u)) p db.tasks
          (All-mono _ _ db.tasks (λ u k q. k (w u q)) a))
        e)

  -- What every free task satisfies once it is leased, the claimed one does.
  pub claim-All :
      (t : Task)
      → All (λ u. is_free now u ≡ true → P (leased now token u)) db.tasks
      → (claim now token db).0 ≡ some t
      → P t
  unfolding claim
  claim-All t a h =
      elim (Option-cases (earliest (λ (u : Task). u.available_at) (is_ready now) db.tasks)) [
        | inr (row, e) ↦
            chosen-All (λ (u : Task). u.available_at) (is_ready now) row t
              (λ u k. ground (arith, k)) a e
              (Option.some-injective (leased now token row) t (rw (claim, e) at h))
        | inl e ↦
            elim (Option-cases (earliest (λ (u : Task). u.lease_until) (is_expired now) db.tasks)) [
              | inr (row, f) ↦
                  chosen-All (λ (u : Task). u.lease_until) (is_expired now) row t
                    (λ u k. ground (arith, k)) a f
                    (Option.some-injective (leased now token row) t (rw (claim, e, f) at h))
              | inl f ↦ absurd (Option.none-ne-some t (rw (claim, e, f) at h))
            ]
      ]

-- Every row of the task's number is leased until 45 seconds after the claim.
abbrev IsLeased : ℕ → ℕ → Task → Type 0
IsLeased now id u = u.id ≡ id → (u.state ≡ 1) × (u.lease_until ≡ now + 45000)

take_lease-IsLeased :
    (now : ℕ) (token : Bytes) (db : Db) (row : Task)
    → All (IsLeased now row.id) (take_lease now token db row).1.tasks
take_lease-IsLeased now token db row =
    update-All (IsLeased now row.id) (is_task row.id) (leased now token) db.tasks
      (λ u _ _. (refl, refl)) (λ u n e. ground (arith, n, e))

claim-IsLeased :
    (now : ℕ) (token : Bytes) (db : Db) (t : Task)
    → (claim now token db).0 ≡ some t
    → All (IsLeased now t.id) (claim now token db).1.tasks
unfolding claim
claim-IsLeased now token db t h =
    elim (Option-cases (earliest (λ (u : Task). u.available_at) (is_ready now) db.tasks)) [
      | inr (row, e) ↦ rw (claim, e) (leased_as row (rw (claim, e) at h))
      | inl e ↦
          elim (Option-cases (earliest (λ (u : Task). u.lease_until) (is_expired now) db.tasks)) [
            | inr (row, f) ↦ rw (claim, e, f) (leased_as row (rw (claim, e, f) at h))
            | inl f ↦ absurd (Option.none-ne-some t (rw (claim, e, f) at h))
          ]
    ]
  where
    leased_as :
        (row : Task)
        → some (leased now token row) ≡ some t
        → All (IsLeased now t.id) (take_lease now token db row).1.tasks
    leased_as row k =
        subst (λ i. All (IsLeased now i) (take_lease now token db row).1.tasks)
          (ap (λ (x : Task). x.id) (Option.some-injective (leased now token row) t k))
          (take_lease-IsLeased now token db row)

-- Between a claim and the end of its lease nobody else claims the same task, if nothing gives it
-- back.
pub claim-exclusive :
    (now later : ℕ) (token other : Bytes) (db : Db) (t u : Task)
    → (claim now token db).0 ≡ some t
    → (claim later other (claim now token db).1).0 ≡ some u
    → later < now + 45000
    → u.id ≢ t.id
claim-exclusive now later token other db t u h k early =
    claim-All (λ x. x.id ≢ t.id) later other (claim now token db).1 u
      (All-mono _ _ _ (λ x l f e. ground (arith, l e, f)) (claim-IsLeased now token db t h)) k
