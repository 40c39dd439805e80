-- ===== src/Util/Issued.antt =====
-- The fields of an identifier, and the readings of the clock that `next_id` needs.
use ape_server.Prelude.{
  ℕ, zero, suc, ◌+◌, ◌/◌, ◌%◌, ◌^◌, ◌≤◌, ◌<◌, ◌≡◌, refl, ◌∙◌, inl, inr, Option, none, some, leb,
  ◌==◌, Bool-cases, ok, arith, subst,
}
use ape_server.Util.Snowflake.{Generator, epoch, settle, wait, is_last, issue, next_id}
use ape_server.Util.Readings.{pack-sum, Settles}
use ape_server.Util.Increasing.{IsReady, Issued, WasRead, next_id-IsGrown}

-- A clock that never goes back, and moves on within as many readings.
pub record Runs (clock : ℕ → ℕ) (rounds : ℕ) : Type 0 where
  pub onward : (m n : ℕ) → m ≤ n → clock m ≤ clock n
  pub moves : (n : ℕ) → clock n < clock (n + rounds)

wait_ends :
    (clock : ℕ → ℕ) (rounds last timestamp reads : ℕ)
    → last < clock (reads + rounds)
    → (p : ℕ × ℕ) × (wait clock (suc rounds) last timestamp reads ≡ ok p)
unfolding wait
wait_ends clock zero last timestamp reads h = elim (Bool-cases (leb timestamp last)) [
  | inl e ↦ ((clock reads, reads + 1), ground arith)
  | inr e ↦ ((timestamp, reads), rw e refl)
]
wait_ends clock (suc rounds) last timestamp reads h = elim (Bool-cases (leb timestamp last)) [
  | inl e ↦
      let (p, k) =
        wait_ends clock rounds last (clock reads) (reads + 1)
          (subst (λ n. last < clock n) (omega arith) h) in
      (p, rw e k)
  | inr e ↦ ((timestamp, reads), rw e refl)
]

settle_onward :
    (clock : ℕ → ℕ) (rounds reads : ℕ) (last : Option ℕ)
    → Runs clock rounds
    → WasRead clock reads last
    → settle clock reads last ≡ ok (clock reads, reads + 1)
unfolding settle
settle_onward clock rounds reads none h r = refl
settle_onward clock rounds reads (some l) h (m, b, e) = ground (arith, h.onward m reads)

module _ (clock : ℕ → ℕ) (rounds : ℕ) (h : Runs clock rounds) where
  next_id-total :
      (g : Generator)
      → WasRead clock g.reads g.last
      → (p : ℕ × Generator) × (next_id clock (suc rounds) g ≡ ok p)
  unfolding next_id
  next_id-total g r =
      rw (settle_onward clock rounds g.reads g.last h r)
        (elim (Bool-cases (is_last clock (clock g.reads) g.last)) [
          | inr e ↦ (issue clock g (clock g.reads) (g.reads + 1) 0, rw e refl)
          | inl e ↦ elim (Bool-cases ((g.sequence + 1) % 4096 == 0)) [
            | inr n ↦ (
              issue clock g (clock g.reads) (g.reads + 1) ((g.sequence + 1) % 4096),
              rw (e, n) refl,
            )
            | inl n ↦
                let (p, k) = wait_ends clock rounds (clock g.reads) (clock g.reads) (g.reads + 1) (
                  omega (
                    arith,
                    h.moves g.reads,
                    h.onward (g.reads + rounds) (g.reads + 1 + rounds) (omega arith),
                  )) in
                (issue clock g p.0 p.1 0, rw (e, n, k) refl)
          ]
        ])

  Settles-Runs : Settles clock
  Settles-Runs m n le lt = absurd (omega (arith, h.onward m n le))

named :
    (g : Generator) (last : Option ℕ) (clock : ℕ → ℕ) (id : ℕ)
    → IsReady clock g
    → Issued g last id
    → (id / 2 ^ 17 % 32 ≡ g.datacenter) × (id / 2 ^ 12 % 32 ≡ g.worker) × (id % 2 ^ 12 ≡ g.sequence)
named g none clock id r i = absurd i
named g (some l) clock id r i =
    let sum = pack-sum l g.datacenter g.worker g.sequence r.datacenter r.worker r.sequence in
    (
      omega (arith, sum, i, r.worker, r.datacenter, r.sequence),
      omega (arith, sum, i, r.worker, r.datacenter, r.sequence),
      omega (arith, sum, i, r.worker, r.datacenter, r.sequence),
    )

-- From a clock that never goes back, moves on within `rounds` readings and is not before 2024, a
-- generator whose fields fit their bits gives an identifier, and its two fields of five bits are the
-- numbers of the generator's data centre and process.
pub next_id-names :
    (clock : ℕ → ℕ) (rounds : ℕ) (g : Generator)
    → Runs clock rounds
    → ((k : ℕ) → epoch ≤ clock k)
    → IsReady clock g
    → (p : ℕ × Generator) × (next_id clock (suc rounds) g ≡ ok p)
      × (p.0 / 2 ^ 17 % 32 ≡ g.datacenter)
      × (p.0 / 2 ^ 12 % 32 ≡ g.worker)
next_id-names clock rounds g h early r =
    let (p, e) = next_id-total clock rounds h g r.last in
    let (r', follows, issued, w, d) =
      next_id-IsGrown clock (Settles-Runs clock rounds h) early (suc rounds) g p r e in
    let (a, b, c) = named p.1 p.1.last clock p.0 r' issued in (p, e, a ∙ d, b ∙ w)
