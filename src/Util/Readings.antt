-- ===== src/Util/Readings.antt =====
-- The layout of an identifier as a sum, and what a generator's readings of the clock give.
use Prim.Native.Nat.{bit_or}
use ape_server.Prelude.{
  ℕ, zero, suc, ◌+◌, ◌-◌, ◌*◌, ◌^◌, ◌≤◌, ◌<◌, ◌≡◌, refl, inl, inr, Option, none, some, ltb, leb,
  Bool-cases, Result, ok, arith, subst, ok-injective, err-ne-ok,
}
use ape_server.Util.Bits.{bit_or_apart}
use ape_server.Util.Snowflake.{Failure, moved_backwards, still_waiting, epoch, pack, settle, wait}

pub pack-sum :
    (t d w s : ℕ)
    → d < 32
    → w < 32
    → s < 4096
    → pack t d w s ≡ (t - epoch) * 2 ^ 22 + d * 2 ^ 17 + w * 2 ^ 12 + s
unfolding pack
pack-sum t d w s hd hw hs =
    let first : bit_or ((t - epoch) * 2 ^ 22) (d * 2 ^ 17) ≡ ((t - epoch) * 32 + d) * 2 ^ 17 =
      omega (arith, bit_or_apart 22 (t - epoch) (d * 2 ^ 17) (omega arith)) in
    let second : bit_or (((t - epoch) * 32 + d) * 2 ^ 17) (w * 2 ^ 12)
        ≡ (((t - epoch) * 32 + d) * 32 + w) * 2 ^ 12 =
      omega (arith, bit_or_apart 17 ((t - epoch) * 32 + d) (w * 2 ^ 12) (omega arith)) in
    rw (first, second)
      (omega (arith, bit_or_apart 12 (((t - epoch) * 32 + d) * 32 + w) s (omega arith)))

-- A reading below an earlier one is followed by one that is not.
abbrev pub Settles : (ℕ → ℕ) → Type 0
Settles clock = (m n : ℕ) → m ≤ n → clock n < clock m → clock m ≤ clock (n + 1)

abbrev pub IsRead : (ℕ → ℕ) → ℕ → ℕ → Type 0
IsRead clock reads t = (m : ℕ) × (m < reads) × (clock m ≡ t)

same-IsRead :
    (clock : ℕ → ℕ) (a b t r : ℕ)
    → IsRead clock b a
    → ◌≡◌ {A = Result Failure (ℕ × ℕ)} (ok (a, b)) (ok (t, r))
    → IsRead clock r t
same-IsRead clock a b t r h e =
    subst (λ (p : ℕ × ℕ). IsRead clock p.1 p.0) (ok-injective (a, b) (t, r) e) h

module _ (clock : ℕ → ℕ) where
  pub settle_late :
      (reads last t r : ℕ)
      → Settles clock
      → IsRead clock reads last
      → settle clock reads (some last) ≡ ok (t, r)
      → last ≤ t
  unfolding settle
  settle_late reads last t r h (m, b, e) q = ground (arith, h m reads)

  pub settle-IsRead :
      (reads : ℕ) (last : Option ℕ) (t r : ℕ)
      → settle clock reads last ≡ ok (t, r)
      → IsRead clock r t
  unfolding settle
  settle-IsRead reads none t r q =
      same-IsRead clock (clock reads) (reads + 1) t r (reads, omega arith, refl) q
  settle-IsRead reads (some last) t r q = elim (Bool-cases (ltb (clock reads) last)) [
    | inr e ↦ same-IsRead clock (clock reads) (reads + 1) t r (reads, omega arith, refl) (rw e at q)
    | inl e ↦ elim (Bool-cases (ltb (last - clock reads) 100)) [
      | inl f ↦
          same-IsRead clock (clock (reads + 1)) (reads + 2) t r (reads + 1, omega arith, refl)
            (rw (e, f) at q)
      | inr f ↦ absurd (err-ne-ok (moved_backwards (last - clock reads)) (t, r) (rw (e, f) at q))
    ]
  ]

  pub wait_late :
      (rounds last timestamp reads t r : ℕ)
      → IsRead clock reads timestamp
      → wait clock rounds last timestamp reads ≡ ok (t, r)
      → (last < t) × IsRead clock r t
  unfolding wait
  wait_late zero last timestamp reads t r h q = elim (Bool-cases (leb timestamp last)) [
    | inl e ↦ absurd (err-ne-ok still_waiting (t, r) (rw e at q))
    | inr e ↦ (ground arith, same-IsRead clock timestamp reads t r h (rw e at q))
  ]
  wait_late (suc rounds) last timestamp reads t r h q = elim (Bool-cases (leb timestamp last)) [
    | inl e ↦
        wait_late rounds last (clock reads) (reads + 1) t r (reads, omega arith, refl) (rw e at q)
    | inr e ↦ (ground arith, same-IsRead clock timestamp reads t r h (rw e at q))
  ]
