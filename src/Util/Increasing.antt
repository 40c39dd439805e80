-- ===== src/Util/Increasing.antt =====
-- The order of the identifiers that one generator makes.
use ape_server.Prelude.{
  ℕ, zero, suc, ◌+◌, ◌%◌, ◌≤◌, ◌<◌, ◌≡◌, refl, sym, ◌⊎◌, inl, inr, Option, none, some, List, [],
  ◌∷◌, ◌==◌, Bool-cases, if◌then◌else◌, Result, ok, err, ◌>>=◌, arith, All, All-mono, subst,
  ok-injective, >>=-eq-ok,
}
use ape_server.Util.Snowflake.{
  Generator, Failure, epoch, generator, pack, settle, wait, is_last, issue, next_id, generate,
}
use ape_server.Util.Readings.{pack-sum, Settles, IsRead, settle_late, settle-IsRead, wait_late}

abbrev pub WasRead : (ℕ → ℕ) → ℕ → Option ℕ → Type 0
WasRead clock reads none = Unit
WasRead clock reads (some l) = IsRead clock reads l

-- A generator whose fields fit their bits, and whose last time was read from the clock.
pub record IsReady (clock : ℕ → ℕ) (g : Generator) : Type 0 where
  pub worker : g.worker < 32
  pub datacenter : g.datacenter < 32
  pub sequence : g.sequence < 4096
  pub last : WasRead clock g.reads g.last

-- An identifier above that of the last time and sequence, and that identifier itself.
abbrev pub Follows : Generator → Option ℕ → ℕ → Type 0
Follows g none id = Unit
Follows g (some l) id = pack l g.datacenter g.worker g.sequence < id

abbrev pub Issued : Generator → Option ℕ → ℕ → Type 0
Issued g none id = ⊥
Issued g (some l) id = pack l g.datacenter g.worker g.sequence ≡ id

abbrev Later : Generator → ℕ → ℕ → Option ℕ → Type 0
Later g t s none = Unit
Later g t s (some l) = (epoch ≤ l) × ((l < t) ⊎ ((l ≡ t) × (g.sequence < s)))

abbrev pub IsGrown : (ℕ → ℕ) → Generator → ℕ × Generator → Type 0
IsGrown clock g p =
    IsReady clock p.1
    × Follows g g.last p.0
    × Issued p.1 p.1.last p.0
    × (p.1.worker ≡ g.worker)
    × (p.1.datacenter ≡ g.datacenter)

Follows-Later :
    (clock : ℕ → ℕ) (g : Generator) (t s : ℕ) (last : Option ℕ)
    → IsReady clock g
    → s < 4096
    → Later g t s last
    → Follows g last (pack t g.datacenter g.worker s)
Follows-Later clock g t s none r h l = tt
Follows-Later clock g t s (some last) r h l = ground (
  arith,
  r.worker,
  r.datacenter,
  r.sequence,
  pack-sum last g.datacenter g.worker g.sequence,
  pack-sum t g.datacenter g.worker s,
)

issue-IsGrown :
    (clock : ℕ → ℕ) (g : Generator) (t reads s : ℕ)
    → IsReady clock g
    → IsRead clock reads t
    → s < 4096
    → Later g t s g.last
    → IsGrown clock g (issue clock g t reads s)
issue-IsGrown clock g t reads s r read h l = (
  record { worker = r.worker; datacenter = r.datacenter; sequence = h; last = read },
  Follows-Later clock g t s g.last r h l,
  refl,
  refl,
  refl,
)

module _ (clock : ℕ → ℕ) (h : Settles clock) (early : (n : ℕ) → epoch ≤ clock n) where
  after_epoch : (reads l : ℕ) → IsRead clock reads l → epoch ≤ l
  after_epoch reads l (m, b, e) = omega (arith, early m)

  -- The sequence of a time that was used before, and of one that was not.
  again :
      (rounds : ℕ) (g : Generator) (l t reads : ℕ) (p : ℕ × Generator)
      → IsReady clock g
      → g.last ≡ some l
      → epoch ≤ l
      → l ≡ t
      → IsRead clock reads t
      → (if (g.sequence + 1) % 4096 == 0
          then (do (later, reads') ← wait clock rounds t t reads; ok (issue clock g later reads' 0))
          else ok (issue clock g t reads ((g.sequence + 1) % 4096)))
        ≡ ok p
      → IsGrown clock g p
  again rounds g l t reads p r e k same read q = elim (Bool-cases ((g.sequence + 1) % 4096 == 0)) [
    | inr n ↦
        subst (IsGrown clock g)
          (ok-injective (issue clock g t reads ((g.sequence + 1) % 4096)) p (rw n at q))
          (issue-IsGrown clock g t reads ((g.sequence + 1) % 4096) r read (omega arith) (
            subst (Later g t ((g.sequence + 1) % 4096)) (sym e)
              (k, inr (same, ground (arith, r.sequence)))))
    | inl n ↦ waited (wait clock rounds t t reads) refl (rw n at q)
  ]
    where
      waited :
          (w : Result Failure (ℕ × ℕ))
          → wait clock rounds t t reads ≡ w
          → (w >>= λ (v : ℕ × ℕ). ok (issue clock g v.0 v.1 0)) ≡ ok p
          → IsGrown clock g p
      waited (err f) a b = cc
      waited (ok (later, reads')) a b =
          let (late, read') = wait_late clock rounds t t reads later reads' read a in
          subst (IsGrown clock g) (ok-injective (issue clock g later reads' 0) p b) (
            issue-IsGrown clock g later reads' 0 r read' (omega arith)
              (subst (Later g later 0) (sym e) (k, inl (omega arith))))

  anew :
      (g : Generator) (last : Option ℕ) (t reads : ℕ) (p : ℕ × Generator)
      → IsReady clock g
      → g.last ≡ last
      → Later g t 0 last
      → IsRead clock reads t
      → ◌≡◌ {A = Result Failure (ℕ × Generator)} (ok (issue clock g t reads 0)) (ok p)
      → IsGrown clock g p
  anew g last t reads p r e l read q =
      subst (IsGrown clock g) (ok-injective (issue clock g t reads 0) p q)
        (issue-IsGrown clock g t reads 0 r read (omega arith) (subst (Later g t 0) (sym e) l))

  pub next_id-IsGrown :
      (rounds : ℕ) (g : Generator) (p : ℕ × Generator)
      → IsReady clock g
      → next_id clock rounds g ≡ ok p
      → IsGrown clock g p
  unfolding next_id
  next_id-IsGrown rounds g p r q = settled (settle clock g.reads g.last) refl q
    where
      known :
          (last : Option ℕ) (t reads : ℕ)
          → g.last ≡ last
          → settle clock g.reads last ≡ ok (t, reads)
          → IsRead clock reads t
          → (if is_last clock t last
              then if (g.sequence + 1) % 4096 == 0
                then (do
                  (later, reads') ← wait clock rounds t t reads
                  ok (issue clock g later reads' 0))
                else ok (issue clock g t reads ((g.sequence + 1) % 4096))
              else ok (issue clock g t reads 0))
            ≡ ok p
          → IsGrown clock g p
      known none t reads e a read b = anew g none t reads p r e tt read b
      known (some l) t reads e a read b =
          let was : IsRead clock g.reads l = subst (WasRead clock g.reads) e r.last in
          elim (Bool-cases (t == l)) [
            | inl n ↦
                again rounds g l t reads p r e (after_epoch g.reads l was) (ground arith) read
                  (rw n at b)
            | inr n ↦
                let late : l ≤ t = settle_late clock g.reads l t reads h was a in
                anew g (some l) t reads p r e (after_epoch g.reads l was, inl (ground arith)) read
                  (rw n at b)
          ]

      settled :
          (s : Result Failure (ℕ × ℕ))
          → settle clock g.reads g.last ≡ s
          → (s >>= λ (v : ℕ × ℕ).
              if is_last clock v.0 g.last
              then if (g.sequence + 1) % 4096 == 0
                then (do
                  (later, reads') ← wait clock rounds v.0 v.0 v.1
                  ok (issue clock g later reads' 0))
                else ok (issue clock g v.0 v.1 ((g.sequence + 1) % 4096))
              else ok (issue clock g v.0 v.1 0))
            ≡ ok p
          → IsGrown clock g p
      settled (err f) a b = cc
      settled (ok (t, reads)) a b =
          known g.last t reads refl a (settle-IsRead clock g.reads g.last t reads a) b

abbrev pub IsIncreasing : List ℕ → Type 0
IsIncreasing [] = Unit
IsIncreasing (x ∷ xs) = All (λ y. x < y) xs × IsIncreasing xs

Follows-Issued :
    (g : Generator) (last : Option ℕ) (id y : ℕ) → Issued g last id → Follows g last y → id < y
Follows-Issued g none id y i f = absurd i
Follows-Issued g (some l) id y i f = omega (arith, i, f)

above : (g : Generator) (last : Option ℕ) (id y : ℕ) → Follows g last id → id < y → Follows g last y
above g none id y f h = tt
above g (some l) id y f h = omega (arith, f, h)

module _ (clock : ℕ → ℕ) (h : Settles clock) (early : (n : ℕ) → epoch ≤ clock n) where
  generate-Follows :
      (rounds n : ℕ) (g : Generator) (ids : List ℕ)
      → IsReady clock g
      → generate clock rounds n g ≡ ok ids
      → All (Follows g g.last) ids × IsIncreasing ids
  unfolding generate
  generate-Follows rounds zero g ids r q =
      subst (λ ys. All (Follows g g.last) ys × IsIncreasing ys) (ok-injective [] ids q) (tt, tt)
  generate-Follows rounds (suc n) g ids r q =
      let ((id, g'), e, k) = >>=-eq-ok (next_id clock rounds g) _ q in
      let (rest, f, m) = >>=-eq-ok (generate clock rounds n g') _ k in
      let (r', follows, issued, same_worker, same_datacenter) =
        next_id-IsGrown clock h early rounds g (id, g') r e in
      let (a, b) = generate-Follows rounds n g' rest r' f in
      subst (λ ys. All (Follows g g.last) ys × IsIncreasing ys) (ok-injective (id ∷ rest) ids m)
        (
          (
            follows,
            All-mono (Follows g' g'.last) (Follows g g.last) rest
                (λ y l. above g g.last id y follows (Follows-Issued g' g'.last id y issued l)) a,
          ),
          (
            All-mono (Follows g' g'.last) (λ y. id < y) rest
                (λ y l. Follows-Issued g' g'.last id y issued l) a,
            b,
          ),
        )

-- Identifiers that one generator makes, however many, grow from each to the next: when its process
-- has numbers of five bits, no reading of the clock is before 2024, and a reading below an earlier
-- one is followed by one that is not.
pub generate-IsIncreasing :
    (clock : ℕ → ℕ) (rounds n worker datacenter : ℕ) (ids : List ℕ)
    → Settles clock
    → ((k : ℕ) → epoch ≤ clock k)
    → worker < 32
    → datacenter < 32
    → generate clock rounds n (generator worker datacenter) ≡ ok ids
    → IsIncreasing ids
generate-IsIncreasing clock rounds n worker datacenter ids h early w d q =
    (generate-Follows clock h early rounds n (generator worker datacenter) ids
      (record { worker = w; datacenter = d; sequence = omega arith; last = tt }) q).1
