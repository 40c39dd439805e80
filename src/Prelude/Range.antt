-- ===== src/Prelude/Range.antt =====
-- Runs of consecutive numbers, and what a query that asks for rows by number makes of them.
use Prim.Native.Nat.{ℕ, zero, suc, ◌+◌, ◌-◌, min}
use mathlib.Core.Path.{◌≡◌, refl, sym, ap, ◌∙◌}
use mathlib.Core.Logic.{inl, inr}
use mathlib.Core.Bool.{Bool, true, false, ◌&&◌}
use mathlib.Core.List.{List, [], ◌∷◌, ◌++◌, map, append-nil}
use native.Mathlib.Omega.{arith}
use ape_server.Prelude.Tests.{ltb, leb, Bool-cases}
use ape_server.Prelude.Lists.{length, take}
use ape_server.Prelude.Table.{select}
use ape_server.Prelude.Rows.{select-append}
use ape_server.Prelude.Sort.{insert_by, order_by}

-- 1, 2, …, n
abbrev pub up_to : ℕ → List ℕ
up_to zero = []
up_to (suc n) = up_to n ++ suc n ∷ []

-- The k numbers after a.
abbrev pub range : ℕ → ℕ → List ℕ
range a zero = []
range a (suc k) = suc a ∷ range (suc a) k

range_snoc : (a k : ℕ) → range a k ++ suc (a + k) ∷ [] ≡ range a (suc k)
range_snoc a zero = let same : a + 0 ≡ a = omega arith in rw same refl
range_snoc a (suc k) =
    let same : a + suc k ≡ suc a + k = omega arith in
    rw same (ap (λ r. suc a ∷ r) (range_snoc (suc a) k))

abbrev pub between : ℕ → ℕ → ℕ → Bool
between a s n = ltb a n && leb n s

in_window :
    (a s n : ℕ)
    → between a s (suc n) ≡ true
    → (min n s ≡ n) × (min (suc n) s - a ≡ suc (n - a)) × (a + (n - a) ≡ n)
in_window a s n h = ground arith

out_of_window : (a s n : ℕ) → between a s (suc n) ≡ false → min (suc n) s - a ≡ min n s - a
out_of_window a s n h = ground arith

range-step :
    (a s n : ℕ)
    → range a (min n s - a) ++ select (between a s) (suc n ∷ []) ≡ range a (min (suc n) s - a)
unfolding select
range-step a s n = elim (Bool-cases (between a s (suc n))) [
  | inl e ↦
      let (same, next, last) = in_window a s n e in
      rw (e, same, next) (ap (λ k. range a (n - a) ++ suc k ∷ []) (sym last) ∙ range_snoc a (n - a))
  | inr e ↦ rw (e, out_of_window a s n e) (append-nil _)
]

pub select-up_to : (a s n : ℕ) → select (between a s) (up_to n) ≡ range a (min n s - a)
unfolding select
select-up_to a s zero = let none_left : min 0 s - a ≡ 0 = omega arith in rw none_left refl
select-up_to a s (suc n) =
    select-append (between a s) (up_to n) (suc n ∷ [])
    ∙ ap (λ r. r ++ select (between a s) (suc n ∷ [])) (select-up_to a s n)
    ∙ range-step a s n

module _ {ℓ} {A : Type ℓ} (key : A → ℕ) where
  pub map-select :
      (p : A → Bool) (q : ℕ → Bool) (xs : List A)
      → map key (select (λ x. p x && q (key x)) xs) ≡ select q (map key (select p xs))
  unfolding select
  map-select p q [] = refl
  map-select p q (x ∷ xs) = ground (arith, map-select p q xs)

  map-insert_by :
      (x : A) (xs : List A) → map key (insert_by key x xs) ≡ insert_by (λ n. n) (key x) (map key xs)
  unfolding insert_by
  map-insert_by x [] = refl
  map-insert_by x (y ∷ ys) = ground (arith, map-insert_by x ys)

  pub map-order_by : (xs : List A) → map key (order_by key xs) ≡ order_by (λ n. n) (map key xs)
  unfolding order_by
  map-order_by [] = refl
  map-order_by (x ∷ xs) =
      map-insert_by x (order_by key xs) ∙ ap (insert_by (λ n. n) (key x)) (map-order_by xs)

  pub map-take : (n : ℕ) (xs : List A) → map key (take n xs) ≡ take n (map key xs)
  map-take zero xs = refl
  map-take (suc n) [] = refl
  map-take (suc n) (x ∷ xs) = ap (λ k. key x ∷ k) (map-take n xs)

insert_by-range : (a k : ℕ) → insert_by (λ n. n) (suc a) (range (suc a) k) ≡ range a (suc k)
unfolding insert_by
insert_by-range a zero = refl
insert_by-range a (suc k) = ground arith

pub order_by-range : (a k : ℕ) → order_by (λ n. n) (range a k) ≡ range a k
unfolding order_by
order_by-range a zero = refl
order_by-range a (suc k) = rw (order_by-range (suc a) k) (insert_by-range a k)

pub take-range : (l a k : ℕ) → take l (range a k) ≡ range a (min l k)
take-range zero a k = let empty : min 0 k ≡ 0 = omega arith in rw empty refl
take-range (suc l) a zero = let empty : min (suc l) 0 ≡ 0 = omega arith in rw empty refl
take-range (suc l) a (suc k) =
    let next : min (suc l) (suc k) ≡ suc (min l k) = omega arith in
    rw next (ap (λ r. suc a ∷ r) (take-range l (suc a) k))

pub length-range : (a k : ℕ) → length (range a k) ≡ k
length-range a zero = refl
length-range a (suc k) = ap suc (length-range (suc a) k)

pub length-map {ℓ} : {A : Type ℓ} (f : A → ℕ) (xs : List A) → length (map f xs) ≡ length xs
length-map f [] = refl
length-map f (x ∷ xs) = ap suc (length-map f xs)

-- A query without an upper bound.
pub select-after : (a n : ℕ) → select (ltb a) (up_to n) ≡ range a (n - a)
unfolding select
select-after a zero = let none_left : 0 - a ≡ 0 = omega arith in rw none_left refl
select-after a (suc n) =
    select-append (ltb a) (up_to n) (suc n ∷ [])
    ∙ ap (λ r. r ++ select (ltb a) (suc n ∷ [])) (select-after a n)
    ∙ elim (Bool-cases (ltb a (suc n))) [
      | inl e ↦
          let next : suc n - a ≡ suc (n - a) = ground arith in
          let last : a + (n - a) ≡ n = ground arith in
          rw (e, next) (ap (λ k. range a (n - a) ++ suc k ∷ []) (sym last) ∙ range_snoc a (n - a))
      | inr e ↦ let next : suc n - a ≡ n - a = ground arith in rw (e, next) (append-nil _)
    ]
