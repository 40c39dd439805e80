-- ===== src/Prelude/Unique.antt =====
-- Rows with a key of their own: a further condition on the one row that a key finds.
use Prim.Native.Nat.{◌≤◌}
use mathlib.Core.Path.{◌≡◌, refl, ap, ◌∙◌}
use mathlib.Core.Bool.{Bool, true, false, ◌&&◌}
use mathlib.Core.Logic.{inl, inr}
use mathlib.Core.Option
use mathlib.Core.Option.{some}
use mathlib.Core.List.{List, [], ◌∷◌}
use native.Mathlib.Omega.{arith}
use ape_server.Prelude.Tests.{ltb, Bool-cases, if◌then◌else◌}
use ape_server.Prelude.Lists.{All, All-mono}
use ape_server.Prelude.Table.{find, any, count, select}
use ape_server.Prelude.Keys.{found→count}

pub any-count {ℓ} : {R : Type ℓ} (q : R → Bool) (xs : List R) → any q xs ≡ ltb 0 (count q xs)
unfolding any count
any-count q [] = refl
any-count q (x ∷ xs) = ground (arith, any-count q xs)

pub none-any {ℓ} :
    {R : Type ℓ} (q p : R → Bool) (xs : List R)
    → any q xs ≡ false
    → any (λ y. q y && p y) xs ≡ false
unfolding any
none-any q p [] h = refl
none-any q p (y ∷ xs) h = ground (arith, none-any q p xs)

-- Of the one row with a key, a further condition.
pub unique-any {ℓ} :
    {R : Type ℓ} (q p : R → Bool) (xs : List R) (x : R)
    → count q xs ≤ 1
    → find q xs ≡ some x
    → any (λ y. q y && p y) xs ≡ p x
unfolding count find any
unique-any q p [] x c e = cc
unique-any q p (y ∷ xs) x c e = elim (Bool-cases (q y)) [
  | inr n ↦ rw n (unique-any q p xs x (ground arith) (rw n at e))
  | inl t ↦
      let same : y ≡ x = Option.some-injective y x (rw t at e) in
      let rest : any (λ z. q z && p z) xs ≡ false =
        none-any q p xs (ground (arith, any-count q xs, rw t at c)) in
      rw (t, rest) (if_same (p y) ∙ ap p same)
]
  where
    if_same : (b : Bool) → (if b then true else false) ≡ b
    if_same true = refl
    if_same false = refl

-- Each element is the first with its own key.
pub firsts {ℓ} :
    {R : Type ℓ} (same : R → R → Bool) (xs : List R)
    → ((x : R) → same x x ≡ true)
    → ((x : R) → count (same x) xs ≤ 1)
    → All (λ x. find (same x) xs ≡ some x) xs
unfolding find count
firsts same [] r c = tt
firsts same (y ∷ xs) r c = (
  rw (r y) refl,
  All-mono (λ x. find (same x) xs ≡ some x) (λ x. find (same x) (y ∷ xs) ≡ some x) xs
      (λ x e. elim (Bool-cases (same x y)) [
        | inr n ↦ rw n e
        | inl t ↦ absurd (ground (arith, c x, found→count (same x) (same x) xs {x = x} e (r x)))
      ])
      (firsts same xs r (λ x. ground (arith, c x))),
)

pub select-cong {ℓ} :
    {R : Type ℓ} (p q : R → Bool) (xs : List R)
    → All (λ x. p x ≡ q x) xs
    → select p xs ≡ select q xs
unfolding select
select-cong p q [] a = refl
select-cong p q (x ∷ xs) a = elim (Bool-cases (q x)) [
  | inl e ↦ rw (a.0, e) (ap (λ r. x ∷ r) (select-cong p q xs a.1))
  | inr e ↦ rw (a.0, e) (select-cong p q xs a.1)
]

pub any-select {ℓ} :
    {R : Type ℓ} (p q : R → Bool) (xs : List R) → any q (select p xs) ≡ any (λ x. q x && p x) xs
unfolding any select
any-select p q [] = refl
any-select p q (x ∷ xs) = ground (arith, any-select p q xs)
