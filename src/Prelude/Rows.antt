-- ===== src/Prelude/Rows.antt =====
-- Laws of the statements on tables.
use Prim.Native.Nat.{◌+◌}
use mathlib.Core.Path.{◌≡◌, refl, subst}
use mathlib.Core.Bool.{Bool, true, false}
use mathlib.Core.Option
use mathlib.Core.Option.{Option, none, some}
use mathlib.Core.List.{List, [], ◌∷◌, ◌++◌}
use mathlib.Core.Logic.{inl, inr}
use native.Mathlib.Omega.{arith}
use ape_server.Prelude.Tests.{Bool-cases}
use ape_server.Prelude.Lists.{All}
use ape_server.Prelude.Table.{find, select, update, count, any}

module _ {ℓ} {R : Type ℓ} where
  pub find-true : (p : R → Bool) (xs : List R) {x : R} → find p xs ≡ some x → p x ≡ true
  unfolding find
  find-true p [] h = cc
  find-true p (y ∷ ys) h = elim (Bool-cases (p y)) [
    | inl e ↦ ground (arith, e)
    | inr e ↦ find-true p ys (rw e at h)
  ]

  pub All-find {κ} :
      (P : R → Type κ) (p : R → Bool) (xs : List R) {x : R} → All P xs → find p xs ≡ some x → P x
  unfolding find
  All-find P p [] a h = cc
  All-find P p (y ∷ ys) {x} a h = elim (Bool-cases (p y)) [
    | inl e ↦ subst P (Option.some-injective y x (rw e at h)) a.0
    | inr e ↦ All-find P p ys a.1 (rw e at h)
  ]

  pub All-select {κ} :
      (P : R → Type κ) (p : R → Bool) (xs : List R) → All P xs → All P (select p xs)
  unfolding select
  All-select P p [] a = tt
  All-select P p (y ∷ ys) a = ground (arith, All-select P p ys a.1)

  pub select-All : (p : R → Bool) (xs : List R) → All (λ x. p x ≡ true) (select p xs)
  unfolding select
  select-All p [] = tt
  select-All p (y ∷ ys) = ground (arith, select-All p ys)

  pub All-update {κ} :
      (P : R → Type κ) (p : R → Bool) (f : R → R) (xs : List R)
      → ((x : R) → p x ≡ true → P x → P (f x))
      → All P xs
      → All P (update p f xs)
  unfolding update
  All-update P p f [] g a = tt
  All-update P p f (y ∷ ys) g a = ground (arith, g y, All-update P p f ys g a.1)

  pub count-append : (p : R → Bool) (xs ys : List R) → count p (xs ++ ys) ≡ count p xs + count p ys
  unfolding count
  count-append p [] ys = omega arith
  count-append p (x ∷ xs) ys = omega (arith, count-append p xs ys)

  pub select-append :
      (p : R → Bool) (xs ys : List R) → select p (xs ++ ys) ≡ select p xs ++ select p ys
  unfolding select
  select-append p [] ys = refl
  select-append p (x ∷ xs) ys = ground (arith, select-append p xs ys)

  -- An update that keeps what a query reads is not seen by the query.
  pub count-update :
      (q p : R → Bool) (f : R → R) (xs : List R)
      → ((x : R) → p x ≡ true → q (f x) ≡ q x)
      → count q (update p f xs) ≡ count q xs
  unfolding count update
  count-update q p f [] h = refl
  count-update q p f (x ∷ xs) h = ground (arith, h x, count-update q p f xs h)

  pub find-update_self :
      (q : R → Bool) (f : R → R) (xs : List R)
      → ((x : R) → q x ≡ true → q (f x) ≡ true)
      → find q (update q f xs) ≡ Option.map f (find q xs)
  unfolding find update
  find-update_self q f [] h = refl
  find-update_self q f (x ∷ xs) h = ground (arith, h x, find-update_self q f xs h)

  pub find-update_other :
      (q p : R → Bool) (f : R → R) (xs : List R)
      → ((x : R) → p x ≡ true → (q x ≡ false) × (q (f x) ≡ false))
      → find q (update p f xs) ≡ find q xs
  unfolding find update
  find-update_other q p f [] h = refl
  find-update_other q p f (x ∷ xs) h = ground (arith, h x, find-update_other q p f xs h)

  pub find-append :
      (q : R → Bool) (xs ys : List R) → find q xs ≡ none → find q (xs ++ ys) ≡ find q ys
  unfolding find
  find-append q [] ys h = refl
  find-append q (x ∷ xs) ys h = ground (arith, find-append q xs ys)

  pub find-append_some :
      (q : R → Bool) (xs ys : List R) {r : R} → find q xs ≡ some r → find q (xs ++ ys) ≡ some r
  unfolding find
  find-append_some q [] ys h = cc
  find-append_some q (x ∷ xs) ys {r} h = ground (arith, find-append_some q xs ys {r = r})

  pub any-update :
      (q p : R → Bool) (f : R → R) (xs : List R)
      → ((x : R) → p x ≡ true → q x ≡ true → q (f x) ≡ true)
      → any q xs ≡ true
      → any q (update p f xs) ≡ true
  unfolding any update
  any-update q p f [] h e = e
  any-update q p f (x ∷ xs) h e = ground (arith, h x, any-update q p f xs h)

  pub any-append_left : (q : R → Bool) (xs ys : List R) → any q xs ≡ true → any q (xs ++ ys) ≡ true
  unfolding any
  any-append_left q [] ys e = cc
  any-append_left q (x ∷ xs) ys e = ground (arith, any-append_left q xs ys)

  pub any-append_right : (q : R → Bool) (xs ys : List R) → any q ys ≡ true → any q (xs ++ ys) ≡ true
  unfolding any
  any-append_right q [] ys e = e
  any-append_right q (x ∷ xs) ys e = ground (arith, any-append_right q xs ys e)

  -- No row meets the one condition if none meets a weaker one.
  pub count_none :
      (q p : R → Bool) (xs : List R)
      → ((x : R) → q x ≡ true → p x ≡ true)
      → any p xs ≡ false
      → count q xs ≡ 0
  unfolding count any
  count_none q p [] h e = refl
  count_none q p (x ∷ xs) h e = ground (arith, h x, count_none q p xs h)

  pub select_none : (q : R → Bool) (xs : List R) → any q xs ≡ false → select q xs ≡ []
  unfolding select any
  select_none q [] e = refl
  select_none q (x ∷ xs) e = ground (arith, select_none q xs)

  pub find→any : (q : R → Bool) (xs : List R) (x : R) → find q xs ≡ some x → any q xs ≡ true
  unfolding find any
  find→any q [] x e = cc
  find→any q (y ∷ ys) x e = ground (arith, find→any q ys x)

  pub any→find : (q : R → Bool) (xs : List R) → any q xs ≡ true → (x : R) × (find q xs ≡ some x)
  unfolding find any
  any→find q [] e = cc
  any→find q (y ∷ ys) e = elim (Bool-cases (q y)) [
    | inl h ↦ (y, rw h refl)
    | inr h ↦ rw h (any→find q ys (rw h at e))
  ]
