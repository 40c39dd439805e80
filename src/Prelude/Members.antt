-- ===== src/Prelude/Members.antt =====
-- What is in a list.
use mathlib.Core.Path.{◌≡◌, refl, subst}
use mathlib.Core.Bool.{Bool}
use mathlib.Core.List.{List, [], ◌∷◌, ◌++◌}
use mathlib.Core.Logic.{◌⊎◌, inl, inr}
use ape_server.Prelude.Lists.{All, All-mono}
use ape_server.Prelude.Table.{select}
use ape_server.Prelude.Rows.{All-select}

module _ {A : Type 0} where
  abbrev pub In : A → List A → Type 0
  In a [] = ⊥
  In a (x ∷ xs) = (x ≡ a) ⊎ In a xs

  pub In-append : (a : A) (xs ys : List A) → In a xs → In a (xs ++ ys)
  In-append a [] ys h = elim h [ ]
  In-append a (x ∷ xs) ys (inl e) = inl e
  In-append a (x ∷ xs) ys (inr h) = inr (In-append a xs ys h)

  pub In-last : (a : A) (xs : List A) → In a (xs ++ a ∷ [])
  In-last a [] = inl refl
  In-last a (x ∷ xs) = inr (In-last a xs)

  pub All-In {κ} : (P : A → Type κ) (xs : List A) (a : A) → All P xs → In a xs → P a
  All-In P [] a ps h = elim h [ ]
  All-In P (x ∷ xs) a ps (inl e) = subst P e ps.0
  All-In P (x ∷ xs) a ps (inr h) = All-In P xs a ps.1 h

  In-All : (xs : List A) → All (λ a. In a xs) xs
  In-All [] = tt
  In-All (x ∷ xs) =
      (inl refl, All-mono (λ a. In a xs) (λ a. In a (x ∷ xs)) xs (λ a h. inr h) (In-All xs))

  pub select-In : (p : A → Bool) (xs : List A) → All (λ a. In a xs) (select p xs)
  select-In p xs = All-select (λ a. In a xs) p xs (In-All xs)
