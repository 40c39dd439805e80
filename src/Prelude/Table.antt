-- ===== src/Prelude/Table.antt =====
-- A table of the database is the list of its rows, in the order of insertion. The statements that
-- the SQL of the program is made of: SELECT, UPDATE, DELETE and COUNT with a condition.
use Prim.Native.Nat.{ℕ, ◌+◌}
use mathlib.Core.Bool.{Bool, true, false}
use mathlib.Core.Option.{Option, none, some}
use mathlib.Core.List.{List, [], ◌∷◌}
use ape_server.Prelude.Tests.{if◌then◌else◌}

module _ {ℓ} {R : Type ℓ} where
  -- The first row that meets the condition.
  unfoldable pub find : (R → Bool) → List R → Option R
  find p [] = none
  find p (x ∷ xs) = if p x then some x else find p xs

  unfoldable pub select : (R → Bool) → List R → List R
  select p [] = []
  select p (x ∷ xs) = let rest = select p xs in if p x then x ∷ rest else rest

  unfoldable pub update : (R → Bool) → (R → R) → List R → List R
  update p f [] = []
  update p f (x ∷ xs) = (if p x then f x else x) ∷ update p f xs

  unfoldable pub count : (R → Bool) → List R → ℕ
  count p [] = 0
  count p (x ∷ xs) = (if p x then 1 else 0) + count p xs

  unfoldable pub delete : (R → Bool) → List R → List R
  delete p [] = []
  delete p (x ∷ xs) = let rest = delete p xs in if p x then rest else x ∷ rest

  unfoldable pub any : (R → Bool) → List R → Bool
  any p [] = false
  any p (x ∷ xs) = if p x then true else any p xs
