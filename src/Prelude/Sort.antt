-- ===== src/Prelude/Sort.antt =====
-- ORDER BY a numeric key, ascending, as insertion sort: rows of equal key keep their order.
use Prim.Native.Nat.{ℕ}
use mathlib.Core.List.{List, [], ◌∷◌}
use native.Mathlib.Omega.{arith}
use ape_server.Prelude.Tests.{leb, if◌then◌else◌}
use ape_server.Prelude.Lists.{All}

module _ {ℓ} {R : Type ℓ} where
  unfoldable pub insert_by : (R → ℕ) → R → List R → List R
  insert_by key x [] = x ∷ []
  insert_by key x (y ∷ ys) = if leb (key x) (key y) then x ∷ y ∷ ys else y ∷ insert_by key x ys

  unfoldable pub order_by : (R → ℕ) → List R → List R
  unfolding insert_by
  order_by key [] = []
  order_by key (x ∷ xs) = insert_by key x (order_by key xs)

  pub insert_by-All {κ} :
      (P : R → Type κ) (key : R → ℕ) (x : R) (ys : List R)
      → P x
      → All P ys
      → All P (insert_by key x ys)
  unfolding insert_by
  insert_by-All P key x [] h hs = (h, tt)
  insert_by-All P key x (y ∷ ys) h hs = ground (arith, insert_by-All P key x ys h hs.1)

  pub order_by-All {κ} :
      (P : R → Type κ) (key : R → ℕ) (xs : List R) → All P xs → All P (order_by key xs)
  unfolding order_by
  order_by-All P key [] h = tt
  order_by-All P key (x ∷ xs) h = insert_by-All P key x _ h.0 (order_by-All P key xs h.1)
