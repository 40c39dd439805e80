-- ===== src/Prelude/Octets.antt =====
-- A `std::string` is the list of its bytes; its test for equality decides equality.
use Prim.Native.Nat.{ℕ, ◌+◌}
use Prim.Native.Char.{code}
use Prim.Native.String.{String}
use mathlib.Core.Path.{◌≡◌, refl}
use mathlib.Core.Bool.{Bool, true, false, ◌&&◌}
use mathlib.Core.List.{List, [], ◌∷◌}
use native.Mathlib.Omega.{arith}
use ape_server.Prelude.Tests.{◌==◌, ==_refl, leb, if◌then◌else◌}

abbrev pub Bytes : Type 0
Bytes = List ℕ

-- The bytes of an ASCII text.
abbrev pub codes : String → Bytes
codes String.[] = []
codes (String.◌∷◌ c s) = code c ∷ codes s

unfoldable pub bytes_eq : Bytes → Bytes → Bool
bytes_eq [] [] = true
bytes_eq [] (y ∷ ys) = false
bytes_eq (x ∷ xs) [] = false
bytes_eq (x ∷ xs) (y ∷ ys) = x == y && bytes_eq xs ys

pub bytes_eq→eq : (xs ys : Bytes) → bytes_eq xs ys ≡ true → xs ≡ ys
unfolding bytes_eq
bytes_eq→eq [] [] h = refl
bytes_eq→eq [] (y ∷ ys) h = cc
bytes_eq→eq (x ∷ xs) [] h = cc
bytes_eq→eq (x ∷ xs) (y ∷ ys) h = ground (arith, bytes_eq→eq xs ys)

pub bytes_eq_refl : (xs : Bytes) → bytes_eq xs xs ≡ true
unfolding bytes_eq
bytes_eq_refl [] = refl
bytes_eq_refl (x ∷ xs) = ground (arith, bytes_eq_refl xs)

-- How MySQL compares the ASCII texts of a column that is not declared binary: without case.
abbrev lower : ℕ → ℕ
lower x = if leb 65 x && leb x 90 then x + 32 else x

unfoldable pub collates : Bytes → Bytes → Bool
collates [] [] = true
collates [] (y ∷ ys) = false
collates (x ∷ xs) [] = false
collates (x ∷ xs) (y ∷ ys) = lower x == lower y && collates xs ys

pub collates_refl : (xs : Bytes) → collates xs xs ≡ true
unfolding collates
collates_refl [] = refl
collates_refl (x ∷ xs) = rw (==_refl (lower x)) (collates_refl xs)

-- Texts that do not collate are not equal.
pub collates_apart : (a b : Bytes) → collates a b ≡ false → bytes_eq a b ≡ false
unfolding collates bytes_eq
collates_apart [] [] h = h
collates_apart [] (y ∷ ys) h = refl
collates_apart (x ∷ xs) [] h = refl
collates_apart (x ∷ xs) (y ∷ ys) h = ground (arith, collates_apart xs ys)

-- Texts that collate with a common one collate with the same texts.
pub collates_same :
    (x a b y : Bytes) → collates x a ≡ true → collates x b ≡ true → collates y a ≡ collates y b
unfolding collates
collates_same [] [] [] y h k = refl
collates_same [] [] (b ∷ bs) y h k = cc
collates_same [] (a ∷ as') b y h k = cc
collates_same (x ∷ xs) [] b y h k = cc
collates_same (x ∷ xs) (a ∷ as') [] y h k = cc
collates_same (x ∷ xs) (a ∷ as') (b ∷ bs) [] h k = refl
collates_same (x ∷ xs) (a ∷ as') (b ∷ bs) (y ∷ ys) h k = ground (arith, collates_same xs as' bs ys)

unfoldable pub is_empty : Bytes → Bool
is_empty [] = true
is_empty (x ∷ xs) = false
