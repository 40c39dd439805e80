-- ===== src/Text/Decimal.antt =====
-- std::to_string of an unsigned number, and `groupId` of src/storage/mysqlhandler.cpp, which reads
-- a group's identifier back.
use native.Mathlib.Nat.{pow-succ'}
use ape_server.Prelude.{
  ℕ, zero, suc, ◌+◌, ◌-◌, ◌*◌, ◌/◌, ◌%◌, ◌^◌, ◌≤◌, ◌<◌, ◌≡◌, refl, ◌∙◌, ap, Bool, true, ◌&&◌, ◌||◌,
  not, [], ◌∷◌, Bytes, arith, ltb, leb, ◌==◌, if◌then◌else◌, length, is_empty, Bool-cases, inl, inr,
  Option, some, none,
}

unfoldable pub print_digits : ℕ → ℕ → Bytes → Bytes
print_digits zero n rest = rest
print_digits (suc fuel) n rest =
    let longer = print_digits fuel (n / 10) ((48 + n % 10) ∷ rest) in
    if n / 10 == 0 then (48 + n % 10) ∷ rest else longer

-- A number has at most as many digits as its value says, and one more.
unfoldable pub to_string : ℕ → Bytes
unfolding print_digits
to_string n = print_digits (suc n) n []

-- `find_first_not_of("0123456789") == npos`
unfoldable pub all_digits : Bytes → Bool
all_digits [] = true
all_digits (c ∷ cs) = (leb 48 c && leb c 57) && all_digits cs

unfoldable pub read_digits : ℕ → Bytes → ℕ
read_digits n [] = n
read_digits n (c ∷ cs) = read_digits (n * 10 + (c - 48)) cs

-- `std::stoull` throws above the range of 64 bits; zero and every failure are INVALID_GROUP.
unfoldable pub group_id : Bytes → Option ℕ
unfolding all_digits read_digits is_empty
group_id s =
    if is_empty s || ltb 20 (length s) || not (all_digits s)
    then none
    else let id = read_digits 0 s in if ltb id (2 ^ 64) && not (id == 0) then some id else none

pub read-print_digits :
    (fuel n : ℕ) (rest : Bytes)
    → n < fuel
    → read_digits 0 (print_digits fuel n rest) ≡ read_digits n rest
unfolding print_digits read_digits
read-print_digits zero n rest h = absurd (omega arith)
read-print_digits (suc fuel) n rest h = elim (Bool-cases (n / 10 == 0)) [
  | inl e ↦ rw e (ap (λ k. read_digits k rest) (ground arith))
  | inr e ↦ rw e (
      read-print_digits fuel (n / 10) ((48 + n % 10) ∷ rest) (ground arith)
      ∙ ap (λ k. read_digits k rest) (omega arith))
]

pub all-print_digits :
    (fuel n : ℕ) (rest : Bytes)
    → all_digits rest ≡ true
    → all_digits (print_digits fuel n rest) ≡ true
unfolding print_digits all_digits
all-print_digits zero n rest h = h
all-print_digits (suc fuel) n rest h =
    ground (arith, all-print_digits fuel (n / 10) ((48 + n % 10) ∷ rest))

tenth : (n m : ℕ) → n < 10 * m → n / 10 < m
tenth n m h = omega arith

length-print_digits :
    (k fuel n : ℕ) (rest : Bytes)
    → n < 10 ^ suc k
    → length (print_digits fuel n rest) ≤ suc k + length rest
unfolding print_digits
length-print_digits k zero n rest h = omega arith
length-print_digits zero (suc fuel) n rest h = ground arith
length-print_digits (suc k) (suc fuel) n rest h = ground (
  arith,
  length-print_digits k fuel (n / 10) ((48 + n % 10) ∷ rest)
      (tenth n (10 ^ suc k) (rw pow-succ' at h)),
)

group_id_of_digits :
    (s : Bytes) (n : ℕ)
    → 0 < n
    → n < 2 ^ 64
    → length s ≤ 20
    → all_digits s ≡ true
    → read_digits 0 s ≡ n
    → group_id s ≡ some n
unfolding group_id read_digits
group_id_of_digits [] n pos fits short digits value = absurd (omega arith)
group_id_of_digits (c ∷ cs) n pos fits short digits value = ground arith

-- The decimal text of a key below 2 ^ 64 is read back as that key.
pub group_id-to_string : (n : ℕ) → 0 < n → n < 2 ^ 64 → group_id (to_string n) ≡ some n
unfolding to_string all_digits read_digits
group_id-to_string n pos fits =
    group_id_of_digits (print_digits (suc n) n []) n pos fits
      (length-print_digits 19 (suc n) n [] (omega arith)) (all-print_digits (suc n) n [] refl)
      (read-print_digits (suc n) n [] (omega arith))
