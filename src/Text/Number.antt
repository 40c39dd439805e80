-- ===== src/Text/Number.antt =====
-- std::stoull, and `find` of a comma with the `substr` on its two sides, as
-- src/services/auth_service/server.cpp reads a token's value with them.
use mathlib.Core.Option
use ape_server.Prelude.{
  ℕ, zero, suc, ◌+◌, ◌-◌, ◌/◌, ◌%◌, ◌^◌, ◌<◌, ◌≡◌, refl, inl, inr, Bool, true, false, ◌&&◌, ◌||◌,
  [], ◌∷◌, ◌++◌, Bytes, arith, ltb, leb, ◌==◌, if◌then◌else◌, is_empty, Bool-cases, Option, some,
  none,
}
use ape_server.Text.Decimal.{
  to_string, print_digits, all_digits, read_digits, read-print_digits, all-print_digits,
}

-- `isspace` in the C locale
abbrev is_space : ℕ → Bool
is_space c = c == 32 || (leb 9 c && leb c 13)

skip_spaces : Bytes → Bytes
skip_spaces [] = []
skip_spaces (c ∷ cs) = let rest = skip_spaces cs in if is_space c then rest else c ∷ cs

leading_digits : Bytes → Bytes
leading_digits [] = []
leading_digits (c ∷ cs) =
    let rest = leading_digits cs in if leb 48 c && leb c 57 then c ∷ rest else []

-- No digits are invalid_argument; a number above the range is out_of_range.
magnitude : Bytes → Option ℕ
unfolding is_empty leading_digits read_digits
magnitude s =
    let digits = leading_digits s in
    if is_empty digits
    then none
    else let n = read_digits 0 digits in if ltb n (2 ^ 64) then some n else none

-- After a minus sign, the number is negated modulo 2 ^ 64.
signed : Bytes → Option ℕ
unfolding magnitude
signed [] = none
signed (c ∷ cs) =
    if c == b'-'
    then Option.map (λ n. (2 ^ 64 - n) % 2 ^ 64) (magnitude cs)
    else if c == b'+'
    then magnitude cs
    else magnitude (c ∷ cs)

unfoldable pub stoull : Bytes → Option ℕ
unfolding skip_spaces signed
stoull s = signed (skip_spaces s)

-- What is before the first comma, and what is after it.
unfoldable pub split_comma : Bytes → Option (Bytes × Bytes)
split_comma [] = none
split_comma (c ∷ cs) =
    let rest = split_comma cs in
    if c == b',' then some ([], cs) else Option.map (λ (p : Bytes × Bytes). (c ∷ p.0, p.1)) rest

leading_digits_all : (s : Bytes) → all_digits s ≡ true → leading_digits s ≡ s
unfolding all_digits leading_digits
leading_digits_all [] h = refl
leading_digits_all (c ∷ cs) h = ground (arith, leading_digits_all cs)

stoull_of_digits :
    (c : ℕ) (cs : Bytes) (n : ℕ)
    → all_digits (c ∷ cs) ≡ true
    → read_digits 0 (c ∷ cs) ≡ n
    → n < 2 ^ 64
    → stoull (c ∷ cs) ≡ some n
unfolding stoull skip_spaces signed magnitude is_empty all_digits
stoull_of_digits c cs n d e b =
    let first : (leb 48 c && leb c 57) ≡ true = ground arith in
    let plain : is_space c ≡ false = ground arith in
    let no_minus : (c == 45) ≡ false = ground arith in
    let no_plus : (c == 43) ≡ false = ground arith in
    rw (plain, no_minus, no_plus, leading_digits_all (c ∷ cs) d, e) (ground arith)

printed : (fuel n c : ℕ) (cs : Bytes) → is_empty (print_digits fuel n (c ∷ cs)) ≡ false
unfolding print_digits is_empty
printed zero n c cs = refl
printed (suc fuel) n c cs = elim (Bool-cases (n / 10 == 0)) [
  | inl e ↦ rw e refl
  | inr e ↦ rw e (printed fuel (n / 10) (48 + n % 10) (c ∷ cs))
]

to_string-printed : (n : ℕ) → is_empty (to_string n) ≡ false
unfolding to_string print_digits is_empty
to_string-printed n = elim (Bool-cases (n / 10 == 0)) [
  | inl e ↦ rw e refl
  | inr e ↦ rw e (printed n (n / 10) (48 + n % 10) [])
]

pub all_digits-to_string : (n : ℕ) → all_digits (to_string n) ≡ true
unfolding to_string all_digits
all_digits-to_string n = all-print_digits (suc n) n [] refl

read_digits-to_string : (n : ℕ) → read_digits 0 (to_string n) ≡ n
unfolding to_string read_digits
read_digits-to_string n = read-print_digits (suc n) n [] (omega arith)

-- The decimal text of a number of 64 bits is read back, whichever number it is.
pub stoull-to_string : (n : ℕ) → n < 2 ^ 64 → stoull (to_string n) ≡ some n
unfolding is_empty all_digits read_digits
stoull-to_string n b =
    read (to_string n) (to_string-printed n) (all_digits-to_string n) (read_digits-to_string n)
  where
    read :
        (s : Bytes)
        → is_empty s ≡ false
        → all_digits s ≡ true
        → read_digits 0 s ≡ n
        → stoull s ≡ some n
    read [] q d e = cc
    read (c ∷ cs) q d e = stoull_of_digits c cs n d e b

pub split_comma-digits :
    (s rest : Bytes) → all_digits s ≡ true → split_comma (s ++ b',' ∷ rest) ≡ some (s, rest)
unfolding split_comma all_digits
split_comma-digits [] rest h = refl
split_comma-digits (c ∷ cs) rest h =
    let other : (c == 44) ≡ false = ground arith in
    rw (other, split_comma-digits cs rest (ground arith)) refl
