-- ===== src/Text/Hex.antt =====
-- `hex` and `unhex` of src/storage/mysqlhandler.cpp, in which group requests and replies are kept.
use ape_server.Prelude.{
  ℕ, ◌+◌, ◌-◌, ◌*◌, ◌/◌, ◌%◌, ◌<◌, ◌≡◌, refl, sym, ◌∙◌, ap, ◌||◌, [], ◌∷◌, Bytes, All, arith, ltb,
  leb, if◌then◌else◌, Option, some, none,
}
use mathlib.Core.Option

-- "0123456789abcdef"[n]
hex_digit : ℕ → ℕ
hex_digit n = if ltb n 10 then 48 + n else 87 + n

unfoldable pub hex : Bytes → Bytes
unfolding hex_digit
hex [] = []
hex (c ∷ cs) = hex_digit (c / 16) ∷ hex_digit (c % 16) ∷ hex cs

-- `c <= '9' ? c - '0' : c - 'a' + 10` modulo 256, to which `char(…)` cuts it; 256 is added so that
-- nothing is negative. A `char` of 128 and above is negative, and so at most '9'.
digit : ℕ → ℕ
digit c = if leb c 57 || leb 128 c then c + 256 - 48 else c + 256 - 97 + 10

-- An odd length is CACHE_ERROR; otherwise two digits make a byte.
unfoldable pub unhex : Bytes → Option Bytes
unfolding digit
unhex [] = some []
unhex (c ∷ []) = none
unhex (c ∷ d ∷ rest) = Option.map (λ bs. (digit c * 16 + digit d) % 256 ∷ bs) (unhex rest)

hex_digit-digit : (n : ℕ) → n < 16 → digit (hex_digit n) ≡ n + 256
unfolding hex_digit digit
hex_digit-digit n h = ground arith

byte : (b : ℕ) → b < 256 → (digit (hex_digit (b / 16)) * 16 + digit (hex_digit (b % 16))) % 256 ≡ b
byte b h =
    omega (arith, hex_digit-digit (b / 16) (omega arith), hex_digit-digit (b % 16) (omega arith))

-- What `hex` writes, `unhex` reads back.
pub unhex-hex : (bs : Bytes) → All (λ b. b < 256) bs → unhex (hex bs) ≡ some bs
unfolding hex unhex
unhex-hex [] h = refl
unhex-hex (b ∷ bs) h = rw (unhex-hex bs h.1) (ap (λ d. some (d ∷ bs)) (byte b h.0))

pub hex_injective :
    (xs ys : Bytes) → All (λ b. b < 256) xs → All (λ b. b < 256) ys → hex xs ≡ hex ys → xs ≡ ys
hex_injective xs ys hx hy e =
    Option.some-injective xs ys (sym (unhex-hex xs hx) ∙ ap unhex e ∙ unhex-hex ys hy)
