-- ===== src/Util/Tests.antt =====
-- A clock that moves on with each reading, and the theorems applied to it.
use ape_server.Prelude.{
  ℕ, ◌+◌, ◌*◌, ◌/◌, ◌%◌, ◌^◌, ◌≡◌, refl, List, [], ◌∷◌, ok, arith, ◌==◌, if◌then◌else◌,
}
use ape_server.Util.Snowflake.{Generator, epoch, generator, pack, settle, wait, next_id, generate}
use ape_server.Util.Increasing.{IsIncreasing, generate-IsIncreasing}
use ape_server.Util.Issued.{next_id-names}

-- Two readings in each millisecond.
abbrev clock : ℕ → ℕ
clock n = epoch + 5 + n / 2

abbrev ids : List ℕ
ids = 21110784 ∷ 21110785 ∷ 25305088 ∷ []

generated : generate clock 3 3 (generator 2 1) ≡ ok ids
unfolding generate next_id settle wait pack
generated = refl

-- The clock fell back below its first reading once, and was waited for.
abbrev uneven : ℕ → ℕ
uneven n = if n == 1 then epoch + 4 else epoch + 5 + n

waited_for : generate uneven 3 2 (generator 2 1) ≡ ok (21110784 ∷ (7 * 2 ^ 22 + 139264) ∷ [])
unfolding generate next_id settle wait pack
waited_for = refl

generate-IsIncreasing_example : IsIncreasing ids
generate-IsIncreasing_example =
    generate-IsIncreasing clock 3 3 2 1 ids (λ m n le lt. absurd (omega arith)) (λ k. omega arith)
      (omega arith) (omega arith) generated

next_id-names_example :
    (p : ℕ × Generator) × (next_id clock 3 (generator 2 1) ≡ ok p)
    × (p.0 / 2 ^ 17 % 32 ≡ 1)
    × (p.0 / 2 ^ 12 % 32 ≡ 2)
next_id-names_example =
    next_id-names clock 2 (generator 2 1)
      (record { onward = λ m n le. omega arith; moves = λ n. omega arith }) (λ k. omega arith)
      (record { worker = omega arith; datacenter = omega arith; sequence = omega arith; last = tt })
