-- ===== src/Prelude/Errors.antt =====
-- A value, or the error that was thrown instead.
use mathlib.Core.Path.{◌≡◌, refl, subst}
use mathlib.Core.Bool.{Bool, true, false}
use ape_server.Prelude.Tests.{if◌then◌else◌}

pub data Result {ℓ} (E : Type 0) (A : Type ℓ) : Type ℓ where
  ok : A → Result E A
  err : E → Result E A

infixl 5 ◌>>=◌ ◌>>◌
abbrev pub ◌>>=◌ {ℓ κ} :
    {E : Type 0} {A : Type ℓ} {B : Type κ} → Result E A → (A → Result E B) → Result E B
ok a >>= f = f a
err e >>= f = err e

abbrev pub ◌>>◌ {ℓ} : {E : Type 0} {B : Type ℓ} → Result E (Unit {0}) → Result E B → Result E B
m >> k = m >>= λ _. k

-- `if (!test) throw e;`
abbrev pub guard : {E : Type 0} → Bool → E → Result E (Unit {0})
guard true e = ok tt
guard false e = err e

-- What holds of a result, if there is one.
abbrev pub Ensures {ℓ κ} : {E : Type 0} {A : Type ℓ} → (A → Type κ) → Result E A → Type κ
Ensures P (ok a) = P a
Ensures P (err e) = Unit

module _ {ℓ κ} {E : Type 0} {B : Type ℓ} (P : B → Type κ) where
  pub Ensures-guard :
      (b : Bool) (e : E) (k : Result E B) → (b ≡ true → Ensures P k) → Ensures P (guard b e >> k)
  Ensures-guard true e k h = h refl
  Ensures-guard false e k h = tt

  pub Ensures-bind {μ} :
      {A : Type μ} (m : Result E A) (f : A → Result E B)
      → ((a : A) → m ≡ ok a → Ensures P (f a))
      → Ensures P (m >>= f)
  Ensures-bind (ok a) f h = h a refl
  Ensures-bind (err e) f h = tt

  pub Ensures-if :
      (b : Bool) (m n : Result E B)
      → (b ≡ true → Ensures P m)
      → (b ≡ false → Ensures P n)
      → Ensures P (if b then m else n)
  Ensures-if true m n h k = h refl
  Ensures-if false m n h k = k refl

  pub Ensures-ok : (r : Result E B) (b : B) → Ensures P r → r ≡ ok b → P b
  Ensures-ok (ok a) b h e = subst (Ensures {E = E} P) e h
  Ensures-ok (err c) b h e = cc

module _ {ℓ} {E : Type 0} {A : Type ℓ} where
  pub ok-injective : (a b : A) → ◌≡◌ {A = Result E A} (ok a) (ok b) → a ≡ b
  ok-injective a b h = cc

  pub err-ne-ok : (e : E) (a : A) → ¬ (◌≡◌ {A = Result E A} (err e) (ok a))
  err-ne-ok e a h = cc

  -- A chain that succeeds is one whose first step does.
  pub >>=-eq-ok {κ} :
      {C : Type κ} (first : Result E A) (next : A → Result E C) {c : C}
      → (first >>= next) ≡ ok c
      → (x : A) × (first ≡ ok x) × (next x ≡ ok c)
  >>=-eq-ok (err e) next q = cc
  >>=-eq-ok (ok x) next q = (x, refl, q)

pub guard-eq-ok :
    {E : Type 0} (b : Bool) (e : E) {u : Unit {0}}
    → ◌≡◌ {A = Result E (Unit {0})} (guard b e) (ok u)
    → b ≡ true
guard-eq-ok true e h = refl
guard-eq-ok false e h = cc
