-- ===== src/Prelude/Keys.antt =====
-- What a statement does to the row that a key finds, and to the rows that are counted or deleted.
use Prim.Native.Nat.{◌+◌, ◌≤◌}
use mathlib.Core.Path.{◌≡◌, refl, sym, subst, ap, ◌∙◌}
use mathlib.Core.Bool.{Bool, true, false, ◌&&◌}
use mathlib.Core.Option
use mathlib.Core.Option.{Option, none, some}
use mathlib.Core.List.{List, [], ◌∷◌, ◌++◌}
use mathlib.Core.Logic.{inl, inr}
use native.Mathlib.Omega.{arith}
use ape_server.Prelude.Tests.{Bool-cases, Option-cases, if◌then◌else◌}
use ape_server.Prelude.Lists.{All, All-mono}
use ape_server.Prelude.Table.{find, update, count, delete, any}
use ape_server.Prelude.Rows.{find-append, find-append_some}

module _ {ℓ} {R : Type ℓ} where
  pub find-update :
      (q p : R → Bool) (f : R → R) (xs : List R)
      → ((x : R) → p x ≡ true → q (f x) ≡ q x)
      → find q (update p f xs) ≡ Option.map (λ x. if p x then f x else x) (find q xs)
  unfolding find update
  find-update q p f [] h = refl
  find-update q p f (x ∷ xs) h = ground (arith, h x, find-update q p f xs h)

  module _ {κ} (P : R → Type κ) (q : R → Bool) where
    pub found-update :
        (p : R → Bool) (f : R → R) (xs : List R)
        → ((x : R) → p x ≡ true → q (f x) ≡ q x)
        → ((x : R) → find q xs ≡ some x → P (if p x then f x else x))
        → (r : R) → find q (update p f xs) ≡ some r
        → P r
    found-update p f xs same h r e = elim (Option-cases (find q xs)) [
      | inl n ↦ absurd (
          Option.none-ne-some r
            (sym (find-update q p f xs same ∙ ap (Option.map (λ y. if p y then f y else y)) n) ∙ e))
      | inr (x, n) ↦
          subst P
            (Option.some-injective (if p x then f x else x) r (
              sym (find-update q p f xs same ∙ ap (Option.map (λ y. if p y then f y else y)) n)
              ∙ e))
            (h x n)
    ]

    pub found-append :
        (xs : List R) (y : R)
        → ((x : R) → find q xs ≡ some x → P x)
        → (find q xs ≡ none → q y ≡ true → P y)
        → (r : R) → find q (xs ++ y ∷ []) ≡ some r
        → P r
    unfolding find
    found-append xs y h k r e = elim (Option-cases (find q xs)) [
      | inr (x, n) ↦
          subst P (Option.some-injective x r (sym (find-append_some q xs (y ∷ []) n) ∙ e)) (h x n)
      | inl n ↦ elim (Bool-cases (q y)) [
        | inl t ↦
            subst P (Option.some-injective y r (sym (find-append q xs (y ∷ []) n ∙ rw t refl) ∙ e))
              (k n t)
        | inr t ↦ absurd (Option.none-ne-some r (sym (find-append q xs (y ∷ []) n ∙ rw t refl) ∙ e))
      ]
    ]

  pub find-delete :
      (q p : R → Bool) (xs : List R)
      → ((x : R) → q x ≡ true → p x ≡ false)
      → find q (delete p xs) ≡ find q xs
  unfolding find delete
  find-delete q p [] h = refl
  find-delete q p (x ∷ xs) h = ground (arith, h x, find-delete q p xs h)

  pub find-delete_all :
      (q p : R → Bool) (xs : List R)
      → ((x : R) → q x ≡ true → p x ≡ true)
      → find q (delete p xs) ≡ none
  unfolding find delete
  find-delete_all q p [] h = refl
  find-delete_all q p (x ∷ xs) h = ground (arith, h x, find-delete_all q p xs h)

  pub count-delete :
      (q p : R → Bool) (xs : List R)
      → ((x : R) → p x ≡ true → q x ≡ true)
      → count q (delete p xs) + count p xs ≡ count q xs
  unfolding count delete
  count-delete q p [] h = omega arith
  count-delete q p (x ∷ xs) h = ground (arith, h x, count-delete q p xs h)

  pub count-delete_other :
      (q p : R → Bool) (xs : List R)
      → ((x : R) → p x ≡ true → q x ≡ false)
      → count q (delete p xs) ≡ count q xs
  unfolding count delete
  count-delete_other q p [] h = refl
  count-delete_other q p (x ∷ xs) h = ground (arith, h x, count-delete_other q p xs h)

  pub All-delete {κ} :
      (P : R → Type κ) (p : R → Bool) (xs : List R)
      → All P xs
      → All (λ x. P x × (p x ≡ false)) (delete p xs)
  unfolding delete
  All-delete P p [] a = tt
  All-delete P p (x ∷ xs) a = elim (Bool-cases (p x)) [
    | inl e ↦ rw e (All-delete P p xs a.1)
    | inr e ↦ rw e ((a.0, e), All-delete P p xs a.1)
  ]

  pub count_zero : (q : R → Bool) (xs : List R) → All (λ x. q x ≡ false) xs → count q xs ≡ 0
  unfolding count
  count_zero q [] a = refl
  count_zero q (x ∷ xs) a = ground (arith, a.0, count_zero q xs a.1)

  pub none→any : (q : R → Bool) (xs : List R) → find q xs ≡ none → any q xs ≡ false
  unfolding find any
  none→any q [] e = refl
  none→any q (x ∷ xs) e = ground (arith, none→any q xs)

  pub any-delete :
      (q p : R → Bool) (xs : List R)
      → any q xs ≡ true
      → any (λ x. p x && q x) xs ≡ false
      → any q (delete p xs) ≡ true
  unfolding any delete
  any-delete q p [] h k = h
  any-delete q p (x ∷ xs) h k = ground (arith, any-delete q p xs)

  pub update-All {κ} :
      (P : R → Type κ) (p : R → Bool) (f : R → R) (xs : List R)
      → ((x : R) → p x ≡ true → P (f x))
      → ((x : R) → p x ≡ false → P x)
      → All P (update p f xs)
  unfolding update
  update-All P p f [] h k = tt
  update-All P p f (x ∷ xs) h k = ground (arith, h x, k x, update-All P p f xs h k)

  pub update_same :
      (p : R → Bool) (f : R → R) (xs : List R)
      → All (λ x. p x ≡ true → f x ≡ x) xs
      → update p f xs ≡ xs
  unfolding update
  update_same p f [] a = refl
  update_same p f (x ∷ xs) a = elim (Bool-cases (p x)) [
    | inl e ↦ rw (e, a.0 e, update_same p f xs a.1) refl
    | inr e ↦ rw (e, update_same p f xs a.1) refl
  ]

  pub unmatched : (p : R → Bool) (xs : List R) → any p xs ≡ false → All (λ x. p x ≡ false) xs
  unfolding any
  unmatched p [] h = tt
  unmatched p (x ∷ xs) h = ground (arith, unmatched p xs)

  pub any-delete_other :
      (q p : R → Bool) (xs : List R)
      → ((x : R) → q x ≡ true → p x ≡ false)
      → any q (delete p xs) ≡ any q xs
  unfolding any delete
  any-delete_other q p [] h = refl
  any-delete_other q p (x ∷ xs) h = ground (arith, h x, any-delete_other q p xs h)

  pub any-delete_own :
      (q p : R → Bool) (xs : List R)
      → ((x : R) → q x ≡ true → p x ≡ true)
      → any q (delete p xs) ≡ false
  unfolding any delete
  any-delete_own q p [] h = refl
  any-delete_own q p (x ∷ xs) h = ground (arith, h x, any-delete_own q p xs h)

  pub count-delete_own : (p : R → Bool) (xs : List R) → count p (delete p xs) ≡ 0
  unfolding count delete
  count-delete_own p [] = refl
  count-delete_own p (x ∷ xs) = ground (arith, count-delete_own p xs)

  pub zero→All : (q : R → Bool) (xs : List R) → count q xs ≡ 0 → All (λ x. q x ≡ false) xs
  unfolding count
  zero→All q [] e = tt
  zero→All q (x ∷ xs) e = ground (arith, zero→All q xs)

  pub none→zero : (q : R → Bool) (xs : List R) → any q xs ≡ false → count q xs ≡ 0
  none→zero q xs e = count_zero q xs (unmatched q xs e)

  pub found→count :
      (q f : R → Bool) (xs : List R) {x : R} → find f xs ≡ some x → q x ≡ true → 1 ≤ count q xs
  unfolding find count
  found→count q f [] e t = cc
  found→count q f (y ∷ xs) {x} e t = elim (Bool-cases (f y)) [
    | inl h ↦
        let same : y ≡ x = Option.some-injective y x (rw h at e) in rw (ap q same ∙ t) (omega arith)
    | inr h ↦ omega (arith, found→count q f xs {x = x} (rw h at e) t)
  ]

  -- Where at most one row meets a condition, a row that is found and meets it is the only one.
  pub count_unique :
      (q f : R → Bool) (xs : List R) (x : R)
      → find f xs ≡ some x
      → q x ≡ true
      → count q xs ≤ 1
      → All (λ y. q y ≡ true → y ≡ x) xs
  unfolding find count
  count_unique q f [] x e t c = tt
  count_unique q f (y ∷ xs) x e t c = elim (Bool-cases (f y)) [
    | inl h ↦
        let same : y ≡ x = Option.some-injective y x (rw h at e) in
        let none_left : count q xs ≡ 0 = omega (arith, rw (ap q same ∙ t) at c) in
        ((λ _. same), All-mono _ _ xs (λ z n m. cc) (zero→All q xs none_left))
    | inr h ↦
        let there : find f xs ≡ some x = rw h at e in
        (
          (λ m. absurd (omega (arith, rw m at c, found→count q f xs there t))),
          count_unique q f xs x there t (ground arith),
        )
  ]

  -- From what held of each row to what holds of it after an update.
  pub All-update_to {κ μ} :
      (P : R → Type κ) (Q : R → Type μ) (p : R → Bool) (f : R → R) (xs : List R)
      → ((x : R) → p x ≡ true → P x → Q (f x))
      → ((x : R) → p x ≡ false → P x → Q x)
      → All P xs
      → All Q (update p f xs)
  unfolding update
  All-update_to P Q p f [] g h a = tt
  All-update_to P Q p f (x ∷ xs) g h a = elim (Bool-cases (p x)) [
    | inl e ↦ rw e (g x e a.0, All-update_to P Q p f xs g h a.1)
    | inr e ↦ rw e (h x e a.0, All-update_to P Q p f xs g h a.1)
  ]

  pub any-append_last :
      (q : R → Bool) (xs : List R) (y : R)
      → any q xs ≡ false
      → q y ≡ false
      → any q (xs ++ y ∷ []) ≡ false
  unfolding any
  any-append_last q [] y h k = rw k refl
  any-append_last q (x ∷ xs) y h k = ground (arith, any-append_last q xs y)

  pub any-updated :
      (q p : R → Bool) (f : R → R) (xs : List R)
      → ((x : R) → p x ≡ true → q (f x) ≡ true)
      → any p xs ≡ true
      → any q (update p f xs) ≡ true
  unfolding any update
  any-updated q p f [] h e = cc
  any-updated q p f (x ∷ xs) h e = ground (arith, h x, any-updated q p f xs h)
