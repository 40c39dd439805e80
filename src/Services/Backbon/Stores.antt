-- ===== src/Services/Backbon/Stores.antt =====
-- The keys and values of etcd and Redis: `get` after `put`.
use ape_server.Prelude.{
  ◌≡◌, refl, sym, ap, ◌∙◌, inl, inr, true, false, Option, none, some, List, [], ◌∷◌, ◌++◌, Bytes,
  bytes_eq, bytes_eq→eq, bytes_eq_refl, Bool-cases, subst, find, update, any,
}
use ape_server.Services.Backbon.{Entry, is_key, get, put}

abbrev with_value : Bytes → Entry → Entry
with_value v e = record e { value = v }

abbrev value_of : Option Entry → Option Bytes
value_of none = none
value_of (some e) = some e.value

get-value_of : (k : Bytes) (es : List Entry) → get k es ≡ value_of (find (is_key k) es)
get-value_of k es =
    elim (find (is_key k) es)
      as (λ o.
        ◌≡◌ {A = Option Bytes} (elim o [ none ↦ none | some e ↦ some e.value ]) (value_of o)) [
          | none ↦ refl
          | some e ↦ refl
        ]

module _ (k v : Bytes) where
  find_replaced :
      (es : List Entry)
      → any (is_key k) es ≡ true
      → value_of (find (is_key k) (update (is_key k) (with_value v) es)) ≡ some v
  unfolding find any update
  find_replaced [] h = cc
  find_replaced (e ∷ es) h = elim (Bool-cases (bytes_eq e.key k)) [
    | inl t ↦ rw (t, t) refl
    | inr t ↦ rw (t, t) (find_replaced es (rw t at h))
  ]

  find_added :
      (es : List Entry)
      → any (is_key k) es ≡ false
      → value_of (find (is_key k) (es ++ record { key = k; value = v } ∷ [])) ≡ some v
  unfolding find any
  find_added [] h = rw (bytes_eq_refl k) refl
  find_added (e ∷ es) h = elim (Bool-cases (bytes_eq e.key k)) [
    | inl t ↦ cc (rw t at h)
    | inr t ↦ rw t (find_added es (rw t at h))
  ]

  pub get-put_self : (es : List Entry) → get k (put k v es) ≡ some v
  get-put_self es = elim (Bool-cases (any (is_key k) es)) [
    | inl e ↦ rw e (get-value_of k (update (is_key k) (with_value v) es) ∙ find_replaced es e)
    | inr e ↦ rw e (get-value_of k (es ++ record { key = k; value = v } ∷ []) ∙ find_added es e)
  ]

  module _ (j : Bytes) (apart : bytes_eq k j ≡ false) where
    other_key : (e : Entry) → bytes_eq e.key k ≡ true → bytes_eq e.key j ≡ false
    other_key e h = subst (λ x. bytes_eq x j ≡ false) (sym (bytes_eq→eq e.key k h)) apart

    find-update_other :
        (es : List Entry)
        → find (is_key j) (update (is_key k) (with_value v) es) ≡ find (is_key j) es
    unfolding find update
    find-update_other [] = refl
    find-update_other (e ∷ es) = elim (Bool-cases (bytes_eq e.key k)) [
      | inl t ↦ rw (t, other_key e t) (find-update_other es)
      | inr t ↦ rw (t, find-update_other es) refl
    ]

    find_append_other :
        (es : List Entry)
        → find (is_key j) (es ++ record { key = k; value = v } ∷ []) ≡ find (is_key j) es
    unfolding find
    find_append_other [] = rw apart refl
    find_append_other (e ∷ es) = rw (find_append_other es) refl

    pub get-put_other : (es : List Entry) → get j (put k v es) ≡ get j es
    get-put_other es = elim (Bool-cases (any (is_key k) es)) [
      | inl e ↦ rw e (
          get-value_of j (update (is_key k) (with_value v) es)
          ∙ ap value_of (find-update_other es)
          ∙ sym (get-value_of j es))
      | inr e ↦ rw e (
          get-value_of j (es ++ record { key = k; value = v } ∷ [])
          ∙ ap value_of (find_append_other es)
          ∙ sym (get-value_of j es))
    ]
