-- ===== src/Services/Backbon/RoundTrip.antt =====
-- The lists that `register_service` stores and `get_service` reads.
use ape_server.Prelude.{
  ◌≡◌, refl, sym, ap, ◌∙◌, inl, inr, Bool, true, not, ◌&&◌, List, [], ◌∷◌, ◌++◌, Bytes, ◌==◌,
  is_empty, All, arith, Bool-cases, select,
}
use mathlib.Core.List.{append_assoc, append-nil}
use ape_server.Services.Backbon.Stores.{get-put_self}
use ape_server.Services.Backbon.{
  serialize_vector, keep, split, deserialize_vector, Registry, service_key, register_service,
  get_service,
}

abbrev pub has_no_comma : Bytes → Bool
has_no_comma [] = true
has_no_comma (c ∷ cs) = not (c == b',') && has_no_comma cs

split-append :
    (entry x rest : Bytes)
    → has_no_comma x ≡ true
    → split entry (x ++ rest) ≡ split (entry ++ x) rest
unfolding split
split-append entry [] rest h = ap (λ e. split e rest) (sym (append-nil entry))
split-append entry (c ∷ x) rest h = elim (Bool-cases (c == b',')) [
  | inl e ↦ ground arith
  | inr e ↦ rw e (
      split-append (entry ++ c ∷ []) x rest (rw e at h)
      ∙ ap (λ w. split w rest) (append_assoc entry (c ∷ []) x))
]

abbrev pub filled : List Bytes → List Bytes
filled = select (λ x. not (is_empty x))

keep-filled : (x : Bytes) (xs : List Bytes) → keep x (filled xs) ≡ filled (x ∷ xs)
unfolding select
keep-filled x xs = elim (Bool-cases (is_empty x)) [ inl e ↦ rw e refl | inr e ↦ rw e refl ]

-- Entries without a comma come back, but for the empty ones.
deserialize-serialize :
    (xs : List Bytes)
    → All (λ x. has_no_comma x ≡ true) xs
    → deserialize_vector (serialize_vector xs) ≡ filled xs
unfolding deserialize_vector serialize_vector split select is_empty
deserialize-serialize [] h = refl
deserialize-serialize (x ∷ []) h =
    ap (split []) (sym (append-nil x)) ∙ split-append [] x [] h.0 ∙ keep-filled x []
deserialize-serialize (x ∷ y ∷ ys) h =
    split-append [] x (b',' ∷ serialize_vector (y ∷ ys)) h.0
    ∙ ap (keep x) (deserialize-serialize (y ∷ ys) h.1)
    ∙ keep-filled x (y ∷ ys)

-- What was stored whole is given back: the addresses and methods that are not empty, in order, when
-- none has a comma.
pub get_service-register :
    (service : Bytes) (ip_ports methods : List Bytes) (r : Registry)
    → All (λ x. has_no_comma x ≡ true) ip_ports
    → All (λ x. has_no_comma x ≡ true) methods
    → get_service true true service (register_service true true true service ip_ports methods r).1
      ≡ record { is_registered = true; ip_ports = filled ip_ports; methods = filled methods }
unfolding get_service register_service
get_service-register service ip_ports methods r a b =
    rw
      (
        get-put_self (service_key service) (serialize_vector ip_ports) r.etcd,
        get-put_self (service_key service) (serialize_vector methods) r.redis,
        deserialize-serialize ip_ports a,
        deserialize-serialize methods b,
      )
      refl
