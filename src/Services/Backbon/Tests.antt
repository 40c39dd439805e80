-- ===== src/Services/Backbon/Tests.antt =====
-- A service that registers, two users, and the theorems applied to them.
use ape_server.Prelude.{◌≡◌, refl, true, List, [], ◌∷◌, Bytes, codes, is_empty}
use ape_server.Services.Backbon.{
  serialize_vector, deserialize_vector, Registry, register_service, get_service,
}
use ape_server.Services.Backbon.RoundTrip.{filled, get_service-register}

abbrev nothing : Registry
nothing = record { etcd = []; redis = [] }

abbrev addresses : List Bytes
addresses = codes "10.0.0.1:50051" ∷ codes "10.0.0.2:50051" ∷ []

joined : serialize_vector (codes "a" ∷ codes "b" ∷ codes "c" ∷ []) ≡ codes "a,b,c"
unfolding serialize_vector
joined = refl

skipped : deserialize_vector (codes ",a,,b,") ≡ codes "a" ∷ codes "b" ∷ []
unfolding deserialize_vector is_empty
skipped = refl

get_service-register_example :
    get_service true true
      (codes "push")
      (register_service true true true (codes "push") addresses (codes "Push" ∷ []) nothing).1
    ≡ record {
      is_registered = true;
      ip_ports = filled addresses;
      methods = filled (codes "Push" ∷ []);
    }
get_service-register_example =
    get_service-register (codes "push") addresses (codes "Push" ∷ []) nothing (refl, (refl, tt))
      (refl, tt)
