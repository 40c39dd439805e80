-- ===== src/Services/Backbon.antt =====
-- The service of src/services/backbon_service: who is online, and where the services are. Whether
-- etcd, Redis and MySQL answer is given.
use ape_server.Text.Decimal.{to_string}
use ape_server.Prelude.{
  ℕ, Bool, true, false, ◌&&◌, Option, none, some, List, [], ◌∷◌, ◌++◌, Bytes, bytes_eq, codes, ◌==◌,
  if◌then◌else◌, is_empty, find, update, any, delete,
}
mod Stores
pub mod RoundTrip
pub mod Online
mod Tests

-- A key of etcd or Redis with its value.
pub record Entry : Type 0 where
  pub key : Bytes
  pub value : Bytes

abbrev pub is_key : Bytes → Entry → Bool
is_key k e = bytes_eq e.key k

abbrev pub get : Bytes → List Entry → Option Bytes
get k es = elim (find (is_key k) es) [ none ↦ none | some e ↦ some e.value ]

abbrev pub put : Bytes → Bytes → List Entry → List Entry
put k v es =
    if any (is_key k) es
    then update (is_key k) (λ (e : Entry). record e { value = v }) es
    else es ++ record { key = k; value = v } ∷ []

-- The entries joined by commas.
unfoldable pub serialize_vector : List Bytes → Bytes
serialize_vector [] = []
serialize_vector (x ∷ []) = x
serialize_vector (x ∷ y ∷ ys) = x ++ b',' ∷ serialize_vector (y ∷ ys)

abbrev pub keep : Bytes → List Bytes → List Bytes
keep entry rest = if is_empty entry then rest else entry ∷ rest

-- `std::getline` up to each comma; an empty entry is skipped.
pub split : Bytes → Bytes → List Bytes
split entry [] = keep entry []
split entry (c ∷ cs) =
    let next = split [] cs in
    let longer = split (entry ++ c ∷ []) cs in if c == b',' then keep entry next else longer

unfoldable pub deserialize_vector : Bytes → List Bytes
unfolding split
deserialize_vector s = split [] s

pub record Registry : Type 0 where
  pub etcd : List Entry
  pub redis : List Entry

abbrev pub service_key : Bytes → Bytes
service_key service = codes "/services/" ++ service

pub data Registered : Type 0 where
  registered no_lease no_node no_methods : Registered

-- Whether etcd grants a lease and stores the node, and Redis the methods. What a lease or a time to
-- live takes away later is `delete`.
unfoldable pub register_service :
    Bool → Bool → Bool → Bytes → List Bytes → List Bytes → Registry → Registered × Registry
register_service leases stores caches service ip_ports methods r =
    if leases
    then if stores
      then if caches
        then (
          registered,
          record {
            etcd = put (service_key service) (serialize_vector ip_ports) r.etcd;
            redis = put (service_key service) (serialize_vector methods) r.redis;
          },
        )
        else (
          no_methods,
          record r { etcd = put (service_key service) (serialize_vector ip_ports) r.etcd },
        )
      else (no_node, r)
    else (no_lease, r)

-- Its answer is success, whatever the stores do.
unfoldable pub unregister_service : Bool → Bool → Bytes → Registry → Registry
unregister_service removes forgets service r = record {
  etcd = if removes then delete (is_key (service_key service)) r.etcd else r.etcd;
  redis = if forgets then delete (is_key (service_key service)) r.redis else r.redis;
}

pub record Service : Type 0 where
  pub is_registered : Bool
  pub ip_ports : List Bytes
  pub methods : List Bytes

abbrev pub entries : Option Bytes → List Bytes
entries none = []
entries (some v) = deserialize_vector v

abbrev pub is_some : Option Bytes → Bool
is_some none = false
is_some (some v) = true

-- `answers` says whether etcd does, `reads` whether Redis does.
unfoldable pub get_service : Bool → Bool → Bytes → Registry → Service
get_service answers reads service r =
    let node : Option Bytes = if answers then get (service_key service) r.etcd else none in
    let methods : Option Bytes = if reads then get (service_key service) r.redis else none in
    record { is_registered = is_some node; ip_ports = entries node; methods = entries methods }

pub record Status : Type 0 where
  pub user : ℕ
  pub connected : Bool
  pub connections : ℕ

abbrev pub online_key : ℕ → Bytes
online_key user = codes "user:" ++ (to_string user ++ codes ":online")

abbrev pub online : Option Bytes → Bool
online none = false
online (some v) = bytes_eq v (codes "1")

abbrev pub is_online : ℕ → List Entry → Bool
is_online user redis = online (get (online_key user) redis)

-- Whether Redis answers for a user, the user is found, and Redis stores.
pub record Answers : Type 0 where
  pub reads : ℕ → Bool
  pub found : ℕ → Bool
  pub writes : ℕ → Bool

unfoldable pub check_user : Answers → ℕ → List Entry → Status × List Entry
check_user w user redis =
    if w.reads user && is_online user redis
    then (record { user = user; connected = true; connections = 1 }, redis)
    else (
      record { user = user; connected = false; connections = 0 },
      if w.found user && w.writes user then put (online_key user) (codes "0") redis else redis,
    )

unfoldable pub check_user_online : Answers → List ℕ → List Entry → List Status × List Entry
check_user_online w [] redis = ([], redis)
check_user_online w (user ∷ users) redis =
    let (s, redis') = check_user w user redis in
    let (rest, redis'') = check_user_online w users redis' in (s ∷ rest, redis'')
