-- ===== src/Group/Delivery.antt =====
-- What members are notified of: `buildDelivery`, `WithGroupDelivery`, `GroupNotificationAccounts`,
-- `PendingGroupsForDelivery` and `EnsureGroupNumbers` of src/storage/mysqlhandler.cpp.
use ape_server.Prelude.{
  ℕ, Bool, false, not, ◌&&◌, Option, none, some, List, [], ◌∷◌, map, Bytes, ltb, leb, ◌==◌,
  if◌then◌else◌, ◌++◌, find, select, any, order_by, take, Result, ok, err,
}
use ape_server.Text.Decimal.{to_string, group_id}
use ape_server.Group.Data.{Db, Code, invalid_group, GroupRow, MemberRow, MessageRow, NumberRow}
use ape_server.Group.Store.{is_group, is_member, is_message_in, allocate_group_number}

pub record Notice : Type 0 where
  pub group_id : Bytes
  pub last_seq : ℕ
  pub messages : List MessageRow
  pub refresh : Bool
  pub epoch : ℕ

-- `WHERE group_id={} AND seq>{} ORDER BY seq`
abbrev pub undelivered : ℕ → ℕ → Db → List MessageRow
undelivered id ack db =
    order_by (λ (m : MessageRow). m.seq)
      (select (λ (m : MessageRow). is_message_in id m && ltb ack m.seq) db.messages)

abbrev pub notice : Db → GroupRow → MemberRow → Notice
notice db g m = record {
  group_id = to_string g.id;
  last_seq = g.last_seq;
  messages = if leb g.member_count 200 then take 20 (undelivered g.id m.ack_seq db) else [];
  refresh = false;
  epoch = m.epoch;
}

-- `none` is the empty notice.
unfoldable pub build_delivery : ℕ → ℕ → Db → Option Notice
build_delivery actor id db = elim (find (is_group id) db.groups) [
  | none ↦ none
  | some g ↦ elim (find (is_member id actor) db.members) [
    | none ↦ none
    | some m ↦ if m.active && not g.dismissed then some (notice db g m) else none
  ]
]

-- `WithGroupDelivery`, whose action is run on the notice if that is not empty.
unfoldable pub with_group_delivery : ℕ → Bytes → Db → Result Code (Option Notice)
with_group_delivery actor id db = elim (group_id id) [
  | none ↦ err invalid_group
  | some n ↦ ok (build_delivery actor n db)
]

-- UNION
unfoldable pub distinct : List ℕ → List ℕ
distinct [] = []
distinct (x ∷ xs) = let rest = distinct xs in if any (λ y. y == x) rest then rest else x ∷ rest

unfoldable pub notification_accounts : ℕ → Db → List ℕ
notification_accounts id db = distinct (
    map (λ (m : MemberRow). m.account) (select (λ m. m.group_id == id) db.members)
    ++ map (λ (g : GroupRow). g.owner) (select (is_group id) db.groups))

-- The condition of the join of a group with a member's row.
abbrev pub awaits : ℕ → GroupRow → MemberRow → Bool
awaits actor g m =
    is_member g.id actor m && (m.active && (not g.dismissed && ltb m.ack_seq g.last_seq))

unfoldable pub pending_groups : ℕ → Db → List Bytes
pending_groups actor db =
    map (λ (g : GroupRow). to_string g.id)
      (select (λ (g : GroupRow). any (awaits actor g) db.members) db.groups)

abbrev pub is_numbered : ℕ → NumberRow → Bool
is_numbered id n = n.group_id == id

-- The groups that have no number, by their identifiers.
abbrev pub unnumbered : Db → List ℕ
unnumbered db =
    order_by (λ n. n)
      (map (λ (g : GroupRow). g.id)
        (select (λ (g : GroupRow). not (any (is_numbered g.id) db.numbers)) db.groups))

-- One transaction for each; the first that fails ends it.
unfoldable pub number_all : List ℕ → Db → Result Code (Unit {0}) × Db
number_all [] db = (ok tt, db)
number_all (id ∷ ids) db =
    if any (is_numbered id) db.numbers
    then number_all ids db
    else elim (allocate_group_number db id) [ err c ↦ (err c, db) | ok db' ↦ number_all ids db' ]

unfoldable pub ensure_group_numbers : Db → Result Code (Unit {0}) × Db
ensure_group_numbers db = number_all (unnumbered db) db
