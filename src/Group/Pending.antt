-- ===== src/Group/Pending.antt =====
-- Which groups wait for a delivery: `pending_groups`.
use ape_server.Prelude.{
  ℕ, ◌≤◌, ◌≡◌, refl, ap, ◌∙◌, Bool, true, false, not, ◌&&◌, none, some, map, ltb, ==_refl,
  if◌then◌else◌, Option-cases, inl, inr, find, select, any, count, All-mono, none→any, none-any,
  unique-any, firsts, select-cong,
}
use ape_server.Text.Decimal.{to_string}
use ape_server.Group.Data.{Db, GroupRow, MemberRow}
use ape_server.Group.Store.{is_group, is_member}
use ape_server.Group.Delivery.{notice, build_delivery, awaits, pending_groups}
use ape_server.Group.Delivered.{build_delivery-found}

-- The notice to an account tells of a message that the account has not acknowledged.
abbrev pub announces : ℕ → Db → GroupRow → Bool
announces actor db g = elim (find (is_member g.id actor) db.members) [
  | none ↦ false
  | some m ↦ elim (build_delivery actor g.id db) [
    | none ↦ false
    | some n ↦ ltb m.ack_seq n.last_seq
  ]
]

abbrev is_behind : GroupRow → MemberRow → Bool
is_behind g m = m.active && (not g.dismissed && ltb m.ack_seq g.last_seq)

told :
    (db : Db) (g : GroupRow) (m : MemberRow) (active dismissed : Bool)
    → (active && (not dismissed && ltb m.ack_seq g.last_seq))
      ≡ elim (if active && not dismissed then some (notice db g m) else none) [
        | none ↦ false
        | some n ↦ ltb m.ack_seq n.last_seq
      ]
told db g m true true = refl
told db g m true false = refl
told db g m false dismissed = refl

awaits-announces :
    (actor : ℕ) (db : Db) (g : GroupRow)
    → count (is_member g.id actor) db.members ≤ 1
    → find (is_group g.id) db.groups ≡ some g
    → any (awaits actor g) db.members ≡ announces actor db g
awaits-announces actor db g c f = elim (Option-cases (find (is_member g.id actor) db.members)) [
  | inl e ↦
      none-any (is_member g.id actor) (is_behind g) db.members
        (none→any (is_member g.id actor) db.members e)
      ∙ rw (announces, e) refl
  | inr (m, e) ↦
      unique-any (is_member g.id actor) (is_behind g) db.members m c e
      ∙ told db g m m.active g.dismissed
      ∙ rw (announces, e, build_delivery-found actor g.id db g m f e) refl
]

-- From tables with their keys, the groups that are pending for an account are, in the order of the
-- table, those whose notice to it is not empty and tells of a number past the one it acknowledged.
pub pending_groups-announces :
    (actor : ℕ) (db : Db)
    → ((id : ℕ) → count (is_group id) db.groups ≤ 1)
    → ((id : ℕ) → count (is_member id actor) db.members ≤ 1)
    → pending_groups actor db
      ≡ map (λ (g : GroupRow). to_string g.id) (select (announces actor db) db.groups)
unfolding pending_groups
pending_groups-announces actor db c d = ap (map (λ (g : GroupRow). to_string g.id)) (
    select-cong _ (announces actor db) db.groups (
      All-mono (λ g. find (is_group g.id) db.groups ≡ some g) _ db.groups
        (λ g f. awaits-announces actor db g (d g.id) f)
        (firsts (λ (g h : GroupRow). is_group g.id h) db.groups (λ g. ==_refl g.id) (λ g. c g.id))))
