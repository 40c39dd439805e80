-- ===== src/Group/DeliveryTests.antt =====
-- Concrete runs of the deliveries.
use ape_server.Prelude.{
  ◌+◌, ◌≤◌, ◌≡◌, refl, subst, Bool, true, false, some, [], ◌∷◌, map, inl, inr, codes, Bool-cases,
  ◌==◌, if◌then◌else◌, arith, find, select, count, any, order_by, All, ok,
}
use mathlib.Core.Option
use ape_server.Text.Decimal.{to_string}
use ape_server.Group.Data.{Db, GroupRow, MemberRow, MessageRow}
use ape_server.Group.Store.{is_group, is_member}
use ape_server.Group.Sound.{GroupOk, IsSound}
use ape_server.Group.Delivery.{
  notice, build_delivery, pending_groups, notification_accounts, distinct, ensure_group_numbers,
  is_numbered, unnumbered,
}
use ape_server.Group.Delivered.{Delivers, build_delivery-Delivers}
use ape_server.Group.Numbers.{numbered, ensure_group_numbers-numbered}
use ape_server.Group.Pending.{announces, pending_groups-announces}

abbrev group : GroupRow
group = record {
  id = 7;
  name = codes "g";
  owner = 11;
  member_count = 1;
  dismissed = false;
  last_seq = 1;
}

abbrev owner : MemberRow
owner = record {
  group_id = 7;
  account = 11;
  active = true;
  epoch = 1;
  join_seq = 0;
  ack_seq = 0;
  read_seq = 0;
}

abbrev hello : MessageRow
hello = record {
  group_id = 7;
  seq = 1;
  id = codes "u1";
  client_id = codes "c1";
  sender = 11;
  nickname = codes "ann";
  text = codes "hello";
  created_time = 5;
}

-- A group of one member, which has not acknowledged its one message, and no number yet.
abbrev tables : Db
tables = record {
  users = [];
  groups = group ∷ [];
  members = owner ∷ [];
  applications = [];
  next_application = 1;
  messages = hello ∷ [];
  numbers = [];
  next_number = 1000000000;
  requests = [];
}

group-GroupOk : GroupOk tables.members tables.messages group
unfolding count select any
group-GroupOk = record {
  counted = refl;
  numbered = refl;
  owned = refl;
  within = ((λ e. (omega arith, omega arith, omega arith)), tt);
}

tables-IsSound : IsSound tables
unfolding find any
tables-IsSound = record {
  groups = λ id g e. elim (Bool-cases (7 == id)) [
    | inl t ↦
        subst (GroupOk tables.members tables.messages) (Option.some-injective group g (rw t at e))
          group-GroupOk
    | inr t ↦ absurd (Option.none-ne-some g (rw t at e))
  ];
  members_linked = (refl, tt);
  messages_linked = (refl, tt);
}

first_notice : build_delivery 11 7 tables ≡ some (notice tables group owner)
unfolding build_delivery find
first_notice = refl

build_delivery-Delivers_example : Delivers tables group owner (notice tables group owner)
unfolding find
build_delivery-Delivers_example =
    build_delivery-Delivers 11 7 tables group owner (notice tables group owner) tables-IsSound refl
      refl first_notice

ensure_group_numbers-numbered_example :
    (ensure_group_numbers tables ≡ (ok tt, numbered (unnumbered tables) tables))
    × All
        (λ (g : GroupRow).
          any (is_numbered g.id) (numbered (unnumbered tables) tables).numbers ≡ true)
        tables.groups
unfolding order_by select any
ensure_group_numbers-numbered_example =
    ensure_group_numbers-numbered tables (tt, tt) tt (omega arith)

at_most_one : (b : Bool) → (if b then 1 else 0) + 0 ≤ 1
at_most_one true = omega arith
at_most_one false = omega arith

pending_groups-announces_example :
    pending_groups 11 tables
    ≡ map (λ (g : GroupRow). to_string g.id) (select (announces 11 tables) tables.groups)
unfolding count
pending_groups-announces_example =
    pending_groups-announces 11 tables (λ id. at_most_one (is_group id group))
      (λ id. at_most_one (is_member id 11 owner))

-- The owner is listed once.
accounts : notification_accounts 7 tables ≡ 11 ∷ []
unfolding notification_accounts distinct select any
accounts = refl
