-- ===== src/Group/Delivered.antt =====
-- What a notice carries: `build_delivery`.
use ape_server.Prelude.{
  ℕ, ◌-◌, min, ◌≡◌, refl, sym, ap, ◌∙◌, subst, Bool, true, false, not, ◌&&◌, none, some, [], map,
  range, up_to, select-after, map-select, map-order_by, map-take, order_by-range, take-range, take,
  leb, ltb, if◌then◌else◌, arith, find, select, order_by, All, All-take, All-mono, select-All,
  order_by-All, In, select-In,
}
use mathlib.Core.Option
use ape_server.Text.Decimal.{to_string}
use ape_server.Group.Data.{Db, GroupRow, MemberRow, MessageRow}
use ape_server.Group.Store.{is_group, is_member, is_message_in}
use ape_server.Group.Sound.{IsSound, seqs}
use ape_server.Group.Delivery.{Notice, undelivered, notice, build_delivery}

abbrev seq_of : MessageRow → ℕ
seq_of m = m.seq

undelivered-range :
    (db : Db) (id ack last : ℕ)
    → seqs id db.messages ≡ up_to last
    → map seq_of (undelivered id ack db) ≡ range ack (last - ack)
undelivered-range db id ack last n =
    map-order_by seq_of _
    ∙ ap (order_by (λ k. k)) (
        map-select seq_of (is_message_in id) (ltb ack) db.messages
        ∙ ap (select (ltb ack)) n
        ∙ select-after ack last)
    ∙ order_by-range ack (last - ack)

undelivered-own :
    (db : Db) (id ack : ℕ) → All (λ (m : MessageRow). m.group_id ≡ id) (undelivered id ack db)
undelivered-own db id ack =
    order_by-All (λ (m : MessageRow). m.group_id ≡ id) seq_of _
      (All-mono _ _ _ (λ m h. ground arith) (select-All _ db.messages))

undelivered-stored :
    (db : Db) (id ack : ℕ) → All (λ (m : MessageRow). In m db.messages) (undelivered id ack db)
undelivered-stored db id ack =
    order_by-All (λ (m : MessageRow). In m db.messages) seq_of _ (select-In _ db.messages)

-- The notice of the group g to its member m.
pub record Delivers (db : Db) (g : GroupRow) (m : MemberRow) (n : Notice) : Type 0 where
  pub active : m.active ≡ true
  pub standing : g.dismissed ≡ false
  pub named : n.group_id ≡ to_string g.id
  pub epoch : n.epoch ≡ m.epoch
  pub stored : All (λ (t : MessageRow). In t db.messages) n.messages
  pub own : All (λ (t : MessageRow). t.group_id ≡ g.id) n.messages
  pub last : n.last_seq ≡ g.last_seq
  pub numbered :
      map seq_of n.messages
      ≡ range m.ack_seq (if leb g.member_count 200 then min 20 (g.last_seq - m.ack_seq) else 0)

module _ (db : Db) (g : GroupRow) (m : MemberRow)
    (q : seqs g.id db.messages ≡ up_to g.last_seq) where
  carried-numbered :
      (small : Bool)
      → map seq_of (if small then take 20 (undelivered g.id m.ack_seq db) else [])
        ≡ range m.ack_seq (if small then min 20 (g.last_seq - m.ack_seq) else 0)
  carried-numbered true =
      map-take seq_of 20 _
      ∙ ap (take 20) (undelivered-range db g.id m.ack_seq g.last_seq q)
      ∙ take-range 20 m.ack_seq _
  carried-numbered false = refl

  carried-own :
      (small : Bool)
      → All
          (λ (t : MessageRow). t.group_id ≡ g.id)
          (if small then take 20 (undelivered g.id m.ack_seq db) else [])
  carried-own true = All-take _ 20 _ (undelivered-own db g.id m.ack_seq)
  carried-own false = tt

  carried-stored :
      (small : Bool)
      → All
          (λ (t : MessageRow). In t db.messages)
          (if small then take 20 (undelivered g.id m.ack_seq db) else [])
  carried-stored true = All-take _ 20 _ (undelivered-stored db g.id m.ack_seq)
  carried-stored false = tt

  given-Delivers :
      (n : Notice) (a d : Bool)
      → m.active ≡ a
      → g.dismissed ≡ d
      → (if a && not d then some (notice db g m) else none) ≡ some n
      → Delivers db g m n
  given-Delivers n true false a d e =
      subst (Delivers db g m) (Option.some-injective (notice db g m) n e) (record {
        active = a;
        standing = d;
        named = refl;
        epoch = refl;
        stored = carried-stored (leb g.member_count 200);
        own = carried-own (leb g.member_count 200);
        last = refl;
        numbered = carried-numbered (leb g.member_count 200);
      })
  given-Delivers n true true a d e = absurd (Option.none-ne-some n e)
  given-Delivers n false d a _ e = absurd (Option.none-ne-some n e)

pub build_delivery-found :
    (actor id : ℕ) (db : Db) (g : GroupRow) (m : MemberRow)
    → find (is_group id) db.groups ≡ some g
    → find (is_member id actor) db.members ≡ some m
    → build_delivery actor id db
      ≡ (if m.active && not g.dismissed then some (notice db g m) else none)
unfolding build_delivery
build_delivery-found actor id db g m f e = rw (build_delivery, f, e) refl

-- In consistent tables, a notice that is not empty goes to an active member of a group that is not
-- dismissed, and tells the group's identifier and last number and the member's epoch; in a group of
-- at most 200 members it carries, without a gap and as they are stored, the first twenty of the
-- group's messages that the member has not acknowledged, and in a larger one none.
pub build_delivery-Delivers :
    (actor id : ℕ) (db : Db) (g : GroupRow) (m : MemberRow) (n : Notice)
    → IsSound db
    → find (is_group id) db.groups ≡ some g
    → find (is_member id actor) db.members ≡ some m
    → build_delivery actor id db ≡ some n
    → Delivers db g m n
build_delivery-Delivers actor id db g m n s f f' e =
    given-Delivers db g m (s.groups id g f).numbered n m.active g.dismissed refl refl
      (sym (build_delivery-found actor id db g m f f') ∙ e)
