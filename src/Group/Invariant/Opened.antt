-- ===== src/Group/Invariant/Opened.antt =====
-- The group that a command finds, with the state of its actor in it, agrees with the tables.
use ape_server.Prelude.{
  ℕ, ◌≤◌, ◌≡◌, sym, subst, inl, inr, true, some, Bytes, Option-cases, arith, find, All, All-find,
  find-true,
}
use ape_server.Group.Data.{Db, Env, Command, GroupRow, MemberRow}
use ape_server.Group.Store.{is_group, is_member, group_row, member_state}
use ape_server.Group.Perform.{context}
use ape_server.Group.Sound.{IsSound, Within}
use ape_server.Group.Invariant.Groups.{found_id}
use ape_server.Group.Invariant.Messages.{IsOpened}

group_id_of : (i account : ℕ) (m : MemberRow) → is_member i account m ≡ true → m.group_id ≡ i
group_id_of i account m h = ground arith

pub last_state :
    (db : Db) (g : GroupRow) (actor : ℕ)
    → (member_state db (group_row g) actor).last_seq ≡ g.last_seq
unfolding member_state group_row
last_state db g actor = ground arith

pub owner_state :
    (db : Db) (g : GroupRow) (actor : ℕ) → (member_state db (group_row g) actor).owner ≡ g.owner
unfolding member_state group_row
owner_state db g actor = ground arith

joined-Within :
    (db : Db) (g : GroupRow) (actor : ℕ)
    → All (Within g) db.members
    → (member_state db (group_row g) actor).join_seq
      ≤ (member_state db (group_row g) actor).last_seq
unfolding member_state group_row
joined-Within db g actor w = elim (Option-cases (find (is_member g.id actor) db.members)) [
  | inl e ↦ rw e (omega arith)
  | inr (m, e) ↦
      rw e
        (All-find (Within g) (is_member g.id actor) db.members w e
          (group_id_of g.id actor m (find-true (is_member g.id actor) db.members e))).0
]

pub context-IsOpened :
    (env : Env) (cmd : Command) (nickname : Bytes) (db : Db) (row : GroupRow) (id : ℕ)
    → IsSound db
    → find (is_group id) db.groups ≡ some row
    → IsOpened (context env cmd nickname db row)
unfolding context
context-IsOpened env cmd nickname db row id s found =
    let same : id ≡ row.id = sym (found_id id db.groups row found) in
    record {
      row = row;
      found = subst (λ k. find (is_group k) db.groups ≡ some row) same found;
      same_last = last_state db row cmd.actor;
      same_owner = owner_state db row cmd.actor;
      joined_at = joined-Within db row cmd.actor (s.groups id row found).within;
    }
