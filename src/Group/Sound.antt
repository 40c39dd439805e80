-- ===== src/Group/Sound.antt =====
-- What the group tables keep true. The row of a group is the one that its primary key finds.
use ape_server.Prelude.{
  ℕ, ◌≤◌, ◌≡◌, Bool, true, ◌&&◌, some, List, map, find, select, count, any, All, up_to,
}
use ape_server.Group.Data.{Db, GroupRow, MemberRow, MessageRow}
use ape_server.Group.Store.{is_group, is_member, is_active_in, is_message_in}

abbrev pub seqs : ℕ → List MessageRow → List ℕ
seqs id ms = map (λ (m : MessageRow). m.seq) (select (is_message_in id) ms)

-- A member's positions in the sequence of the group do not pass its end.
abbrev pub Within : GroupRow → MemberRow → Type 0
Within g m =
    m.group_id ≡ g.id
    → (m.join_seq ≤ g.last_seq) × (m.ack_seq ≤ g.last_seq) × (m.read_seq ≤ g.last_seq)

abbrev pub is_active_member : ℕ → ℕ → MemberRow → Bool
is_active_member id account m = is_member id account m && m.active

pub record GroupOk (ms : List MemberRow) (ts : List MessageRow) (g : GroupRow) : Type 0 where
  -- `member_count` counts the active members
  pub counted : g.member_count ≡ count (is_active_in g.id) ms
  -- the messages are numbered without a gap
  pub numbered : seqs g.id ts ≡ up_to g.last_seq
  -- the owner is an active member
  pub owned : any (is_active_member g.id g.owner) ms ≡ true
  pub within : All (Within g) ms

pub record IsConsistent (gs : List GroupRow) (ms : List MemberRow) (ts : List MessageRow)
    : Type 0 where
  pub groups : (id : ℕ) (g : GroupRow) → find (is_group id) gs ≡ some g → GroupOk ms ts g
  -- the foreign keys
  pub members_linked : All (λ (m : MemberRow). any (is_group m.group_id) gs ≡ true) ms
  pub messages_linked : All (λ (m : MessageRow). any (is_group m.group_id) gs ≡ true) ts

abbrev pub IsSound : Db → Type 0
IsSound db = IsConsistent db.groups db.members db.messages
