-- ===== src/Group/Access.antt =====
-- Who may do what: the guards of `perform`.
use ape_server.Prelude.{
  ◌≡◌, refl, sym, subst, inl, inr, Bool, true, false, not, ◌||◌, some, Bytes, Option-cases, ◌==◌,
  arith, find, ok, err, guard, ◌>>◌, Ensures, ℕ, Ensures-guard,
}
use ape_server.Group.Data.{
  membership_changed, owner_required, Db, Env, Command, Operation, GroupRow, MemberRow, Reply,
}
use ape_server.Group.Store.{is_member, group_row, member_state}
use ape_server.Group.Manage.{Context, Outcome}
use ape_server.Group.Perform.{
  act, needs_owner, as_member, unless_joined, when_dismissed, when_open, on_group, context, perform,
}
use ape_server.Group.Invariant.Opened.{owner_state}
use ape_server.Group.Reach.{Names, perform-on_group}

module _ (c : Context) where
  as_member-owner :
      (op : Operation)
      → needs_owner op ≡ true
      → Ensures (λ _. c.group.owner ≡ c.cmd.actor) (as_member op c)
  unfolding as_member
  as_member-owner op h = rw h (rest (act op c))
    where
      rest :
          (m : Outcome)
          → Ensures
              (λ _. c.group.owner ≡ c.cmd.actor)
              (guard (c.cmd.epoch == 0 || c.cmd.epoch == c.group.epoch) membership_changed
                >> (guard (c.group.owner == c.cmd.actor) owner_required >> m))
      rest (ok o) = ground arith
      rest (err e) = ground arith

  on_group-owner :
      (op : Operation)
      → needs_owner op ≡ true
      → Ensures (λ _. c.group.owner ≡ c.cmd.actor) (on_group op c)
  unfolding on_group when_dismissed when_open unless_joined
  on_group-owner Operation.applications h =
      ground (arith, as_member-owner Operation.applications refl)
  on_group-owner Operation.review h = ground (arith, as_member-owner Operation.review refl)
  on_group-owner Operation.rename h = ground (arith, as_member-owner Operation.rename refl)
  on_group-owner Operation.kick h = ground (arith, as_member-owner Operation.kick refl)
  on_group-owner Operation.dismiss h = ground (arith, as_member-owner Operation.dismiss refl)
  on_group-owner _ h = cc

-- Only the owner of a group succeeds in listing or reviewing its applications, in renaming it, in
-- removing a member or in dismissing it.
pub perform-owner :
    (env : Env) (cmd : Command) (db : Db) (row : GroupRow)
    → Names cmd db row
    → needs_owner cmd.operation ≡ true
    → Ensures (λ _. row.owner ≡ cmd.actor) (perform env cmd db)
unfolding context
perform-owner env cmd db row n h =
    perform-on_group env cmd db row n (λ _. row.owner ≡ cmd.actor)
      λ nickname.
        subst
          (λ k.
            Ensures (λ _. k ≡ cmd.actor) (on_group cmd.operation (context env cmd nickname db row)))
          (owner_state db row cmd.actor)
          (on_group-owner (context env cmd nickname db row) cmd.operation h)

-- The operations that are refused to all but members.
abbrev pub is_for_members : Operation → Bool
is_for_members Operation.members = true
is_for_members Operation.applications = true
is_for_members Operation.review = true
is_for_members Operation.rename = true
is_for_members Operation.kick = true
is_for_members Operation.send = true
is_for_members Operation.pull = true
is_for_members Operation.ack = true
is_for_members Operation.read = true
is_for_members _ = false

-- An active member, at the epoch that the command expects, of a group that is not dismissed.
pub record Admits (db : Db) (row : GroupRow) (actor epoch : ℕ) : Type 0 where
  pub member : MemberRow
  pub found : find (is_member row.id actor) db.members ≡ some member
  pub active : member.active ≡ true
  pub current : (epoch == 0 || epoch == member.epoch) ≡ true
  pub standing : row.dismissed ≡ false

module _ (db : Db) (row : GroupRow) (actor epoch : ℕ) where
  joined_Admits :
      (member_state db (group_row row) actor).joined ≡ true
      → (epoch == 0 || epoch == (member_state db (group_row row) actor).epoch) ≡ true
      → Admits db row actor epoch
  unfolding member_state group_row
  joined_Admits h e = elim (Option-cases (find (is_member row.id actor) db.members)) [
    | inl n ↦ ground (arith, rw n at h)
    | inr (m, n) ↦ record {
      member = m;
      found = n;
      active = ground (arith, rw n at h);
      current = ground (arith, rw n at e);
      standing = ground (arith, rw n at h);
    }
  ]

module _ (env : Env) (cmd : Command) (nickname : Bytes) (db : Db) (row : GroupRow) where
  as_member-Admits :
      (op : Operation)
      → (member_state db (group_row row) cmd.actor).joined ≡ true
      → Ensures
          (λ _. Admits db row cmd.actor cmd.epoch)
          (as_member op (context env cmd nickname db row))
  unfolding as_member context
  as_member-Admits op h =
      let c = context env cmd nickname db row in
      Ensures-guard (λ _. Admits db row cmd.actor cmd.epoch) _ membership_changed
        (guard (not (needs_owner op) || c.group.owner == c.cmd.actor) owner_required >> act op c)
        λ e. rest (joined_Admits db row cmd.actor cmd.epoch h e) _
    where
      rest :
          Admits db row cmd.actor cmd.epoch
          → (m : Outcome) → Ensures (λ _. Admits db row cmd.actor cmd.epoch) m
      rest a (ok o) = a
      rest a (err e) = tt

  on_group-Admits :
      (op : Operation)
      → is_for_members op ≡ true
      → Ensures
          (λ _. Admits db row cmd.actor cmd.epoch)
          (on_group op (context env cmd nickname db row))
  unfolding on_group when_dismissed when_open unless_joined context
  on_group-Admits Operation.members h = ground (arith, as_member-Admits Operation.members)
  on_group-Admits Operation.applications h = ground (arith, as_member-Admits Operation.applications)
  on_group-Admits Operation.review h = ground (arith, as_member-Admits Operation.review)
  on_group-Admits Operation.rename h = ground (arith, as_member-Admits Operation.rename)
  on_group-Admits Operation.kick h = ground (arith, as_member-Admits Operation.kick)
  on_group-Admits Operation.send h = ground (arith, as_member-Admits Operation.send)
  on_group-Admits Operation.pull h = ground (arith, as_member-Admits Operation.pull)
  on_group-Admits Operation.ack h = ground (arith, as_member-Admits Operation.ack)
  on_group-Admits Operation.read h = ground (arith, as_member-Admits Operation.read)
  on_group-Admits _ h = cc

-- A member's operation that succeeds is the operation itself, behind the guards.
on_group-act {ℓ} :
    (P : Db × Reply → Type ℓ) (c : Context) (op : Operation)
    → is_for_members op ≡ true
    → Ensures P (act op c)
    → Ensures P (on_group op c)
unfolding on_group when_dismissed when_open unless_joined as_member
on_group-act P c Operation.members h a = ground (arith, a)
on_group-act P c Operation.applications h a = ground (arith, a)
on_group-act P c Operation.review h a = ground (arith, a)
on_group-act P c Operation.rename h a = ground (arith, a)
on_group-act P c Operation.kick h a = ground (arith, a)
on_group-act P c Operation.send h a = ground (arith, a)
on_group-act P c Operation.pull h a = ground (arith, a)
on_group-act P c Operation.ack h a = ground (arith, a)
on_group-act P c Operation.read h a = ground (arith, a)
on_group-act P c _ h a = cc

pub perform-act {ℓ} :
    (P : Db × Reply → Type ℓ) (env : Env) (cmd : Command) (db : Db) (row : GroupRow)
    → Names cmd db row
    → (op : Operation) → cmd.operation ≡ op
    → is_for_members op ≡ true
    → ((nickname : Bytes) → Ensures P (act op (context env cmd nickname db row)))
    → Ensures P (perform env cmd db)
perform-act P env cmd db row n op h m a = perform-on_group env cmd db row n P λ nickname.
    let c = context env cmd nickname db row in
    subst (λ k. Ensures P (on_group k c)) (sym h) (on_group-act P c op m (a nickname))

-- Only an active member of a group that is not dismissed succeeds in listing members or
-- applications, reviewing, renaming, removing a member, sending, pulling, acknowledging or reading,
-- and only if the epoch that the command names, when it names one, is the member's.
pub perform-Admits :
    (env : Env) (cmd : Command) (db : Db) (row : GroupRow)
    → Names cmd db row
    → is_for_members cmd.operation ≡ true
    → Ensures (λ _. Admits db row cmd.actor cmd.epoch) (perform env cmd db)
perform-Admits env cmd db row n h =
    perform-on_group env cmd db row n (λ _. Admits db row cmd.actor cmd.epoch)
      λ nickname. on_group-Admits env cmd nickname db row cmd.operation h
