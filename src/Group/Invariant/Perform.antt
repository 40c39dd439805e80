-- ===== src/Group/Invariant/Perform.antt =====
-- All operations together: every command keeps the tables consistent.
use ape_server.Prelude.{
  ℕ, ◌≡◌, refl, inl, inr, true, ◌&&◌, Bytes, Bool-cases, Option-cases, ◌==◌, arith, find, update,
  Ensures, Ensures-bind,
}
use ape_server.Group.Data.{
  invalid_group, Db, Env, Command, Operation, GroupRow, ApplicationRow, UserRow,
}
use ape_server.Group.Store.{is_group, or_throw}
use ape_server.Text.Decimal.{group_id}
use ape_server.Group.Manage
use ape_server.Group.Manage.Change
use ape_server.Group.Manage.{Context}
use ape_server.Group.Manage.Change.{accept_member, set_status, join_member}
use ape_server.Group.Talk
use ape_server.Group.Perform.{
  act, as_member, unless_joined, when_dismissed, when_open, on_group, resolve, in_group, context,
  dispatch, perform,
}
use ape_server.Group.Sound.{GroupOk, IsConsistent, IsSound}
use ape_server.Group.Invariant.Groups.{update-IsConsistent}
use ape_server.Group.Invariant.Members.{recount-IsSound, join-IsLocal, leave-IsLocal}
use ape_server.Group.Invariant.Messages.{
  IsOpened, Keeps, send-Keeps, acknowledge-Keeps, mark_read-Keeps,
}
use ape_server.Group.Invariant.Opened.{context-IsOpened}
use ape_server.Group.Invariant.Create.{create-Keeps}

module _ (c : Context) (o : IsOpened c) (s : IsSound c.db) where
  -- A write to the group's row that leaves what the other tables refer to.
  rewrite-IsConsistent :
      (f : GroupRow → GroupRow)
      → ((g : GroupRow) → (f g).id ≡ g.id)
      → ((g : GroupRow)
          → GroupOk c.db.members c.db.messages g
          → GroupOk c.db.members c.db.messages (f g))
      → IsConsistent (update (is_group c.id) f c.db.groups) c.db.members c.db.messages
  rewrite-IsConsistent f same keep =
      update-IsConsistent c.id f same c.db.groups c.db.members c.db.members c.db.messages
        c.db.messages s (λ g _ k. keep g k) (λ g _ k. k) s.members_linked s.messages_linked

  rename-Keeps : Ensures Keeps (Change.rename c)
  unfolding Change.rename
  rename-Keeps = ground (
    arith,
    rewrite-IsConsistent (λ g. record g { name = c.cmd.text }) (λ g. refl)
        (λ g k. record {
          counted = k.counted;
          numbered = k.numbered;
          owned = k.owned;
          within = k.within;
        }),
  )

  dismiss-Keeps : Ensures Keeps (Change.dismiss c)
  unfolding Change.dismiss
  dismiss-Keeps =
      rewrite-IsConsistent (λ g. record g { dismissed = true }) (λ g. refl)
        (λ g k. record {
          counted = k.counted;
          numbered = k.numbered;
          owned = k.owned;
          within = k.within;
        })

  accept-IsSound : (target : ℕ) → IsSound (accept_member c target)
  unfolding accept_member
  accept-IsSound target =
      recount-IsSound c.id c.db _
        (join-IsLocal c.id target c.group.last_seq c.db.groups c.db.members o.row o.found
          o.same_last)
        s

  review-Keeps : Ensures Keeps (Change.review c)
  unfolding Change.review set_status
  review-Keeps =
      elim (Option-cases (
        find (λ (a : ApplicationRow). a.id == c.cmd.application_id && a.group_id == c.id)
          c.db.applications)) [
            | inl e ↦ rw e tt
            | inr (a, e) ↦ rw e (ground (arith, accept-IsSound a.account, s))
          ]

  remove-Keeps : (target : ℕ) → Ensures Keeps (Change.remove_member c target)
  unfolding Change.remove_member
  remove-Keeps target = elim (Bool-cases (target == c.group.owner)) [
    | inl e ↦ rw e tt
    | inr e ↦ rw e (
        recount-IsSound c.id c.db _
          (leave-IsLocal c.id target c.db.groups c.db.members o.row o.found
            (λ h. ground (arith, h, o.same_owner)))
          s)
  ]

  act-Keeps : (op : Operation) → Ensures Keeps (act op c)
  unfolding act Manage.members Manage.applications Talk.pull
  act-Keeps Operation.members = s
  act-Keeps Operation.applications = s
  act-Keeps Operation.review = review-Keeps
  act-Keeps Operation.rename = rename-Keeps
  act-Keeps Operation.leave = remove-Keeps c.cmd.actor
  act-Keeps Operation.kick = remove-Keeps c.cmd.target
  act-Keeps Operation.dismiss = dismiss-Keeps
  act-Keeps Operation.send = send-Keeps c o s
  act-Keeps Operation.pull = s
  act-Keeps Operation.ack = acknowledge-Keeps c o s
  act-Keeps Operation.read = mark_read-Keeps c o s
  act-Keeps _ = s

  as_member-Keeps : (op : Operation) → Ensures Keeps (as_member op c)
  unfolding as_member
  as_member-Keeps op = ground (arith, act-Keeps op)

  apply-Keeps : Ensures Keeps (Manage.apply c)
  unfolding Manage.apply
  apply-Keeps = ground (arith, s)

  unless_joined-Keeps : (op : Operation) → Ensures Keeps (unless_joined op c)
  unfolding unless_joined
  unless_joined-Keeps Operation.leave = s
  unless_joined-Keeps _ = tt

  when_dismissed-Keeps : (op : Operation) → Ensures Keeps (when_dismissed op c)
  unfolding when_dismissed
  when_dismissed-Keeps Operation.dismiss = ground (arith, s)
  when_dismissed-Keeps _ = tt

  when_open-Keeps : (op : Operation) → Ensures Keeps (when_open op c)
  unfolding when_open
  when_open-Keeps Operation.apply = apply-Keeps
  when_open-Keeps Operation.leave =
      ground (arith, as_member-Keeps Operation.leave, unless_joined-Keeps Operation.leave)
  when_open-Keeps op = ground (arith, as_member-Keeps op, unless_joined-Keeps op)

  on_group-Keeps : (op : Operation) → Ensures Keeps (on_group op c)
  unfolding on_group
  on_group-Keeps Operation.search = s
  on_group-Keeps op = ground (arith, when_dismissed-Keeps op, when_open-Keeps op)

in_group-Keeps :
    (env : Env) (cmd : Command) (nickname : Bytes) (db : Db)
    → IsSound db
    → Ensures Keeps (in_group env cmd nickname db)
unfolding in_group context
in_group-Keeps env cmd nickname db s =
    Ensures-bind Keeps (or_throw (group_id cmd.group_id) invalid_group) _ λ named _.
      Ensures-bind Keeps (resolve cmd.operation cmd named db) _ λ id _.
        elim (Option-cases (find (is_group id) db.groups)) [
          | inl e ↦ rw e tt
          | inr (row, e) ↦ rw e (
              on_group-Keeps (context env cmd nickname db row)
                (context-IsOpened env cmd nickname db row id s e) s cmd.operation)
        ]

dispatch-Keeps :
    (op : Operation) (env : Env) (cmd : Command) (nickname : Bytes) (db : Db)
    → IsSound db
    → Ensures Keeps (dispatch op env cmd nickname db)
unfolding dispatch Manage.my_applications Manage.list_groups
dispatch-Keeps Operation.my_applications env cmd nickname db s = s
dispatch-Keeps Operation.list env cmd nickname db s = s
dispatch-Keeps Operation.create env cmd nickname db s = create-Keeps env cmd db s
dispatch-Keeps _ env cmd nickname db s = in_group-Keeps env cmd nickname db s

pub perform-Keeps :
    (env : Env) (cmd : Command) (db : Db) → IsSound db → Ensures Keeps (perform env cmd db)
unfolding perform
perform-Keeps env cmd db s =
    elim (Option-cases (find (λ (u : UserRow). u.account == cmd.actor) db.users)) [
      | inl e ↦ rw e (ground arith)
      | inr (u, e) ↦ rw e (ground (arith, dispatch-Keeps cmd.operation env cmd u.nickname db s))
    ]
