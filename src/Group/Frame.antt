-- ===== src/Group/Frame.antt =====
-- The table of requests is written by `executeOnPool` alone: no operation of `perform` touches it.
use ape_server.Prelude.{
  ◌≡◌, refl, inl, inr, Bytes, Option-cases, ◌==◌, arith, find, Ensures, ℕ, Ensures-bind,
}
use ape_server.Group.Data.{invalid_group, Db, Env, Command, Operation, UserRow, Reply}
use ape_server.Group.Store.{is_group, or_throw, allocate_group_number, recount}
use ape_server.Text.Decimal.{group_id}
use ape_server.Group.Manage
use ape_server.Group.Manage.Change
use ape_server.Group.Manage.{Context, add_group, add_member}
use ape_server.Group.Manage.Change.{accept_member, set_status}
use ape_server.Group.Talk
use ape_server.Group.Talk.{is_request}
use ape_server.Group.Perform.{
  act, as_member, unless_joined, when_dismissed, when_open, on_group, resolve, in_group, context,
  dispatch, perform,
}

-- A result with the requests of before.
abbrev pub Frames : Db → Db × Reply → Type 0
Frames db o = o.0.requests ≡ db.requests

module _ (c : Context) where
  review-Frames : Ensures (Frames c.db) (Change.review c)
  unfolding Change.review set_status accept_member recount
  review-Frames = ground arith

  remove-Frames : (target : ℕ) → Ensures (Frames c.db) (Change.remove_member c target)
  unfolding Change.remove_member recount
  remove-Frames target = ground arith

  rename-Frames : Ensures (Frames c.db) (Change.rename c)
  unfolding Change.rename
  rename-Frames = ground arith

  send-Frames : Ensures (Frames c.db) (Talk.send c)
  unfolding Talk.send
  send-Frames =
      elim (Option-cases (find (is_request c.id c.cmd.actor c.cmd.client_id) c.db.messages)) [
        | inl e ↦ rw e (ground arith)
        | inr (m, e) ↦ rw e (ground arith)
      ]

  act-Frames : (op : Operation) → Ensures (Frames c.db) (act op c)
  unfolding act Manage.members Manage.applications Talk.pull Talk.advance Talk.acknowledge
      Talk.mark_read Change.dismiss
  act-Frames Operation.review = review-Frames
  act-Frames Operation.rename = rename-Frames
  act-Frames Operation.leave = remove-Frames c.cmd.actor
  act-Frames Operation.kick = remove-Frames c.cmd.target
  act-Frames Operation.send = send-Frames
  act-Frames Operation.ack = ground arith
  act-Frames Operation.read = ground arith
  act-Frames _ = refl

  as_member-Frames : (op : Operation) → Ensures (Frames c.db) (as_member op c)
  unfolding as_member
  as_member-Frames op = ground (arith, act-Frames op)

  unless_joined-Frames : (op : Operation) → Ensures (Frames c.db) (unless_joined op c)
  unfolding unless_joined
  unless_joined-Frames Operation.leave = refl
  unless_joined-Frames _ = tt

  when_dismissed-Frames : (op : Operation) → Ensures (Frames c.db) (when_dismissed op c)
  unfolding when_dismissed
  when_dismissed-Frames Operation.dismiss = ground arith
  when_dismissed-Frames _ = tt

  when_open-Frames : (op : Operation) → Ensures (Frames c.db) (when_open op c)
  unfolding when_open Manage.apply
  when_open-Frames Operation.apply = ground arith
  when_open-Frames Operation.leave =
      ground (arith, as_member-Frames Operation.leave, unless_joined-Frames Operation.leave)
  when_open-Frames op = ground (arith, as_member-Frames op, unless_joined-Frames op)

  on_group-Frames : (op : Operation) → Ensures (Frames c.db) (on_group op c)
  unfolding on_group
  on_group-Frames Operation.search = refl
  on_group-Frames op = ground (arith, when_dismissed-Frames op, when_open-Frames op)

module _ (env : Env) (cmd : Command) (db : Db) where
  in_group-Frames : (nickname : Bytes) → Ensures (Frames db) (in_group env cmd nickname db)
  unfolding in_group context
  in_group-Frames nickname =
      Ensures-bind (Frames db) (or_throw (group_id cmd.group_id) invalid_group) _ λ named _.
        Ensures-bind (Frames db) (resolve cmd.operation cmd named db) _ λ id _.
          elim (Option-cases (find (is_group id) db.groups)) [
            | inl e ↦ rw e tt
            | inr (row, e) ↦ rw e (on_group-Frames (context env cmd nickname db row) cmd.operation)
          ]

  create-Frames : Ensures (Frames db) (Manage.create env cmd db)
  unfolding Manage.create add_group add_member allocate_group_number
  create-Frames = ground arith

  dispatch-Frames :
      (op : Operation) (nickname : Bytes) → Ensures (Frames db) (dispatch op env cmd nickname db)
  unfolding dispatch Manage.my_applications Manage.list_groups
  dispatch-Frames Operation.my_applications nickname = refl
  dispatch-Frames Operation.list nickname = refl
  dispatch-Frames Operation.create nickname = create-Frames
  dispatch-Frames _ nickname = in_group-Frames nickname

  pub perform-Frames : Ensures (Frames db) (perform env cmd db)
  unfolding perform
  perform-Frames = elim (Option-cases (find (λ (u : UserRow). u.account == cmd.actor) db.users)) [
    | inl e ↦ rw e (ground arith)
    | inr (u, e) ↦ rw e (ground (arith, dispatch-Frames cmd.operation u.nickname))
  ]
