-- ===== src/Group/Perform.antt =====
-- `perform` of src/storage/mysqlhandler.cpp: the checks that all operations share, in their order.
use ape_server.Prelude.{
  ℕ, Bool, true, false, not, ◌&&◌, ◌||◌, none, some, [], ◌∷◌, Bytes, ltb, leb, ◌==◌, if◌then◌else◌,
  length, find, Result, ok, err, ◌>>=◌, ◌>>◌, guard,
}
use ape_server.Text.Decimal.{group_id, to_string}
use ape_server.Group.Data.{
  Db, Env, Code, Command, Operation, GroupRow, NumberRow, UserRow, invalid_param, invalid_account,
  invalid_group, group_not_found, group_dismissed, not_member, membership_changed, owner_required,
}
use ape_server.Group.Store.{is_group, or_throw, clamp, group_row, member_state, empty_reply}
use ape_server.Group.Manage
use ape_server.Group.Manage.Change
use ape_server.Group.Manage.{Context, Outcome}
use ape_server.Group.Talk

unfoldable pub is_known : Operation → Bool
is_known Operation.unknown = false
is_known _ = true

abbrev pub text_limit : Operation → ℕ
text_limit Operation.send = 65536
text_limit _ = 512

abbrev pub largest_page : Operation → ℕ
largest_page Operation.pull = 50
largest_page _ = 100

abbrev pub page_limit : Command → ℕ
page_limit cmd = clamp cmd.limit (largest_page cmd.operation)

abbrev pub needs_owner : Operation → Bool
needs_owner Operation.applications = true
needs_owner Operation.review = true
needs_owner Operation.rename = true
needs_owner Operation.kick = true
needs_owner Operation.dismiss = true
needs_owner _ = false

-- The operations of a member.
unfoldable pub act : Operation → Context → Outcome
act Operation.members c = Manage.members c
act Operation.applications c = Manage.applications c
act Operation.review c = Change.review c
act Operation.rename c = Change.rename c
act Operation.leave c = Change.remove_member c c.cmd.actor
act Operation.kick c = Change.remove_member c c.cmd.target
act Operation.dismiss c = Change.dismiss c
act Operation.send c = Talk.send c
act Operation.pull c = Talk.pull c
act Operation.ack c = Talk.acknowledge c
act Operation.read c = Talk.mark_read c
act _ c = ok (c.db, c.reply)

unfoldable pub as_member : Operation → Context → Outcome
as_member op c = do
  guard (c.cmd.epoch == 0 || c.cmd.epoch == c.group.epoch) membership_changed
  guard (not (needs_owner op) || c.group.owner == c.cmd.actor) owner_required
  act op c

unfoldable pub unless_joined : Operation → Context → Outcome
unless_joined Operation.leave c = ok (c.db, c.reply)
unless_joined _ c = err not_member

unfoldable pub when_dismissed : Operation → Context → Outcome
when_dismissed Operation.dismiss c =
    if c.group.owner == c.cmd.actor then ok (c.db, c.reply) else err group_dismissed
when_dismissed _ c = err group_dismissed

unfoldable pub when_open : Operation → Context → Outcome
when_open Operation.apply c = Manage.apply c
when_open op c = if c.group.joined then as_member op c else unless_joined op c

unfoldable pub on_group : Operation → Context → Outcome
on_group Operation.search c =
    ok (c.db, record c.reply { group_id = to_string c.group.id; groups = c.group ∷ [] })
on_group op c = if c.group.dismissed then when_dismissed op c else when_open op c

-- Search takes a group number, or a longer identifier as it is.
unfoldable pub resolve : Operation → Command → ℕ → Db → Result Code ℕ
resolve Operation.search cmd id db = elim (find (λ (n : NumberRow). n.number == id) db.numbers) [
  | some n ↦ ok n.group_id
  | none ↦ if leb (length cmd.group_id) 10 then err group_not_found else ok id
]
resolve _ cmd id db = ok id

unfoldable pub context : Env → Command → Bytes → Db → GroupRow → Context
context env cmd nickname db row =
    let g = member_state db (group_row row) cmd.actor in
    record {
      env = env;
      cmd = cmd;
      nickname = nickname;
      db = db;
      id = row.id;
      group = g;
      reply = record (empty_reply cmd.group_id) { epoch = g.epoch };
      limit = page_limit cmd;
    }

unfoldable pub in_group : Env → Command → Bytes → Db → Outcome
in_group env cmd nickname db = do
  named ← or_throw (group_id cmd.group_id) invalid_group
  id ← resolve cmd.operation cmd named db
  row ← or_throw (find (is_group id) db.groups) group_not_found
  on_group cmd.operation (context env cmd nickname db row)

unfoldable pub dispatch : Operation → Env → Command → Bytes → Db → Outcome
dispatch Operation.my_applications env cmd nickname db =
    Manage.my_applications cmd nickname (page_limit cmd) db
dispatch Operation.list env cmd nickname db = Manage.list_groups cmd (page_limit cmd) db
dispatch Operation.create env cmd nickname db = Manage.create env cmd db
dispatch _ env cmd nickname db = in_group env cmd nickname db

unfoldable pub perform : Env → Command → Db → Outcome
perform env cmd db = do
  guard (not (cmd.actor == 0) && is_known cmd.operation) invalid_param
  guard (not (ltb (text_limit cmd.operation) (length cmd.text))) invalid_param
  user ← or_throw (find (λ (u : UserRow). u.account == cmd.actor) db.users) invalid_account
  dispatch cmd.operation env cmd user.nickname db
