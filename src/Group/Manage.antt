-- ===== src/Group/Manage.antt =====
-- The operations of `perform` that list groups and their members, create and apply, one function for
-- each branch of src/storage/mysqlhandler.cpp.
pub mod Change
use mathlib.Core.List.{filter_map}
use ape_server.Prelude.{
  ℕ, ◌+◌, true, false, not, ◌&&◌, ◌||◌, Option, none, some, List, [], ◌∷◌, ◌++◌, map, Bytes,
  bytes_eq, is_empty, ltb, ◌==◌, if◌then◌else◌, length, find, select, update, any, order_by, Result,
  ok, err, ◌>>=◌, ◌>>◌, guard,
}
use ape_server.Text.Decimal.{to_string}
use ape_server.Group.Data.{
  Db, Env, Code, Command, GroupRow, MemberRow, ApplicationRow, NumberRow, UserRow, Group, Member,
  Application, Reply, invalid_name, db_error, already_joined, application_not_found,
  application_handled, name_unchanged, owner_cannot_leave,
}
use ape_server.Group.Store.{
  is_group, is_member, is_active_in, or_throw, page, has_more, cursor_of, group_row, member_state,
  allocate_group_number, recount, empty_reply,
}

-- What `perform` has at hand when it acts on one group.
pub record Context : Type 0 where
  pub env : Env
  pub cmd : Command
  pub nickname : Bytes
  pub db : Db
  pub id : ℕ
  pub group : Group
  pub reply : Reply
  pub limit : ℕ

abbrev pub Outcome : Type 0
Outcome = Result Code (Db × Reply)

-- An application with the name and the number of its group; the inner joins drop it without them.
joined_application : Db → Bytes → ApplicationRow → Option Application
joined_application db nickname a = elim (find (is_group a.group_id) db.groups) [
  | none ↦ none
  | some g ↦ elim (find (λ (n : NumberRow). n.group_id == g.id) db.numbers) [
    | none ↦ none
    | some n ↦ some (record {
      id = a.id;
      group_id = a.group_id;
      account = a.account;
      nickname = nickname;
      reason = a.reason;
      status = a.status;
      time = a.created_time;
      group_name = g.name;
      group_number = some n.number;
    })
  ]
]

unfoldable pub my_applications : Command → Bytes → ℕ → Db → Outcome
unfolding joined_application
my_applications cmd nickname limit db =
    let mine = filter_map (joined_application db nickname) (
      order_by (λ (a : ApplicationRow). a.id)
        (select (λ (a : ApplicationRow). a.account == cmd.actor && ltb cmd.after a.id)
          db.applications)) in
    ok (
      db,
      record (empty_reply cmd.group_id) {
        applications = page limit mine;
        has_more = has_more limit mine;
        cursor = cursor_of (λ (a : Application). a.id) 0 (page limit mine);
      },
    )

unfoldable pub list_groups : Command → ℕ → Db → Outcome
list_groups cmd limit db =
    let mine =
      order_by (λ (g : GroupRow). g.id)
        (select (λ (g : GroupRow). any (is_member g.id cmd.actor) db.members && ltb cmd.after g.id)
          db.groups) in
    ok (
      db,
      record (empty_reply cmd.group_id) {
        groups = map (λ (g : GroupRow). member_state db (group_row g) cmd.actor) (page limit mine);
        has_more = has_more limit mine;
        cursor = cursor_of (λ (g : GroupRow). g.id) 0 (page limit mine);
      },
    )

-- The INSERTs leave out the columns that have defaults.
abbrev pub new_group : ℕ → Command → GroupRow
new_group id cmd = record {
  id = id;
  name = cmd.text;
  owner = cmd.actor;
  member_count = 1;
  dismissed = false;
  last_seq = 0;
}

abbrev pub new_member : ℕ → ℕ → ℕ → MemberRow
new_member id account seq = record {
  group_id = id;
  account = account;
  active = true;
  epoch = 1;
  join_seq = seq;
  ack_seq = seq;
  read_seq = seq;
}

unfoldable pub add_group : Db → ℕ → Command → Result Code Db
add_group db id cmd = do
  guard (not (any (is_group id) db.groups)) db_error
  ok (record db { groups = db.groups ++ new_group id cmd ∷ [] })

unfoldable pub add_member : Db → ℕ → ℕ → Result Code Db
add_member db id account = do
  guard (not (any (is_member id account) db.members)) db_error
  ok (record db { members = db.members ++ new_member id account 0 ∷ [] })

unfoldable pub create : Env → Command → Db → Outcome
unfolding add_group add_member
create env cmd db = do
  guard (not (is_empty cmd.text || ltb 256 (length cmd.text))) invalid_name
  let id = env.snowflake
  db₁ ← add_group db id cmd
  db₂ ← allocate_group_number db₁ id
  db₃ ← add_member db₂ id cmd.actor
  row ← or_throw (find (is_group id) db₃.groups) db_error
  ok (
    db₃,
    record (empty_reply (to_string id)) {
      groups = member_state db₃ (group_row row) cmd.actor ∷ [];
    },
  )

unfoldable pub apply : Context → Outcome
apply c =
    if c.group.joined
    then err already_joined
    else if any
        (λ (a : ApplicationRow). a.group_id == c.id && (a.account == c.cmd.actor && a.status == 0))
        c.db.applications
    then ok (c.db, c.reply)
    else ok (
      record c.db {
        applications =
            c.db.applications
            ++ record {
              id = c.db.next_application;
              group_id = c.id;
              account = c.cmd.actor;
              reason = c.cmd.text;
              status = 0;
              created_time = c.env.time;
            }
              ∷ [];
        next_application = c.db.next_application + 1;
      },
      c.reply,
    )

unfoldable pub members : Context → Outcome
members c =
    let rows =
      filter_map
        (λ (m : MemberRow). elim (find (λ (u : UserRow). u.account == m.account) c.db.users) [
          | none ↦ none
          | some u ↦ some (record {
            account = m.account;
            nickname = u.nickname;
            owner = m.account == c.group.owner;
          })
        ])
        (order_by (λ (m : MemberRow). m.account)
          (select (λ (m : MemberRow). is_active_in c.id m && ltb c.cmd.after m.account)
            c.db.members)) in
    ok (
      c.db,
      record c.reply {
        members = page c.limit rows;
        has_more = has_more c.limit rows;
        cursor = cursor_of (λ (m : Member). m.account) c.reply.cursor (page c.limit rows);
      },
    )

unfoldable pub applications : Context → Outcome
applications c =
    let rows =
      filter_map
        (λ (a : ApplicationRow). elim (find (λ (u : UserRow). u.account == a.account) c.db.users) [
          | none ↦ none
          | some u ↦ some (record {
            id = a.id;
            group_id = c.id;
            account = a.account;
            nickname = u.nickname;
            reason = a.reason;
            status = a.status;
            time = a.created_time;
            group_name = [];
            group_number = none;
          })
        ])
        (order_by (λ (a : ApplicationRow). a.id)
          (select
            (λ (a : ApplicationRow). a.group_id == c.id && (ltb c.cmd.after a.id && a.status == 0))
            c.db.applications)) in
    ok (
      c.db,
      record c.reply {
        applications = page c.limit rows;
        has_more = has_more c.limit rows;
        cursor = cursor_of (λ (a : Application). a.id) c.reply.cursor (page c.limit rows);
      },
    )
