-- ===== src/Group/Manage/Change.antt =====
-- The operations of `perform` by which a member changes a group: Review, Rename, Leave, Kick and
-- Dismiss of src/storage/mysqlhandler.cpp.
use ape_server.Prelude.{
  ℕ, ◌+◌, true, false, not, ◌&&◌, ◌||◌, List, [], ◌∷◌, ◌++◌, bytes_eq, is_empty, ltb, ◌==◌,
  if◌then◌else◌, length, find, update, any, ok, ◌>>=◌, ◌>>◌, guard,
}
use ape_server.Group.Data.{
  Db, Command, GroupRow, MemberRow, ApplicationRow, invalid_name, application_not_found,
  application_handled, name_unchanged, owner_cannot_leave,
}
use ape_server.Group.Store.{is_group, is_member, or_throw, recount}
use ape_server.Group.Manage.{Context, Outcome, new_member}

-- The assignments of ON DUPLICATE KEY UPDATE run from left to right, `active=1` last.
unfoldable pub rejoin : ℕ → MemberRow → MemberRow
rejoin seq m = if m.active then m else record m {
  epoch = m.epoch + 1;
  join_seq = seq;
  ack_seq = seq;
  read_seq = seq;
  active = true;
}

unfoldable pub join_member : ℕ → ℕ → ℕ → List MemberRow → List MemberRow
join_member id account seq ms =
    if any (is_member id account) ms
    then update (is_member id account) (rejoin seq) ms
    else ms ++ new_member id account seq ∷ []

-- `cmd.accept() ? 1 : 2`
abbrev pub wanted_status : Command → ℕ
wanted_status cmd = if cmd.accept then 1 else 2

unfoldable pub set_status : ℕ → ℕ → Db → Db
set_status application status db = record db {
  applications =
      update (λ (a : ApplicationRow). a.id == application)
        (λ (a : ApplicationRow). record a { status = status }) db.applications;
}

unfoldable pub accept_member : Context → ℕ → Db
accept_member c target =
    recount c.id (record c.db { members = join_member c.id target c.group.last_seq c.db.members })

unfoldable pub review : Context → Outcome
unfolding set_status
review c = do
  a ←
      or_throw
        (find (λ (a : ApplicationRow). a.id == c.cmd.application_id && a.group_id == c.id)
          c.db.applications)
        application_not_found
  guard (a.status == 0 || a.status == wanted_status c.cmd) application_handled
  let db' = if c.cmd.accept then accept_member c a.account else c.db
  ok (
    if a.status == 0 then set_status c.cmd.application_id (wanted_status c.cmd) db' else c.db,
    c.reply,
  )

unfoldable pub rename : Context → Outcome
rename c = do
  guard (not (is_empty c.cmd.text || ltb 256 (length c.cmd.text))) invalid_name
  guard (not (bytes_eq c.cmd.text c.group.name)) name_unchanged
  ok (
    record c.db {
      groups =
          update (is_group c.id) (λ (g : GroupRow). record g { name = c.cmd.text }) c.db.groups;
    },
    c.reply,
  )

-- `leave` and `kick`, with their target.
unfoldable pub remove_member : Context → ℕ → Outcome
remove_member c target = do
  guard (not (target == c.group.owner)) owner_cannot_leave
  ok (
    recount c.id (record c.db {
      members =
          update (is_member c.id target) (λ (m : MemberRow). record m { active = false })
            c.db.members;
    }),
    c.reply,
  )

unfoldable pub dismiss : Context → Outcome
dismiss c = ok (
  record c.db {
    groups = update (is_group c.id) (λ (g : GroupRow). record g { dismissed = true }) c.db.groups;
    applications =
        update (λ (a : ApplicationRow). a.group_id == c.id && a.status == 0)
          (λ (a : ApplicationRow). record a { status = 3 }) c.db.applications;
  },
  c.reply,
)
