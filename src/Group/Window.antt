-- ===== src/Group/Window.antt =====
-- What pulling messages gives: `Pull` of `perform`.
use ape_server.Prelude.{
  range, ◌+◌, ◌-◌, ◌≤◌, min, max, ◌≡◌, map, ltb, All, ℕ, In, ◌==◌, if◌then◌else◌,
}
use ape_server.Group.Data.{Db, Command, GroupRow, MemberRow, MessageRow, Reply}
use ape_server.Group.Store.{has_more}
use ape_server.Group.Talk
use ape_server.Group.Perform.{page_limit}

abbrev seq_of : MessageRow → ℕ
seq_of m = m.seq

-- What a pull by the member m gives: nothing changes, and the reply has, without a gap, the first
-- messages after the given position.
pub record Pulls (db : Db) (row : GroupRow) (m : MemberRow) (cmd : Command) (o : Db × Reply)
    : Type 0 where
  pub unchanged : o.0 ≡ db
  pub snapshot :
      o.1.snapshot ≡ (if cmd.snapshot == 0 then row.last_seq else min cmd.snapshot row.last_seq)
  pub bounded : o.1.snapshot ≤ row.last_seq
  pub stored : All (λ (t : MessageRow). In t db.messages) o.1.messages
  pub own : All (λ (t : MessageRow). t.group_id ≡ row.id) o.1.messages
  pub numbered :
      map seq_of o.1.messages
      ≡ range
          (max cmd.after m.join_seq)
          (min (page_limit cmd) (o.1.snapshot - max cmd.after m.join_seq))
  pub more : o.1.has_more ≡ ltb (page_limit cmd) (o.1.snapshot - max cmd.after m.join_seq)
  pub moved :
      o.1.cursor
      ≡ max cmd.after m.join_seq + min (page_limit cmd) (o.1.snapshot - max cmd.after m.join_seq)
