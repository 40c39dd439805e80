-- ===== src/Group/Talk.antt =====
-- The operations of `perform` on a group's messages: Send, Pull, Ack and Read.
use ape_server.Prelude.{
  ℕ, ◌+◌, max, min, Bool, not, ◌&&◌, ◌||◌, none, some, List, [], ◌∷◌, ◌++◌, Bytes, bytes_eq,
  collates, is_empty, ltb, leb, ◌==◌, if◌then◌else◌, find, select, update, any, order_by, ok, ◌>>◌,
  guard,
}
use ape_server.Group.Data.{
  Db, MemberRow, MessageRow, GroupRow, empty_message, idempotency_conflict, db_error, invalid_seq,
}
use ape_server.Group.Store.{is_group, is_member, is_message_in, page, has_more, cursor_of}
use ape_server.Group.Manage.{Context, Outcome}

abbrev pub is_request : ℕ → ℕ → Bytes → MessageRow → Bool
is_request id sender client m =
    m.group_id == id && (m.sender == sender && collates m.client_id client)

abbrev pub new_message : Context → MessageRow
new_message c = record {
  group_id = c.id;
  seq = c.group.last_seq + 1;
  id = c.env.uuid;
  client_id = c.cmd.client_id;
  sender = c.cmd.actor;
  nickname = c.nickname;
  text = c.cmd.text;
  created_time = c.env.time;
}

-- PRIMARY KEY(group_id,seq), UNIQUE(id), UNIQUE(group_id,sender,client_id)
unfoldable pub clashes : MessageRow → MessageRow → Bool
clashes new old =
    (old.group_id == new.group_id && old.seq == new.seq)
    || (collates old.id new.id || is_request new.group_id new.sender new.client_id old)

abbrev pub is_fresh : Context → Bool
is_fresh c = not (any (clashes (new_message c)) c.db.messages)

abbrev pub append_message : Context → Db
append_message c = record c.db {
  messages = c.db.messages ++ new_message c ∷ [];
  groups =
      update (is_group c.id) (λ (g : GroupRow). record g { last_seq = c.group.last_seq + 1 })
        c.db.groups;
}

unfoldable pub send : Context → Outcome
send c = do
  guard (not (is_empty c.cmd.text)) empty_message
  elim (find (is_request c.id c.cmd.actor c.cmd.client_id) c.db.messages) [
    | some m ↦ do
      guard (bytes_eq m.text c.cmd.text) idempotency_conflict
      ok (c.db, record c.reply { messages = m ∷ [] })
    | none ↦ do
      guard (is_fresh c) db_error
      ok (append_message c, record c.reply { messages = new_message c ∷ [] })
  ]

abbrev pub pull_snapshot : Context → ℕ
pull_snapshot c =
    if c.cmd.snapshot == 0 then c.group.last_seq else min c.cmd.snapshot c.group.last_seq

abbrev pub pull_after : Context → ℕ
pull_after c = max c.cmd.after c.group.join_seq

-- `WHERE group_id={} AND seq>{} AND seq<={} ORDER BY seq`
abbrev pub pull_rows : Context → List MessageRow
pull_rows c =
    order_by (λ (m : MessageRow). m.seq)
      (select
        (λ (m : MessageRow).
          is_message_in c.id m && (ltb (pull_after c) m.seq && leb m.seq (pull_snapshot c)))
        c.db.messages)

unfoldable pub pull : Context → Outcome
pull c = ok (
  c.db,
  record c.reply {
    snapshot = pull_snapshot c;
    cursor = cursor_of (λ (m : MessageRow). m.seq) (pull_after c) (page c.limit (pull_rows c));
    has_more = has_more c.limit (pull_rows c);
    messages = page c.limit (pull_rows c);
  },
)

unfoldable pub advance : Context → (ℕ → MemberRow → MemberRow) → Outcome
advance c write = do
  guard (not (ltb c.group.last_seq c.cmd.after)) invalid_seq
  ok (
    record c.db {
      members =
          update (is_member c.id c.cmd.actor) (write (max c.cmd.after c.group.join_seq))
            c.db.members;
    },
    c.reply,
  )

unfoldable pub acknowledge : Context → Outcome
acknowledge c = advance c (λ seq m. record m { ack_seq = max m.ack_seq seq })

unfoldable pub mark_read : Context → Outcome
mark_read c = advance c (λ seq m. record m { read_seq = max m.read_seq seq })
