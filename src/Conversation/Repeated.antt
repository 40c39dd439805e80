-- ===== src/Conversation/Repeated.antt =====
-- A message that is delivered again after others is recorded once.
use ape_server.Prelude.{
  ◌≡◌, ap, subst, inl, inr, true, not, ◌||◌, Option, some, List, [], ◌∷◌, Bytes, Bool-cases,
  Option-cases, ◌==◌, Result, ok, err, ◌>>=◌, Ensures, Ensures-ok, ok-injective,
}
use ape_server.Conversation.Data.{Db, Message, Failure, invalid_argument, runtime_error}
use ape_server.Conversation.Record.{upsert_both, add_unread, record_message}
use ape_server.Conversation.Redelivery.{IsRecorded, both_rows-IsRecorded, IsRecorded-again}
use ape_server.Conversation.Lasting.{add_unread-IsRecorded, upsert_both-IsRecorded}

-- A recording that succeeds is the two changes of the tables.
data Records (summarise : Message → Option Bytes) (m : Message) (db : Db)
    : Result Failure Db → Type 0 where
  refused : (e : Failure) → Records summarise m db (err e)
  done :
      (summary : Bytes)
      → (not (m.is_group || m.seq == 0)) ≡ true
      → summarise m ≡ some summary
      → Records summarise m db (ok (add_unread m (upsert_both m summary db)))

record_message-Records :
    (summarise : Message → Option Bytes) (m : Message) (db : Db)
    → Records summarise m db (record_message summarise m db)
unfolding record_message
record_message-Records summarise m db = elim (Bool-cases (not (m.is_group || m.seq == 0))) [
  | inr g ↦ rw g (refused invalid_argument)
  | inl g ↦ rw g (elim (Option-cases (summarise m)) [
    | inl e ↦ rw e (refused runtime_error)
    | inr (summary, e) ↦ rw e (done summary g e)
  ])
]

-- Messages that are recorded one after the other, until one is refused.
unfoldable pub record_all : (Message → Option Bytes) → List Message → Db → Result Failure Db
record_all summarise [] db = ok db
record_all summarise (m ∷ ms) db = record_message summarise m db >>= record_all summarise ms

module _ (summarise : Message → Option Bytes) (m : Message) where
  record_all-IsRecorded :
      (ms : List Message) (db : Db)
      → IsRecorded m db
      → Ensures (IsRecorded m) (record_all summarise ms db)
  unfolding record_all
  record_all-IsRecorded [] db r = r
  record_all-IsRecorded (other ∷ ms) db r =
      told (record_all-IsRecorded ms) (record_message summarise other db)
        (record_message-Records summarise other db)
    where
      told :
          ((d : Db) → IsRecorded m d → Ensures (IsRecorded m) (record_all summarise ms d))
          → (o : Result Failure Db) → Records summarise other db o
          → Ensures (IsRecorded m) (o >>= record_all summarise ms)
      told rest (err e) k = tt
      told rest (ok db') (done summary g e) =
          rest (add_unread other (upsert_both other summary db)) (
            add_unread-IsRecorded m other summary (upsert_both other summary db)
              (upsert_both-IsRecorded m other summary db r))

  -- A message that was recorded in the conversations, and is recorded again after any other messages,
  -- in whatever order they come, changes nothing.
  pub record_message_again :
      (ms : List Message) (db db' db'' : Db)
      → record_message summarise m db ≡ ok db'
      → record_all summarise ms db' ≡ ok db''
      → record_message summarise m db'' ≡ ok db''
  unfolding record_message
  record_message_again ms db db' db'' h k =
      first (record_message summarise m db) (record_message-Records summarise m db) h
    where
      first :
          (o : Result Failure Db)
          → Records summarise m db o
          → o ≡ ok db'
          → record_message summarise m db'' ≡ ok db''
      first (err e) x q = cc
      first (ok d) (done summary g e) q =
          let same : add_unread m (upsert_both m summary db) ≡ db' = ok-injective _ _ q in
          let r : IsRecorded m db'' =
            Ensures-ok (IsRecorded m) (record_all summarise ms db') db''
              (record_all-IsRecorded ms db'
                (subst (IsRecorded m) same (both_rows-IsRecorded m summary db)))
              k in
          rw (g, e) (ap ok (IsRecorded-again m summary db'' r))
