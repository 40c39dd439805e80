-- ===== src/Group/Invariant/Execute.antt =====
-- A command in its transaction keeps the tables consistent, whether it succeeds or fails.
use ape_server.Prelude.{
  inl, inr, Bytes, Option-cases, arith, find, Result, ok, err, Ensures, Ensures-bind, Ensures-if,
}
use ape_server.Group.Data.{Db, Env, Code, Command, Reply}
use ape_server.Group.Execute.{
  Codec, is_mutation, is_request_of, with_request, save_reply, parse_saved, first_time, again,
  mutate, transaction, execute,
}
use ape_server.Group.Sound.{IsSound}
use ape_server.Group.Invariant.Messages.{Keeps}
use ape_server.Group.Invariant.Perform.{perform-Keeps}

module _ (p : Codec) (env : Env) (cmd : Command) where
  first_time-Keeps : (db : Db) → IsSound db → Ensures Keeps (first_time p env cmd db)
  unfolding first_time save_reply
  first_time-Keeps db s = ground (arith, perform-Keeps env cmd db s)

  again-Keeps : (saved : Bytes) (db : Db) → IsSound db → Ensures Keeps (again p saved db)
  unfolding again
  again-Keeps saved db s = Ensures-bind Keeps (parse_saved p saved) (λ r. ok (db, r)) λ r _. s

  mutate-Keeps : (db : Db) → IsSound db → Ensures Keeps (mutate p env cmd db)
  unfolding mutate
  mutate-Keeps db s =
      elim (Option-cases (find (is_request_of cmd) (with_request p cmd db.requests))) [
        | inl e ↦ rw e (ground arith)
        | inr (old, e) ↦
            let db' = record db { requests = with_request p cmd db.requests } in
            rw e (ground (arith, first_time-Keeps db' s, again-Keeps old.reply db' s))
      ]

transaction-IsSound :
    (db : Db) (r : Result Code (Db × Reply))
    → IsSound db
    → Ensures Keeps r
    → IsSound (transaction db r).1
transaction-IsSound db (ok r) s k = k
transaction-IsSound db (err c) s k = s

-- Every command keeps the group tables consistent, whether it succeeds or fails: the member count
-- of a group counts its active members, its messages are numbered from 1 to its last number, its
-- owner is an active member, no member's position is past the last number, and every member and
-- message belongs to a group that exists.
pub execute-IsSound :
    (p : Codec) (env : Env) (cmd : Command) (db : Db)
    → IsSound db
    → IsSound (execute p env cmd db).1
unfolding execute
execute-IsSound p env cmd db s = transaction-IsSound db _ s (
    Ensures-if Keeps (is_mutation cmd.operation) _ _ (λ _. mutate-Keeps p env cmd db s)
      (λ _. perform-Keeps env cmd db s))
