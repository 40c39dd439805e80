-- ===== src/Group/Retry.antt =====
-- A mutation answered once is answered the same way when its sender repeats it.
use ape_server.Prelude.{
  ◌<◌, ◌≡◌, ◌≢◌, refl, sym, ap, ◌∙◌, subst, inl, inr, true, false, some, List, Bytes, bytes_eq,
  bytes_eq→eq, is_empty, Option-cases, Bool-cases, arith, find, find-update_self, All, Result, ok,
  err, ◌>>=◌, Ensures, Ensures-bind,
}
use mathlib.Core.Option
use ape_server.Text.Hex.{hex, unhex-hex, hex_injective}
use ape_server.Group.Data.{idempotency_conflict, Db, Env, Code, Command, Reply, RequestRow}
use ape_server.Group.Perform.{perform}
use ape_server.Group.Execute.{
  Codec, IsLawful, is_mutation, is_request_of, with_request, payload, save_reply, parse_saved,
  first_time, again, mutate, transaction, execute,
}
use ape_server.Group.Frame.{Frames, perform-Frames}
use ape_server.Group.Answered.{
  is_named, Answered, with_request_again, execute_all, execute_all_keeps,
}

parse_saved-hex :
    (p : Codec) (cmd : Command) (r : Reply)
    → IsLawful p cmd r
    → parse_saved p (hex (p.reply_bytes r)) ≡ ok r
unfolding parse_saved
parse_saved-hex p cmd r l = rw (unhex-hex (p.reply_bytes r) l.reply_fits) (rw l.parses refl)

module _ (p : Codec) (cmd : Command) (r : Reply) (l : IsLawful p cmd r) where
  save_reply-Answered :
      (db : Db) (q : RequestRow)
      → is_named cmd ≡ true
      → find (is_request_of cmd) db.requests ≡ some q
      → bytes_eq q.payload (payload p cmd) ≡ true
      → Answered p cmd r (save_reply p cmd r db)
  unfolding save_reply
  save_reply-Answered db q n h e = record {
    named = n;
    row = record q { reply = hex (p.reply_bytes r) };
    found =
        find-update_self (is_request_of cmd)
          (λ (x : RequestRow). record x { reply = hex (p.reply_bytes r) }) db.requests (λ x k. k)
        ∙ ap (Option.map (λ (x : RequestRow). record x { reply = hex (p.reply_bytes r) })) h;
    same = e;
    filled = l.not_empty;
    saved = parse_saved-hex p cmd r l;
  }

  abbrev Answers : Db × Reply → Type 0
  Answers o = o.1 ≡ r → Answered p cmd r o.0

  module _ (db : Db) (q : RequestRow) (h : find (is_request_of cmd) db.requests ≡ some q) where
    first_time-Answered :
        (env : Env)
        → is_named cmd ≡ true
        → bytes_eq q.payload (payload p cmd) ≡ true
        → Ensures Answers (first_time p env cmd db)
    unfolding first_time
    first_time-Answered env n e = after (perform env cmd db) (perform-Frames env cmd db)
      where
        after :
            (m : Result Code (Db × Reply))
            → Ensures (Frames db) m
            → Ensures Answers (m >>= λ o. ok (save_reply p cmd o.1 o.0, o.1))
        after (ok (db', r')) f = λ g.
            subst (λ k. Answered p cmd r (save_reply p cmd k db')) (sym g)
              (save_reply-Answered db' q n (ap (find (is_request_of cmd)) f ∙ h) e)
        after (err c) f = tt

    again-Answered :
        is_named cmd ≡ true
        → bytes_eq q.payload (payload p cmd) ≡ true
        → is_empty q.reply ≡ false
        → Ensures Answers (again p q.reply db)
    unfolding again
    again-Answered n e filled =
        Ensures-bind Answers (parse_saved p q.reply) (λ k. ok (db, k))
          λ k s g. record {
            named = n;
            row = q;
            found = h;
            same = e;
            filled = filled;
            saved = s ∙ ap ok g;
          }

  -- A mutation that was answered leaves its row behind.
  mutate-Answered : (env : Env) (db : Db) → Ensures Answers (mutate p env cmd db)
  unfolding mutate
  mutate-Answered env db =
      elim (Option-cases (find (is_request_of cmd) (with_request p cmd db.requests))) [
        | inl e ↦ rw e (ground arith)
        | inr (old, e) ↦
            let db' = record db { requests = with_request p cmd db.requests } in
            rw e (ground (arith, first_time-Answered db' old e env, again-Answered db' old e))
      ]

-- Its row answers the command again.
mutate-again :
    (p : Codec) (cmd : Command) (r : Reply) (later : Env) (db : Db)
    → Answered p cmd r db
    → mutate p later cmd db ≡ ok (db, r)
unfolding mutate again
mutate-again p cmd r later db a = rw a.named (
    rw (with_request_again p cmd db.requests a.row a.found)
      (rw a.found (rw a.same (rw a.filled (rw a.saved refl)))))

-- A transaction that gave the reply leaves the row behind.
transaction-Answered :
    (p : Codec) (cmd : Command) (r : Reply) (l : IsLawful p cmd r) (db : Db)
    (m : Result Code (Db × Reply))
    → Ensures (Answers p cmd r l) m
    → (transaction db m).0 ≡ ok r
    → Answered p cmd r (transaction db m).1
transaction-Answered p cmd r l db (ok (db', r')) a h = a cc
transaction-Answered p cmd r l db (err c) a h = cc

execute-Answered :
    (p : Codec) (env : Env) (cmd : Command) (db : Db) (r : Reply)
    → IsLawful p cmd r
    → is_mutation cmd.operation ≡ true
    → (execute p env cmd db).0 ≡ ok r
    → Answered p cmd r (execute p env cmd db).1
unfolding execute
execute-Answered p env cmd db r l m h = rw m (
    transaction-Answered p cmd r l db (mutate p env cmd db) (mutate-Answered p cmd r l env db)
      (rw m at h))

execute_again :
    (p : Codec) (later : Env) (cmd : Command) (r : Reply) (db : Db)
    → is_mutation cmd.operation ≡ true
    → Answered p cmd r db
    → execute p later cmd db ≡ (ok r, db)
unfolding execute
execute_again p later cmd r db m a = rw (m, mutate-again p cmd r later db a) refl

-- A mutation that succeeded and is sent again, at any later time and whatever other commands are
-- executed in between, gets the reply of the first time, and the repeated call changes no table, if
-- protobuf parses that reply back from its bytes, which are not empty.
pub execute-retry :
    (p : Codec) (env later : Env) (cmd : Command) (calls : List (Env × Command)) (db : Db)
    (r : Reply)
    → IsLawful p cmd r
    → is_mutation cmd.operation ≡ true
    → (execute p env cmd db).0 ≡ ok r
    → execute p later cmd (execute_all p calls (execute p env cmd db).1)
      ≡ (ok r, execute_all p calls (execute p env cmd db).1)
execute-retry p env later cmd calls db r l m h =
    execute_again p later cmd r (execute_all p calls (execute p env cmd db).1) m (
      execute_all_keeps p cmd r calls (execute p env cmd db).1
        (execute-Answered p env cmd db r l m h))

payload_differs :
    (p : Codec) (cmd other : Command) (saved : Bytes)
    → All (λ b. b < 256) (p.command_bytes cmd)
    → All (λ b. b < 256) (p.command_bytes other)
    → p.command_bytes other ≢ p.command_bytes cmd
    → bytes_eq saved (payload p cmd) ≡ true
    → bytes_eq saved (payload p other) ≡ false
payload_differs p cmd other saved w w' d h = elim (Bool-cases (bytes_eq saved (payload p other))) [
  | inr e ↦ e
  | inl e ↦ absurd (d (hex_injective _ _ w' w (sym (bytes_eq→eq _ _ e) ∙ bytes_eq→eq _ _ h)))
]

-- The row of another command under the same identifier refuses this one.
mutate-conflict :
    (p : Codec) (cmd other : Command) (later : Env) (db : Db) (r : Reply)
    → Answered p cmd r db
    → other.actor ≡ cmd.actor
    → other.client_id ≡ cmd.client_id
    → ((saved : Bytes)
        → bytes_eq saved (payload p cmd) ≡ true
        → bytes_eq saved (payload p other) ≡ false)
    → mutate p later other db ≡ err idempotency_conflict
unfolding mutate
mutate-conflict p cmd other later db r s a c d =
    let named : is_named other ≡ true = rw a (rw c s.named) in
    let found : find (is_request_of other) db.requests ≡ some s.row = rw a (rw c s.found) in
    rw named (
      rw (with_request_again p other db.requests s.row found)
        (rw found (rw (d s.row.payload s.same) refl)))

transaction-conflict :
    (p : Codec) (cmd other : Command) (r : Reply) (l : IsLawful p cmd r) (later : Env) (db : Db)
    (m : Result Code (Db × Reply))
    → Ensures (Answers p cmd r l) m
    → (transaction db m).0 ≡ ok r
    → ((db' : Db) → Answered p cmd r db' → mutate p later other db' ≡ err idempotency_conflict)
    → transaction (transaction db m).1 (mutate p later other (transaction db m).1)
      ≡ (err idempotency_conflict, (transaction db m).1)
transaction-conflict p cmd other r l later db (ok (db', r')) a h k = rw (k db' (a cc)) refl
transaction-conflict p cmd other r l later db (err c) a h k = cc

-- A request identifier that was answered for one command is refused for another one, with no change
-- to any table.
pub execute-conflict :
    (p : Codec) (env later : Env) (cmd other : Command) (db : Db) (r : Reply)
    → IsLawful p cmd r
    → is_mutation cmd.operation ≡ true
    → (execute p env cmd db).0 ≡ ok r
    → is_mutation other.operation ≡ true
    → other.actor ≡ cmd.actor
    → other.client_id ≡ cmd.client_id
    → All (λ b. b < 256) (p.command_bytes other)
    → p.command_bytes other ≢ p.command_bytes cmd
    → execute p later other (execute p env cmd db).1
      ≡ (err idempotency_conflict, (execute p env cmd db).1)
unfolding execute
execute-conflict p env later cmd other db r l m h m' a c w d = rw m (
    rw m' (
      transaction-conflict p cmd other r l later db (mutate p env cmd db)
        (mutate-Answered p cmd r l env db) (rw m at h)
        (λ db' s.
          mutate-conflict p cmd other later db' r s a c
            (λ saved. payload_differs p cmd other saved l.command_fits w d))))
