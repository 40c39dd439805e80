-- ===== src/Group/Answered.antt =====
-- The rows of group_requests that hold an answer, and what later commands leave of them.
use ape_server.Prelude.{
  if◌then◌else◌, ◌≡◌, refl, sym, ap, ◌∙◌, fun_ext, inl, inr, Bool, true, false, not, ◌&&◌, ◌||◌,
  some, List, [], ◌∷◌, bytes_eq, collates_same, is_empty, ltb, length, Option-cases, Bool-cases,
  ◌==◌, arith, find, find-true, find→any, any, find-append_some, find-update_other, Result, ok, err,
  Ensures, Ensures-bind, Ensures-guard, Ensures-ok,
}
use ape_server.Group.Data.{
  Db, Env, Code, Command, Reply, RequestRow, invalid_request_id, idempotency_conflict,
}
use ape_server.Group.Perform.{perform}
use ape_server.Group.Execute.{
  Codec, is_mutation, is_request_of, with_request, payload, save_reply, parse_saved, first_time,
  again, mutate, transaction, execute,
}
use ape_server.Group.Frame.{Frames, perform-Frames}

abbrev pub is_named : Command → Bool
is_named cmd = not (cmd.actor == 0) && not (is_empty cmd.client_id || ltb 64 (length cmd.client_id))

-- The row of a command that was answered.
pub record Answered (p : Codec) (cmd : Command) (r : Reply) (db : Db) : Type 0 where
  pub named : is_named cmd ≡ true
  pub row : RequestRow
  pub found : find (is_request_of cmd) db.requests ≡ some row
  pub same : bytes_eq row.payload (payload p cmd) ≡ true
  pub filled : is_empty row.reply ≡ false
  pub saved : parse_saved p row.reply ≡ ok r

pub with_request_again :
    (p : Codec) (cmd : Command) (qs : List RequestRow) (q : RequestRow)
    → find (is_request_of cmd) qs ≡ some q
    → with_request p cmd qs ≡ qs
unfolding with_request
with_request_again p cmd qs q h = rw (find→any (is_request_of cmd) qs q h) refl

-- Two commands that share a row have the same rows.
shared :
    (cmd other : Command) (q x : RequestRow)
    → is_request_of cmd q ≡ true
    → is_request_of other q ≡ true
    → is_request_of cmd x ≡ is_request_of other x
shared cmd other q x h k =
    ground (arith, collates_same q.client_id cmd.client_id other.client_id x.client_id)

module _ (p : Codec) (cmd other : Command) (r : Reply) where
  moved :
      (db db' : Db)
      → Answered p cmd r db
      → find (is_request_of cmd) db'.requests ≡ find (is_request_of cmd) db.requests
      → Answered p cmd r db'
  moved db db' a e = record {
    named = a.named;
    row = a.row;
    found = e ∙ a.found;
    same = a.same;
    filled = a.filled;
    saved = a.saved;
  }

  with_request_keeps :
      (qs : List RequestRow) (q : RequestRow)
      → find (is_request_of cmd) qs ≡ some q
      → find (is_request_of cmd) (with_request p other qs) ≡ some q
  unfolding with_request
  with_request_keeps qs q h = elim (Bool-cases (any (is_request_of other) qs)) [
    | inl e ↦ rw e h
    | inr e ↦ rw e (find-append_some (is_request_of cmd) qs _ h)
  ]

  abbrev Keeps : Db × Reply → Type 0
  Keeps o = Answered p cmd r o.0

  module _ (env : Env) (db : Db) (a : Answered p cmd r db) where
    -- The other command has the row: it is a repetition or a conflict.
    row_shared :
        is_request_of other a.row ≡ true
        → (find (is_request_of other) db.requests ≡ some a.row)
          × (with_request p other db.requests ≡ db.requests)
    row_shared t =
        let found : find (is_request_of other) db.requests ≡ some a.row =
          ap (λ f. find f db.requests)
            (fun_ext λ x.
              sym (shared cmd other a.row x (find-true (is_request_of cmd) db.requests a.found) t))
          ∙ a.found in
        (found, with_request_again p other db.requests a.row found)

    shared-Keeps : is_request_of other a.row ≡ true → Ensures Keeps (mutate p env other db)
    unfolding mutate again
    shared-Keeps t =
        let (found, same) = row_shared t in
        Ensures-guard Keeps (is_named other) invalid_request_id _ λ n.
          rw (same, found)
            (Ensures-guard Keeps (bytes_eq a.row.payload (payload p other)) idempotency_conflict _
              λ e.
                rw a.filled
                  (Ensures-bind Keeps (parse_saved p a.row.reply) (λ k. ok (db, k)) λ k s. a))

    save_reply_keeps :
        (k : Reply) (db' : Db)
        → is_request_of other a.row ≡ false
        → find (is_request_of cmd) db'.requests ≡ some a.row
        → Answered p cmd r (save_reply p other k db')
    unfolding save_reply
    save_reply_keeps k db' n h = moved db (save_reply p other k db') a (
        find-update_other (is_request_of cmd) (is_request_of other) _ db'.requests
          (λ x e. let no = apart x e in (no, no))
        ∙ h
        ∙ sym a.found)
      where
        apart : (x : RequestRow) → is_request_of other x ≡ true → is_request_of cmd x ≡ false
        apart x e = elim (Bool-cases (is_request_of cmd x)) [
          | inr m ↦ m
          | inl m ↦
              let both = shared cmd other x a.row m e in
              let mine = find-true (is_request_of cmd) db.requests a.found in cc
        ]

    apart-Keeps : is_request_of other a.row ≡ false → Ensures Keeps (mutate p env other db)
    unfolding mutate again first_time
    apart-Keeps n =
        let db₁ = record db { requests = with_request p other db.requests } in
        let kept = with_request_keeps db.requests a.row a.found in
        Ensures-guard Keeps (is_named other) invalid_request_id _ λ _.
          elim (Option-cases (find (is_request_of other) (with_request p other db.requests))) [
            | inl e ↦ rw e tt
            | inr (old, e) ↦ rw e (
                Ensures-guard Keeps (bytes_eq old.payload (payload p other)) idempotency_conflict _
                  λ _. elim (Bool-cases (is_empty old.reply)) [
                    | inr f ↦ rw f (
                        Ensures-bind Keeps (parse_saved p old.reply) (λ k. ok (db₁, k))
                          λ k s. moved db db₁ a (kept ∙ sym a.found))
                    | inl f ↦ rw f (
                        Ensures-bind Keeps (perform env other db₁)
                          (λ o. ok (save_reply p other o.1 o.0, o.1))
                          λ o s. save_reply_keeps o.1 o.0 n (
                            ap (find (is_request_of cmd)) (
                              Ensures-ok (Frames db₁) (perform env other db₁) o
                                (perform-Frames env other db₁) s)
                            ∙ kept))
                  ])
          ]

    transaction-keeps :
        (m : Result Code (Db × Reply)) → Ensures Keeps m → Answered p cmd r (transaction db m).1
    transaction-keeps (ok o) h = h
    transaction-keeps (err c) h = a

    -- Whatever command is executed, an answer stays.
    pub execute_keeps : Answered p cmd r (execute p env other db).1
    unfolding execute
    execute_keeps =
        transaction-keeps
          (if is_mutation other.operation then mutate p env other db else perform env other db)
          (elim (Bool-cases (is_mutation other.operation)) [
            | inr k ↦ rw k (performed (perform env other db) (perform-Frames env other db))
            | inl k ↦ rw k (elim (Bool-cases (is_request_of other a.row)) [
              | inl t ↦ shared-Keeps t
              | inr n ↦ apart-Keeps n
            ])
          ])
      where
        performed : (m : Result Code (Db × Reply)) → Ensures (Frames db) m → Ensures Keeps m
        performed (ok o) f = moved db o.0 a (ap (find (is_request_of cmd)) f)
        performed (err c) f = tt

-- Commands that are executed one after the other.
unfoldable pub execute_all : Codec → List (Env × Command) → Db → Db
execute_all p [] db = db
execute_all p ((env, cmd) ∷ calls) db = execute_all p calls (execute p env cmd db).1

pub execute_all_keeps :
    (p : Codec) (cmd : Command) (r : Reply) (calls : List (Env × Command)) (db : Db)
    → Answered p cmd r db
    → Answered p cmd r (execute_all p calls db)
unfolding execute_all
execute_all_keeps p cmd r [] db a = a
execute_all_keeps p cmd r ((env, other) ∷ calls) db a =
    execute_all_keeps p cmd r calls (execute p env other db).1
      (execute_keeps p cmd other r env db a)
