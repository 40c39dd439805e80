-- ===== src/Outbox/Dedupe.antt =====
-- A message that its sender queues again is the task that was queued first; how long a failed task
-- waits.
use ape_server.Prelude.{
  ℕ, ◌≡◌, refl, sym, ap, ◌∙◌, subst, inl, inr, true, false, none, some, [], ◌∷◌, Bytes,
  bytes_eq_refl, is_empty, Bool-cases, Option-cases, arith, find, find-append, ok, Ensures,
  Ensures-ok, err-ne-ok, ok-injective,
}
use ape_server.Outbox.Data.{Task, Db, Message, Json, refused, friend_allows}
use ape_server.Outbox.Queue.{
  is_single, is_keyed, message_key, message_task, add_task, is_same_message, queued_before,
  queue_single,
}

-- Protobuf prints the message as a text that is not empty and from which it is parsed.
pub record IsLawful (j : Json) (m : Message) : Type 0 where
  pub text : Bytes
  pub prints : j.print m ≡ some text
  pub parses : j.parse text ≡ some m
  pub not_empty : is_empty text ≡ false

friend_allows-add_task :
    (actor peer seq : ℕ) (db : Db) (t : Task)
    → friend_allows actor peer seq (add_task db t) ≡ friend_allows actor peer seq db
unfolding friend_allows
friend_allows-add_task actor peer seq db t = refl

module _ (j : Json) (m : Message) (l : IsLawful j m) (db : Db) where
  abbrev queued : Task
  queued = message_task db m l.text

  found_queued :
      find (is_keyed 1 (message_key m)) db.tasks ≡ none
      → find (is_keyed 1 (message_key m)) (add_task db queued).tasks ≡ some queued
  unfolding find
  found_queued e =
      find-append (is_keyed 1 (message_key m)) db.tasks (queued ∷ []) e
      ∙ rw (bytes_eq_refl (message_key m)) refl

  same_message : is_same_message m m ≡ true
  same_message = ground (arith, bytes_eq_refl m.content)

  queued_before-queued :
      friend_allows m.sender m.receiver m.seq db ≡ true
      → queued_before j m queued (add_task db queued) ≡ ok (queued, add_task db queued)
  unfolding queued_before
  queued_before-queued f =
      rw
        (
          l.not_empty,
          l.parses,
          friend_allows-add_task m.sender m.receiver m.seq db queued,
          f,
          same_message,
        )
        refl

  queue_single-first :
      find (is_keyed 1 (message_key m)) db.tasks ≡ none
      → is_single m ≡ true
      → friend_allows m.sender m.receiver m.seq db ≡ true
      → queue_single j m (add_task db queued) ≡ ok (queued, add_task db queued)
  unfolding queue_single
  queue_single-first e s f =
      rw (s, friend_allows-add_task m.sender m.receiver m.seq db queued, f, found_queued e)
        (queued_before-queued f)

queued_before-same :
    (j : Json) (m : Message) (t : Task) (db : Db)
    → Ensures (λ (o : Task × Db). o.1 ≡ db) (queued_before j m t db)
unfolding queued_before
queued_before-same j m t db = elim (Option-cases (j.parse t.payload)) [
  | inl e ↦ rw e (ground arith)
  | inr (o, e) ↦ rw e (ground arith)
]

-- A queued message that is queued again, before anything else happens, is answered with the same
-- task, and no table changes.
pub queue_single_again :
    (j : Json) (m : Message) (db db' : Db) (t : Task)
    → IsLawful j m
    → queue_single j m db ≡ ok (t, db')
    → queue_single j m db' ≡ ok (t, db')
unfolding queue_single
queue_single_again j m db db' t l h = elim (Bool-cases (is_single m)) [
  | inr s ↦ absurd (err-ne-ok refused (t, db') (rw (queue_single, s) at h))
  | inl s ↦ elim (Bool-cases (friend_allows m.sender m.receiver m.seq db)) [
    | inr f ↦ absurd (err-ne-ok refused (t, db') (rw (queue_single, s, f) at h))
    | inl f ↦ elim (Option-cases (find (is_keyed 1 (message_key m)) db.tasks)) [
      | inr (t', e) ↦
          let same : db' ≡ db =
            Ensures-ok (λ (o : Task × Db). o.1 ≡ db) (queued_before j m t' db) (t, db')
              (queued_before-same j m t' db) (rw (queue_single, s, f, e) at h) in
          subst (λ d. queue_single j m d ≡ ok (t, d)) (sym same) (h ∙ ap (λ d. ok (t, d)) same)
      | inl e ↦
          let made : ok (queued j m l db, add_task db (queued j m l db)) ≡ ok (t, db') =
            rw (queue_single, s, f, e, l.prints) at h in
          let answer = ok-injective _ (t, db') made in
          subst (λ (o : Task × Db). queue_single j m o.1 ≡ ok o) answer
            (queue_single-first j m l db e s f)
    ]
  ]
]
