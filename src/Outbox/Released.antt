-- ===== src/Outbox/Released.antt =====
-- What a step of `process` makes of the lease of its task.
use ape_server.Prelude.{
  ℕ, ◌≤◌, ◌≡◌, refl, sym, subst, inl, inr, Bool, true, false, ◌&&◌, Option, none, some, List, [],
  ◌∷◌, Bytes, bytes_eq, ◌==◌, if◌then◌else◌, Bool-cases, arith, find, update, count, any, All,
  All-mono, All-both, All-update_to, find-true, All-update, count_unique, count-update, Result, ok,
  err, ok-injective, ◌∙◌,
}
use mathlib.Core.Option
use ape_server.Conversation.Data
use ape_server.Conversation.Record
use ape_server.Outbox.Data.{Message, Task, Db, Json, failed, friend_allows}
use ape_server.Outbox.Queue.{is_receipt, cancelled}
use ape_server.Outbox.Lease.{is_task}
use ape_server.Outbox.Process.{
  Services, Run, save, returns, throws, set_task, finished, conversation_message, persist,
  hand_over, carry_message, is_removed_with, clean, settle, carry,
}

abbrev pub is_under : Bytes → Task → Bool
is_under token t = t.state == 1 && bytes_eq t.lease_token token

module _ (token : Bytes) where
  abbrev pub IsFree : Db → Type 0
  IsFree db = All (λ t. is_under token t ≡ false) db.tasks

  module _ (id : ℕ) where
    -- Only the task is leased under the token.
    abbrev pub IsOnly : Db → Type 0
    IsOnly db = All (λ t. is_under token t ≡ true → t.id ≡ id) db.tasks

    abbrev pub IsOwn : Db → Type 0
    IsOwn db = IsOnly db × (count (is_task id) db.tasks ≤ 1)

    other :
        (t : Task)
        → is_task id t ≡ false
        → (is_under token t ≡ true → t.id ≡ id)
        → is_under token t ≡ false
    other t n h = ground arith

    -- A write that ends the lease of the task.
    released :
        (f : Task → Task) (db : Db)
        → ((t : Task) → is_under token (f t) ≡ false)
        → IsOnly db
        → IsFree (set_task id f db)
    released f db h a =
        All-update_to _ (λ t. is_under token t ≡ false) (is_task id) f db.tasks (λ t e k. h t)
          (λ t e k. other t e k) a

    -- A task that is not held, where no two share an identifier.
    pub not_held-IsFree :
        (c : Task) (db : Db)
        → IsOwn db
        → find (is_task id) db.tasks ≡ some c
        → is_under token c ≡ false
        → IsFree db
    not_held-IsFree c db a e n =
        All-mono _ _ db.tasks
          (λ t (h : (is_under token t ≡ true → t.id ≡ id) × (is_task id t ≡ true → t ≡ c)).
            elim (Bool-cases (is_task id t)) [
              | inl k ↦ subst (λ x. is_under token x ≡ false) (sym (h.1 k)) n
              | inr k ↦ other t k h.0
            ])
          (All-both _ _ db.tasks a.0 (
            count_unique (is_task id) (is_task id) db.tasks c e (find-true (is_task id) db.tasks e)
              a.1))

    pub absent-IsFree :
        (ts : List Task)
        → find (is_task id) ts ≡ none
        → All (λ t. is_under token t ≡ true → t.id ≡ id) ts
        → All (λ t. is_under token t ≡ false) ts
    unfolding find
    absent-IsFree [] e a = tt
    absent-IsFree (t ∷ ts) e a = elim (Bool-cases (is_task id t)) [
      | inl h ↦ absurd (Option.none-ne-some t (sym (rw h at e)))
      | inr h ↦ (other t h a.0, absent-IsFree ts (rw h at e) a.1)
    ]

  pub record Ends (r : Run) : Type 0 where
    pub over : (b : Bool) → r.result ≡ ok b → IsFree r.db

  pub throws-Ends : (r : Run) → r.result ≡ err failed → Ends r
  throws-Ends r e = record { over = λ b q. cc }

  pub free-Ends : (r : Run) → IsFree r.db → Ends r
  free-Ends r a = record { over = λ b q. a }

  module _ (j : Json) (w : Services) (task : Task) (now : ℕ) (db : Db) (a : IsOnly task.id db) where
    hand_over-Ends : (m : Message) → Ends (hand_over w task now m db)
    unfolding hand_over
    hand_over-Ends m = elim (Bool-cases (any (is_receipt task.peer task.server_id) db.receipts)) [
      | inl e ↦ rw (hand_over, e) (free-Ends _ (released task.id finished db (λ t. refl) a))
      | inr e ↦ elim (Bool-cases w.caches) [
        | inr k ↦ rw (hand_over, e, k) (throws-Ends _ refl)
        | inl k ↦ elim (Bool-cases w.confirms) [
          | inr l ↦ rw (hand_over, e, k, l) (throws-Ends _ refl)
          | inl l ↦ rw (hand_over, e, k, l) (free-Ends _ (released task.id _ db (λ t. refl) a))
        ]
      ]
    ]

    settle-Ends : Ends (settle w task db)
    unfolding settle
    settle-Ends = elim (Bool-cases w.marks) [
      | inl e ↦ rw (settle, e) (free-Ends _ (released task.id finished db (λ t. refl) a))
      | inr e ↦ rw (settle, e) (throws-Ends _ refl)
    ]

    clean-Ends : Ends (clean task db)
    unfolding clean
    clean-Ends = free-Ends _ (
        released task.id finished
          (record db { tasks = update (is_removed_with task) cancelled db.tasks }) (λ t. refl)
          (All-update _ (is_removed_with task) cancelled db.tasks (λ t e h k. cc) a))

    handed-Ends :
        (o : Option Message)
        → Ends (elim o [
          | none ↦ throws [] db
          | some m ↦ if false then persist w task m db else hand_over w task now m db
        ])
    handed-Ends none = throws-Ends _ refl
    handed-Ends (some m) = hand_over-Ends m

    message-Ends : Ends (carry_message j w task now false db)
    unfolding carry_message
    message-Ends = elim (Bool-cases (friend_allows task.actor task.peer task.seq db)) [
      | inl e ↦ rw (carry_message, e) (handed-Ends (j.parse task.payload))
      | inr e ↦ rw (carry_message, e) (free-Ends _ (released task.id _ db (λ t. refl) a))
    ]

    pub carry-Ends : Ends (carry j w task now false db)
    unfolding carry
    carry-Ends = elim (Bool-cases (task.operation == 1)) [
      | inl e ↦ rw (carry, e) message-Ends
      | inr e ↦ elim (Bool-cases (task.operation == 2)) [
        | inl k ↦ rw (carry, e, k) clean-Ends
        | inr k ↦ elim (Bool-cases (task.operation == 3)) [
          | inl l ↦ rw (carry, e, k, l) settle-Ends
          | inr l ↦ rw (carry, e, k, l) (throws-Ends _ refl)
        ]
      ]
    ]

  -- After the first phase of a message, the task is still held for the second, or it is over.
  abbrev pub Next : ℕ → Bool → Db → Type 0
  Next id true db = IsOwn id db
  Next id false db = IsFree db

  pub record Leads (id : ℕ) (r : Run) : Type 0 where
    pub goes : (b : Bool) → r.result ≡ ok b → Next id b r.db

  pub throws-Leads : (id : ℕ) (r : Run) → r.result ≡ err failed → Leads id r
  throws-Leads id r e = record { goes = λ b q. cc }

  pub Next-Leads : (id : ℕ) (r : Run) (c : Bool) → r.result ≡ ok c → Next id c r.db → Leads id r
  Next-Leads id r c e n = record {
    goes = λ b q. subst (λ x. Next id x r.db) (ok-injective c b (sym e ∙ q)) n;
  }

  module _ (j : Json) (w : Services) (task : Task) (now : ℕ) (db : Db) (a : IsOwn task.id db) where
    staged :
        (chats : Data.Db)
        → IsOwn task.id
            (set_task task.id (λ (t : Task). record t { stage = 1 }) (record db { chats = chats }))
    staged chats = (
      All-update _ (is_task task.id) (λ (t : Task). record t { stage = 1 }) db.tasks (λ t e h. h)
          a.0,
      subst (λ n. n ≤ 1)
          (sym (
            count-update (is_task task.id) (is_task task.id) (λ (t : Task). record t { stage = 1 })
              db.tasks (λ t e. refl)))
          a.1,
    )

    recorded-Leads :
        (m : Message) (r : Result Data.Failure Data.Db)
        → Leads task.id (elim r [
          | err e ↦ throws (save m ∷ []) db
          | ok chats ↦ returns true (save m ∷ []) (
              set_task task.id (λ (t : Task). record t { stage = 1 }) (record db { chats = chats }))
        ])
    recorded-Leads m (err e) = throws-Leads _ _ refl
    recorded-Leads m (ok chats) = Next-Leads task.id _ true refl (staged chats)

    persist-Leads : (m : Message) → Leads task.id (persist w task m db)
    unfolding persist
    persist-Leads m = elim (Bool-cases (task.stage == 0)) [
      | inr e ↦ rw (persist, e) (Next-Leads task.id _ true refl a)
      | inl e ↦ elim (Bool-cases w.saves) [
        | inr k ↦ rw (persist, e, k) (throws-Leads _ _ refl)
        | inl k ↦
            rw (persist, e, k)
              (recorded-Leads m
                (Record.record_message w.summarise (conversation_message m) db.chats))
      ]
    ]

    parsed-Leads :
        (o : Option Message)
        → Leads task.id (elim o [
          | none ↦ throws [] db
          | some m ↦ if true then persist w task m db else hand_over w task now m db
        ])
    parsed-Leads none = throws-Leads _ _ refl
    parsed-Leads (some m) = persist-Leads m

    message-Leads : Leads task.id (carry_message j w task now true db)
    unfolding carry_message
    message-Leads = elim (Bool-cases (friend_allows task.actor task.peer task.seq db)) [
      | inl e ↦ rw (carry_message, e) (parsed-Leads (j.parse task.payload))
      | inr e ↦
          rw (carry_message, e)
            (Next-Leads task.id _ false refl (released task.id _ db (λ t. refl) a.0))
    ]

    pub carry-Leads : (task.operation == 1) ≡ true → Leads task.id (carry j w task now true db)
    unfolding carry
    carry-Leads o = rw (carry, o) message-Leads
