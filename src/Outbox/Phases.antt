-- ===== src/Outbox/Phases.antt =====
-- What `process` and `retry` make of the lease of a task.
use ape_server.Prelude.{
  ℕ, ◌≡◌, refl, subst, inl, inr, Bool, true, false, ◌&&◌, some, Bytes, bytes_eq, collates_apart,
  ◌==◌, Bool-cases, Option-cases, arith, find, All-update_to, Result, ok, err, ◌++◌,
}
use ape_server.Outbox.Data.{Task, Db, Json, Failure}
use ape_server.Outbox.Lease.{is_task, is_held, retry}
use ape_server.Outbox.Process.{Services, Run, throws, holds, conclude, phase, process}
use ape_server.Outbox.Released.{
  is_under, IsFree, IsOnly, IsOwn, Ends, Leads, throws-Ends, free-Ends, throws-Leads, Next-Leads,
  not_held-IsFree, absent-IsFree, carry-Ends, carry-Leads,
}

module _ (token : Bytes) where
  -- A phase, or all of the processing: when it throws, the task is held as before.
  pub record Over (id : ℕ) (r : Run) : Type 0 where
    pub ends : Ends token r
    pub kept : (e : Failure) → r.result ≡ err e → IsOwn token id r.db

  record Halfway (id : ℕ) (r : Run) : Type 0 where
    leads : Leads token id r
    kept : (e : Failure) → r.result ≡ err e → IsOwn token id r.db

  conclude-Over :
      (id : ℕ) (db : Db) (r : Run) → IsOwn token id db → Ends token r → Over id (conclude db r)
  conclude-Over id db r a h = by_result r.result refl
    where
      by_result :
          (x : Result Failure Bool)
          → r.result ≡ x
          → Over id (elim x [ ok b ↦ r | err e ↦ throws r.effects db ])
      by_result (ok b) q = record { ends = h; kept = λ e p. cc }
      by_result (err e) q = record { ends = throws-Ends token _ refl; kept = λ e p. a }

  conclude-Halfway :
      (id : ℕ) (db : Db) (r : Run)
      → IsOwn token id db
      → Leads token id r
      → Halfway id (conclude db r)
  conclude-Halfway id db r a h = by_result r.result refl
    where
      by_result :
          (x : Result Failure Bool)
          → r.result ≡ x
          → Halfway id (elim x [ ok b ↦ r | err e ↦ throws r.effects db ])
      by_result (ok b) q = record { leads = h; kept = λ e p. cc }
      by_result (err e) q = record { leads = throws-Leads token id _ refl; kept = λ e p. a }

  module _ (j : Json) (w : Services) (task : Task) (now : ℕ) (same : task.lease_token ≡ token) where
    lost :
        (c : Task) (db : Db)
        → IsOwn token task.id db
        → find (is_task task.id) db.tasks ≡ some c
        → holds task c ≡ false
        → IsFree token db
    lost c db a e k =
        not_held-IsFree token task.id c db a e
          (subst (λ (x : Bytes). (c.state == 1 && bytes_eq c.lease_token x) ≡ false) same k)

    phase-Over : (db : Db) → IsOwn token task.id db → Over task.id (phase j w task now false db)
    unfolding phase
    phase-Over db a = elim (Option-cases (find (is_task task.id) db.tasks)) [
      | inl e ↦
          rw (phase, e)
            (record {
              ends = free-Ends token _ (absent-IsFree token task.id db.tasks e a.0);
              kept = λ f p. cc;
            })
      | inr (c, e) ↦ elim (Bool-cases (holds task c)) [
        | inl k ↦
            rw (phase, e, k)
              (conclude-Over task.id db _ a
                (carry-Ends token j w (record task { stage = c.stage }) now db a.0))
        | inr k ↦
            rw (phase, e, k)
              (record { ends = free-Ends token _ (lost c db a e k); kept = λ f p. cc })
      ]
    ]

    phase-Halfway :
        (db : Db)
        → (task.operation == 1) ≡ true
        → IsOwn token task.id db
        → Halfway task.id (phase j w task now true db)
    unfolding phase
    phase-Halfway db o a = elim (Option-cases (find (is_task task.id) db.tasks)) [
      | inl e ↦
          rw (phase, e)
            (record {
              leads =
                  Next-Leads token task.id _ false refl
                    (absent-IsFree token task.id db.tasks e a.0);
              kept = λ f p. cc;
            })
      | inr (c, e) ↦ elim (Bool-cases (holds task c)) [
        | inl k ↦
            rw (phase, e, k)
              (conclude-Halfway task.id db _ a
                (carry-Leads token j w (record task { stage = c.stage }) now db a o))
        | inr k ↦
            rw (phase, e, k)
              (record {
                leads = Next-Leads token task.id _ false refl (lost c db a e k);
                kept = λ f p. cc;
              })
      ]
    ]

    second-Over :
        (r : Run) (x : Result Failure Bool)
        → r.result ≡ x
        → Halfway task.id r
        → Over task.id (elim x [
          | err e ↦ r
          | ok false ↦ r
          | ok true ↦
              let s = phase j w task now false r.db in record s { effects = r.effects ++ s.effects }
        ])
    second-Over r (err e) q h = record { ends = record { over = λ b p. cc }; kept = h.kept }
    second-Over r (ok false) q h = record {
      ends = free-Ends token r (h.leads.goes false q);
      kept = λ e p. cc;
    }
    second-Over r (ok true) q h =
        let o = phase-Over r.db (h.leads.goes true q) in
        record { ends = record { over = o.ends.over }; kept = o.kept }

    pub process-Over : (db : Db) → IsOwn token task.id db → Over task.id (process j w task now db)
    unfolding process
    process-Over db a = elim (Bool-cases (task.operation == 1)) [
      | inl o ↦
          rw (process, o)
            (second-Over (phase j w task now true db) (phase j w task now true db).result refl
              (phase-Halfway db o a))
      | inr o ↦ rw (process, o) (phase-Over db a)
    ]

    pub retry-IsFree :
        (error : Bytes) (db : Db) → IsOnly token task.id db → IsFree token (retry task error now db)
    unfolding retry
    retry-IsFree error db a =
        All-update_to _ (λ t. is_under token t ≡ false) (is_held task) _ db.tasks (λ t e h. refl)
          (λ t e h. elsewhere t h (
            subst
              (λ (x : Bytes).
                (t.id == task.id && (t.state == 1 && bytes_eq t.lease_token x)) ≡ false)
              same (unheld t e)))
          a
      where
        unheld :
            (t : Task)
            → is_held task t ≡ false
            → (t.id == task.id && (t.state == 1 && bytes_eq t.lease_token task.lease_token)) ≡ false
        unheld t e = ground (arith, collates_apart t.lease_token task.lease_token)

        elsewhere :
            (t : Task)
            → (is_under token t ≡ true → t.id ≡ task.id)
            → (t.id == task.id && is_under token t) ≡ false
            → is_under token t ≡ false
        elsewhere t h e = ground arith
