-- ===== src/Outbox/Turns.antt =====
-- The leases after one turn of the worker: `run_turn`.
use ape_server.Prelude.{
  ℕ, ◌≤◌, ◌≡◌, refl, sym, subst, inl, inr, Bool, true, false, ◌&&◌, Option, none, some, [], Bytes,
  bytes_eq, ◌==◌, arith, Option-cases, count, All, All-mono, All-update_to, count-update, Result,
  ok, err,
}
use ape_server.Outbox.Data.{Task, Db, Json, Failure}
use ape_server.Outbox.Lease.{
  is_task, earliest, is_ready, is_expired, leased, take_lease, claim, retry,
}
use ape_server.Outbox.Process.{Services, Run, process}
use ape_server.Outbox.Worker.{Turn, tell, settle_turn, run_turn}
use ape_server.Outbox.Released.{is_under, IsFree, IsOwn}
use ape_server.Outbox.Phases.{Over, process-Over, retry-IsFree}

module _ (token : Bytes) (db : Db)
    (unused : All (λ t. bytes_eq t.lease_token token ≡ false) db.tasks)
    (keyed : (id : ℕ) → count (is_task id) db.tasks ≤ 1) where
  -- What a claim gives is the one task that is leased under the token.
  abbrev Claims : Option Task × Db → Type 0
  Claims (none, db') = IsFree token db'
  Claims (some t, db') = IsOwn token t.id db' × (t.lease_token ≡ token)

  taken : (now : ℕ) (row : Task) → Claims (take_lease now token db row)
  taken now row = (
    (
      All-update_to _ (λ t. is_under token t ≡ true → t.id ≡ row.id) (is_task row.id)
          (leased now token) db.tasks (λ t e h k. ground arith) (λ t e h k. ground arith) unused,
      subst (λ n. n ≤ 1)
          (sym (
            count-update (is_task row.id) (is_task row.id) (leased now token) db.tasks
              (λ t e. refl)))
          (keyed row.id),
    ),
    refl,
  )

  claim-Claims : (now : ℕ) → Claims (claim now token db)
  unfolding claim
  claim-Claims now =
      elim (Option-cases (earliest (λ (t : Task). t.available_at) (is_ready now) db.tasks)) [
        | inr (t, e) ↦ rw (claim, e) (taken now t)
        | inl e ↦
            elim (Option-cases (earliest (λ (t : Task). t.lease_until) (is_expired now) db.tasks)) [
              | inr (t, k) ↦ rw (claim, e, k) (taken now t)
              | inl k ↦
                  rw (claim, e, k)
                    (All-mono _ (λ t. is_under token t ≡ false) db.tasks (λ t h. ground arith)
                      unused)
            ]
      ]

settled-IsFree :
    (j : Json) (w : Services) (task : Task) (token error : Bytes) (now : ℕ) (r : Run)
    → task.lease_token ≡ token
    → Over token task.id r
    → IsFree token (settle_turn j task error now r).db
settled-IsFree j w task token error now r same h = by_result r.result refl
  where
    by_result :
        (x : Result Failure Bool)
        → r.result ≡ x
        → IsFree token
            (elim x as (λ _. Turn) [
              | ok b ↦ tell j task r.effects r.db
              | err e ↦ tell j task r.effects (retry task error now r.db)
            ]).db
    by_result (ok b) q = h.ends.over b q
    by_result (err e) q = retry-IsFree token j w task now same error r.db (h.kept e q).0

-- After a turn of the worker no task is leased under its token, whichever of the saving, caching,
-- confirming and marking in the other stores fails, when the token is new and no two tasks share an
-- identifier.
pub run_turn-IsFree :
    (j : Json) (w : Services) (token error : Bytes) (now now' now'' : ℕ) (db : Db)
    → All (λ t. bytes_eq t.lease_token token ≡ false) db.tasks
    → ((id : ℕ) → count (is_task id) db.tasks ≤ 1)
    → All
        (λ t. (t.state == 1 && bytes_eq t.lease_token token) ≡ false)
        (run_turn j w token error now now' now'' db).db.tasks
unfolding run_turn
run_turn-IsFree j w token error now now' now'' db u k =
    by_claim (claim now token db) (claim-Claims token db u k now)
  where
    by_claim :
        (p : Option Task × Db)
        → Claims token db u k p
        → IsFree token
            (elim p.0 as (λ _. Turn) [
              | none ↦ record { effects = []; told = none; db = p.1 }
              | some task ↦ settle_turn j task error now'' (process j w task now' p.1)
            ]).db
    by_claim (none, db') c = c
    by_claim (some task, db') c =
        settled-IsFree j w task token error now'' (process j w task now' db') c.1
          (process-Over token j w task now' c.1 db' c.0)
