-- ===== src/Outbox/Cancel.antt =====
-- What a friendship that ended stops.
use ape_server.Prelude.{
  ℕ, ◌≤◌, ◌≡◌, refl, inl, inr, true, false, some, [], Bytes, bytes_eq, Bool-cases, Option-cases,
  ==_iff, arith, find, update-All, ok,
}
use ape_server.Outbox.Data.{Task, Db, Json, friend_allows}
use ape_server.Outbox.Queue.{removed_reason, is_cancellable, cancelled, queue_cleanup, pair_id}
use ape_server.Outbox.Lease.{is_task, claim, leased}
use ape_server.Outbox.Process.{
  set_task, Services, returns, carry_message, carry, holds, phase, process,
}
use ape_server.Outbox.Exclusive.{claim-All, is_free}

module _ (j : Json) (w : Services) (task : Task) (now : ℕ) (db : Db) where
  carry-stops :
      (stage : ℕ)
      → task.operation ≡ 1
      → friend_allows task.actor task.peer task.seq db ≡ false
      → carry j w (record task { stage = stage }) now true db
        ≡ returns false [] (
            set_task task.id (λ (t : Task). record t { state = 3; last_error = removed_reason }) db)
  unfolding carry carry_message
  carry-stops stage h n = rw ((==_iff task.operation 1).1 h, n) refl

  phase-stops :
      task.operation ≡ 1
      → friend_allows task.actor task.peer task.seq db ≡ false
      → ((phase j w task now true db).effects ≡ [])
        × ((phase j w task now true db).result ≡ ok false)
  unfolding phase
  phase-stops h n = elim (Option-cases (find (is_task task.id) db.tasks)) [
    | inl e ↦ rw (phase, e) (refl, refl)
    | inr (c, e) ↦ elim (Bool-cases (holds task c)) [
      | inr k ↦ rw (phase, e, k) (refl, refl)
      | inl k ↦ rw (phase, e, k, carry-stops c.stage h n) (refl, refl)
    ]
  ]

  -- No message of accounts that are not friends, or that is as old as the last deletion between
  -- them, is saved, published, cached or delivered.
  pub process-stops :
      task.operation ≡ 1
      → friend_allows task.actor task.peer task.seq db ≡ false
      → (process j w task now db).effects ≡ []
  unfolding process
  process-stops h n = rw ((==_iff task.operation 1).1 h, (phase-stops h n).1) (phase-stops h n).0

  -- A worker that no longer holds the task's lease asks nothing of any store and changes no table.
  pub process-stale :
      (current : Task)
      → find (is_task task.id) db.tasks ≡ some current
      → holds task current ≡ false
      → process j w task now db ≡ returns false [] db
  unfolding process phase
  process-stale current f h = rw (f, h) (ground arith)

-- A message of the pair that is not newer than the cutoff.
abbrev pub IsRemoved : Bytes → ℕ → Task → Type 0
IsRemoved id cutoff t = (t.operation ≡ 1) × (bytes_eq t.conversation id ≡ true) × (t.seq ≤ cutoff)

-- After the chat of two accounts is queued for removal, no claim at any time gives a message of
-- theirs that is not newer than the cutoff.
pub queue_cleanup-claim :
    (actor peer cutoff now : ℕ) (token : Bytes) (db : Db) (t : Task)
    → (claim now token (queue_cleanup actor peer cutoff db)).0 ≡ some t
    → ¬ IsRemoved (pair_id actor peer) cutoff t
unfolding queue_cleanup
queue_cleanup-claim actor peer cutoff now token db t h =
    claim-All (λ u. ¬ IsRemoved (pair_id actor peer) cutoff u) now token
      (queue_cleanup actor peer cutoff db) t
      (update-All
        (λ u. is_free now u ≡ true → ¬ IsRemoved (pair_id actor peer) cutoff (leased now token u))
        (is_cancellable (pair_id actor peer) cutoff) cancelled _ (λ u k f. ground arith)
        (λ u n f (op, own, old). ground (arith, n, f, op, own, old)))
      h
