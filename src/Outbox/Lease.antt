-- ===== src/Outbox/Lease.antt =====
-- How a worker takes a task and gives it back: `ClaimOutboxTask`, `RetryOutboxTask` and
-- `GetOutboxTask`.
use ape_server.Prelude.{
  ℕ, ◌+◌, ◌*◌, ◌^◌, min, Bool, ◌&&◌, Option, none, some, List, [], ◌∷◌, Bytes, collates, leb, ◌==◌,
  find, select, update, order_by, take, Result, ok, err,
}
use ape_server.Outbox.Data.{Task, Db, Failure, failed}

abbrev pub is_task : ℕ → Task → Bool
is_task id t = t.id == id

-- ORDER BY the key, then the identifier, LIMIT 1
abbrev pub first : List Task → Option Task
first [] = none
first (t ∷ ts) = some t

abbrev pub earliest : (Task → ℕ) → (Task → Bool) → List Task → Option Task
earliest key p ts = first (order_by key (order_by (λ (t : Task). t.id) (select p ts)))

abbrev pub is_ready : ℕ → Task → Bool
is_ready now t = t.state == 0 && leb t.available_at now

abbrev pub is_expired : ℕ → Task → Bool
is_expired now t = t.state == 1 && leb t.lease_until now

abbrev pub leased : ℕ → Bytes → Task → Task
leased now token t = record t {
  state = 1;
  attempts = t.attempts + 1;
  lease_token = token;
  lease_until = now + 45000;
}

abbrev pub take_lease : ℕ → Bytes → Db → Task → Option Task × Db
take_lease now token db t = (
  some (leased now token t),
  record db { tasks = update (is_task t.id) (leased now token) db.tasks },
)

-- A ready task, or one whose lease has run out. `now` is read once.
unfoldable pub claim : ℕ → Bytes → Db → Option Task × Db
claim now token db = elim (earliest (λ (t : Task). t.available_at) (is_ready now) db.tasks) [
  | some t ↦ take_lease now token db t
  | none ↦ elim (earliest (λ (t : Task). t.lease_until) (is_expired now) db.tasks) [
    | some t ↦ take_lease now token db t
    | none ↦ (none, db)
  ]
]

-- std::min<int64_t>(60000, int64_t{1000} << std::min(attempts, 6))
unfoldable pub delay : ℕ → ℕ
delay attempts = min 60000 (1000 * 2 ^ min attempts 6)

-- The column of the lease is ASCII, and not declared binary.
abbrev pub is_held : Task → Task → Bool
is_held task t = t.id == task.id && (t.state == 1 && collates t.lease_token task.lease_token)

unfoldable pub retry : Task → Bytes → ℕ → Db → Db
retry task error now db = record db {
  tasks =
      update (is_held task)
        (λ (t : Task). record t {
          state = 0;
          available_at = now + delay task.attempts;
          lease_token = [];
          last_error = take 1500 error;
        })
        db.tasks;
}

unfoldable pub get_task : ℕ → Db → Result Failure Task
get_task id db = elim (find (is_task id) db.tasks) [ none ↦ err failed | some t ↦ ok t ]
