-- ===== src/Queue/Reach.antt =====
-- The order of the lanes in every state that the consumer reaches.
use ape_server.Prelude.{
  ℕ, ◌+◌, ◌≤◌, ◌≡◌, refl, ap, ◌∙◌, inl, inr, Bool, true, false, some, List, [], ◌∷◌, ◌++◌, Bytes,
  Bool-cases, arith, All, All-append, All-mono, All-find, All-map, All-update, find, any, In, ◌<◌,
  ◌⊎◌,
}
use mathlib.Core.List.{append_assoc}
use ape_server.Queue.Consumer.{
  Job, committing, Lane, Consumer, Polled, message, timed_out, failed, is_lane, new_lane, push_job,
  with_lane, consume_msg, rebalance, shutdown, advance, process_partition, renew, adjust,
  update_backpressure,
}
use ape_server.Queue.Ordered.{IsLeft, IsOrdered, held, advance-IsOrdered, Passed-at, order_at}

pub data Step (c : Consumer) : Consumer → Type 0 where
  polled : (m : Polled) → Step c (consume_msg m c)
  rebalanced : Step c (rebalance c)
  stopped : Step c (shutdown c)
  processed :
      (topic : Bytes) (partition : ℕ) (answer : Bool)
      → Step c (process_partition topic partition answer c)
  adjusted : (works : Lane → Bool) → Step c (update_backpressure works c)

abbrev pub fresh : Bool → Consumer
fresh ready = record { running = true; generation = 0; ready = ready; lanes = [] }

pub data Reach : Consumer → Type 0 where
  begin : (ready : Bool) → Reach (fresh ready)
  after : {c c' : Consumer} → Reach c → Step c c' → Reach c'

abbrev pub AreOrdered : Consumer → Type 0
AreOrdered c = All (IsOrdered c.running c.generation) c.lanes

module _ (running : Bool) (generation : ℕ) where
  push_job-IsOrdered :
      (j : Job) (l : Lane)
      → j.generation ≤ generation
      → IsOrdered running generation l
      → IsOrdered running generation (push_job j l)
  push_job-IsOrdered j l h s = record {
    order =
        ap (λ ks. ks ++ j ∷ []) s.order
        ∙ append_assoc l.left (held l.worker ++ l.jobs) (j ∷ [])
        ∙ ap (λ ks. l.left ++ ks) (append_assoc (held l.worker) l.jobs (j ∷ []));
    known = All-append (λ (e : Job). e.generation ≤ generation) l.arrived (j ∷ []) s.known (h, tt);
    through = s.through;
    passed = s.passed;
    committed = s.committed;
  }

  with_lane-IsOrdered :
      (topic : Bytes) (partition : ℕ) (ls : List Lane)
      → All (IsOrdered running generation) ls
      → All (IsOrdered running generation) (with_lane topic partition ls)
  with_lane-IsOrdered topic partition ls a = elim (Bool-cases (any (is_lane topic partition) ls)) [
    | inl e ↦ rw e a
    | inr e ↦ rw e (
        All-append (IsOrdered running generation) ls (new_lane topic partition ∷ []) a
          (record { order = refl; known = tt; through = tt; passed = tt; committed = tt }, tt))
  ]

  renew-IsOrdered :
      (l : Lane)
      → IsOrdered running generation l
      → IsOrdered running generation (renew generation l)
  renew-IsOrdered l s = ground arith

  adjust-IsOrdered :
      (works : Lane → Bool) (l : Lane)
      → IsOrdered running generation l
      → IsOrdered running generation (adjust works l)
  adjust-IsOrdered works l s = ground arith

-- Neither a new assignment nor the end takes back why a worker was through with a job.
later-IsOrdered :
    (running : Bool) (generation : ℕ) (l : Lane)
    → IsOrdered running generation l
    → IsOrdered running (generation + 1) l × IsOrdered false generation l
later-IsOrdered running generation l s = (
  record {
    order = s.order;
    known =
        All-mono (λ (e : Job). e.generation ≤ generation)
          (λ (e : Job). e.generation ≤ generation + 1) l.arrived (λ e h. omega arith) s.known;
    through =
        All-mono (IsLeft running generation l.completed)
          (IsLeft running (generation + 1) l.completed) l.left
          (λ e h. elim h [
            | inl k ↦ inl k
            | inr (inl k) ↦ inr (inl (omega arith))
            | inr (inr k) ↦ inr (inr k)
          ])
          s.through;
    passed = s.passed;
    committed = s.committed;
  },
  record {
    order = s.order;
    known = s.known;
    through =
        All-mono (IsLeft running generation l.completed) (IsLeft false generation l.completed)
          l.left
          (λ e h. elim h [
            | inl k ↦ inl k
            | inr (inl k) ↦ inr (inl k)
            | inr (inr k) ↦ inr (inr refl)
          ])
          s.through;
    passed = s.passed;
    committed = s.committed;
  },
)

consume_msg-AreOrdered : (m : Polled) (c : Consumer) → AreOrdered c → AreOrdered (consume_msg m c)
unfolding consume_msg
consume_msg-AreOrdered (message topic partition offset payload) c s = elim (Bool-cases c.ready) [
  | inl e ↦ rw e (
      All-update (IsOrdered c.running c.generation) (is_lane topic partition)
        (push_job (record {
          topic = topic;
          payload = payload;
          partition = partition;
          offset = offset;
          generation = c.generation;
        }))
        (with_lane topic partition c.lanes)
        (λ l _.
          push_job-IsOrdered c.running c.generation
            (record {
              topic = topic;
              payload = payload;
              partition = partition;
              offset = offset;
              generation = c.generation;
            })
            l (omega arith))
        (with_lane-IsOrdered c.running c.generation topic partition c.lanes s))
  | inr e ↦ rw e s
]
consume_msg-AreOrdered timed_out c s = s
consume_msg-AreOrdered failed c s = s

Step-AreOrdered : {c c' : Consumer} → Step c c' → AreOrdered c → AreOrdered c'
unfolding rebalance shutdown process_partition update_backpressure
Step-AreOrdered {c} (polled m) s = consume_msg-AreOrdered m c s
Step-AreOrdered {c} rebalanced s =
    All-mono (IsOrdered c.running c.generation) (IsOrdered c.running (c.generation + 1)) c.lanes
      (λ l h. (later-IsOrdered c.running c.generation l h).0) s
Step-AreOrdered {c} stopped s =
    All-mono (IsOrdered c.running c.generation) (IsOrdered false c.generation) c.lanes
      (λ l h. (later-IsOrdered c.running c.generation l h).1) s
Step-AreOrdered {c} (processed topic partition answer) s =
    All-update (IsOrdered c.running c.generation) (is_lane topic partition)
      (λ (l : Lane). advance c.running c.generation answer l.worker l) c.lanes
      (λ l _. advance-IsOrdered c.running c.generation answer l.worker l refl) s
Step-AreOrdered {c} (adjusted works) s =
    All-map (IsOrdered c.running c.generation) (λ (l : Lane). adjust works (renew c.generation l))
      c.lanes
      (λ l h.
        adjust-IsOrdered c.running c.generation works (renew c.generation l)
          (renew-IsOrdered c.running c.generation l h))
      s

-- In every state that the consumer reaches, whatever messages, assignments, answers and pauses come,
-- each lane is ordered: what arrived is what its worker is through with, then what it holds, then
-- its queue; a job that the worker is through with is handled, or of an earlier assignment, or the
-- consumer stops; and each offset committed is one past that of a job whose handler returned.
pub Reach-AreOrdered : {c : Consumer} → Reach c → AreOrdered c
Reach-AreOrdered (begin ready) = tt
Reach-AreOrdered (after r s) = Step-AreOrdered s (Reach-AreOrdered r)

-- When a worker is about to commit a job, the handler returned from it; what arrived in the lane is
-- the jobs that the worker is through with, then that job, then the queue; and each of those that the
-- worker is through with is of an earlier assignment, or the handler returned from it.
pub committing_job :
    (c : Consumer) (topic : Bytes) (partition : ℕ) (l : Lane) (j : Job)
    → Reach c
    → find (is_lane topic partition) c.lanes ≡ some l
    → l.worker ≡ committing j
    → In j l.completed
      × (l.arrived ≡ l.left ++ (j ∷ l.jobs))
      × All (λ (e : Job). In e l.completed ⊎ (e.generation < j.generation)) l.left
committing_job c topic partition l j r f w =
    let s : IsOrdered c.running c.generation l =
      All-find (IsOrdered c.running c.generation) (is_lane topic partition) c.lanes
        (Reach-AreOrdered r) f in
    let p = Passed-at c.running c.generation l s (committing j) w in
    (
      p.1,
      order_at c.running c.generation l s (committing j) w,
      All-mono (IsLeft true j.generation l.completed)
          (λ (e : Job). In e l.completed ⊎ (e.generation < j.generation)) l.left
          (λ e h. elim h [ inl k ↦ inl k | inr (inl k) ↦ inr k | inr (inr k) ↦ cc ]) p.0,
    )
