-- ===== src/Queue/Tests.antt =====
-- A lane that receives two messages, and the theorems applied to it.
use ape_server.Prelude.{
  ℕ, zero, suc, ◌≤◌, ◌≡◌, refl, true, false, some, [], ◌∷◌, ◌++◌, Bytes, codes, All, length, find,
  update, any, bytes_eq, In, ◌<◌, ◌⊎◌,
}
use ape_server.Queue.Consumer.{
  Job, committing, Lane, Consumer, message, is_lane, consume_msg, advance, process_partition,
  update_backpressure, poll,
}
use ape_server.Queue.Reach.{Reach, begin, after, polled, processed, fresh, committing_job}
use ape_server.Queue.Bounded
use ape_server.Queue.Bounded.{Run, Run-IsBounded, always}

abbrev topic : Bytes
topic = codes "chat"

abbrev job : ℕ → Job
job offset = record {
  topic = topic;
  payload = codes "m";
  partition = 3;
  offset = offset;
  generation = 0;
}

-- The lane's worker runs from point to point, with an answer each time.
abbrev work : ℕ → Consumer → Consumer
work zero c = c
work (suc n) c = process_partition topic 3 true (work n c)

work-Reach : (n : ℕ) {c : Consumer} → Reach c → Reach (work n c)
work-Reach zero r = r
work-Reach (suc n) r = after (work-Reach n r) (processed topic 3 true)

abbrev received : Consumer
received =
    consume_msg (message topic 3 1 (codes "m"))
      (consume_msg (message topic 3 0 (codes "m")) (fresh true))

received-Reach : Reach received
received-Reach =
    after (after (begin true) (polled (message topic 3 0 (codes "m"))))
      (polled (message topic 3 1 (codes "m")))

-- The first job is committed, and the second is about to be.
abbrev second : Lane
second = record {
  topic = topic;
  partition = 3;
  jobs = [];
  worker = committing (job 1);
  paused = false;
  pause_generation = 0;
  arrived = job 0 ∷ job 1 ∷ [];
  left = job 0 ∷ [];
  completed = job 0 ∷ job 1 ∷ [];
  commits = 1 ∷ [];
}

found_second : find (is_lane topic 3) (work 9 received).lanes ≡ some second
unfolding find update any bytes_eq consume_msg process_partition advance
found_second = refl

committing_job_example :
    In (job 1) second.completed
    × (second.arrived ≡ second.left ++ (job 1 ∷ second.jobs))
    × All (λ (e : Job). In e second.completed ⊎ (e.generation < 0)) second.left
committing_job_example =
    committing_job (work 9 received) topic 3 second (job 1) (work-Reach 9 received-Reach)
      found_second refl

Run-IsBounded_example :
    All
      (λ (l : Lane). length l.jobs ≤ 128)
      (process_partition topic 3 true
        (poll always (message topic 3 0 (codes "m")) (fresh true))).lanes
unfolding update_backpressure
Run-IsBounded_example = Run-IsBounded (
    Bounded.after
      (Bounded.after (Bounded.begin true) (Bounded.polled (message topic 3 0 (codes "m")) tt))
      (Bounded.processed topic 3 true))
