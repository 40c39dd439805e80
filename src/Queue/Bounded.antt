-- ===== src/Queue/Bounded.antt =====
-- The size of the lanes of the consumer of src/messagequeue/kafkaconsumer.cpp, under back-pressure.
use ape_server.Prelude.{
  ℕ, ◌≤◌, ◌<◌, ◌≡◌, refl, inl, inr, Bool, true, false, List, [], ◌∷◌, map, Bytes, Bool-cases, arith,
  All, All-append, All-update, update, any, length, length-append,
}
use ape_server.Queue.Consumer.{
  Job, Worker, idle, ended, taken, handling, handled, committing, delayed, Lane, Consumer, Polled,
  message, timed_out, failed, is_lane, new_lane, push_job, with_lane, consume_msg, rebalance,
  shutdown, take_job, advance, process_partition, renew, adjust, update_backpressure, poll,
}
use ape_server.Queue.Reach.{fresh}

abbrev pub always : Lane → Bool
always l = true

abbrev IsBounded : Lane → Type 0
IsBounded l = length l.jobs ≤ 128

-- librdkafka returns no message of a partition that is paused.
abbrev pub IsFrom : Polled → List Lane → Type 0
IsFrom (message topic partition offset payload) ls =
    All (λ (l : Lane). is_lane topic partition l ≡ true → l.paused ≡ false) ls
IsFrom timed_out ls = Unit
IsFrom failed ls = Unit

-- What happens while the broker accepts every pause.
pub data Step (c : Consumer) : Consumer → Type 0 where
  polled : (m : Polled) → IsFrom m (update_backpressure always c).lanes → Step c (poll always m c)
  rebalanced : Step c (rebalance c)
  stopped : Step c (shutdown c)
  processed :
      (topic : Bytes) (partition : ℕ) (answer : Bool)
      → Step c (process_partition topic partition answer c)

pub data Run : Consumer → Type 0 where
  begin : (ready : Bool) → Run (fresh ready)
  after : {c c' : Consumer} → Run c → Step c c' → Run c'

-- After the marks are set: a lane that is not paused has room.
abbrev HasRoom : Lane → Type 0
HasRoom l = (length l.jobs ≤ 128) × (l.paused ≡ false → length l.jobs < 128)

adjust-HasRoom :
    (generation : ℕ) (l : Lane) → IsBounded l → HasRoom (adjust always (renew generation l))
adjust-HasRoom generation l b = ground arith

take_job-IsBounded :
    (js : List Job) (l : Lane) → l.jobs ≡ js → IsBounded l → IsBounded (take_job js l)
take_job-IsBounded [] l e b = b
take_job-IsBounded (j ∷ js) l e b = ground arith

advance-IsBounded :
    (running : Bool) (generation : ℕ) (answer : Bool) (w : Worker) (l : Lane)
    → IsBounded l
    → IsBounded (advance running generation answer w l)
unfolding advance
advance-IsBounded true g answer idle l b = take_job-IsBounded l.jobs l refl b
advance-IsBounded false g answer idle l b = b
advance-IsBounded r g answer (taken j) l b = ground arith
advance-IsBounded r g answer (handling j) l b = ground arith
advance-IsBounded r g answer (handled j) l b = ground arith
advance-IsBounded r g answer (committing j) l b = ground arith
advance-IsBounded r g answer (delayed j) l b = b
advance-IsBounded r g answer ended l b = b

update_backpressure-HasRoom :
    (generation : ℕ) (ls : List Lane)
    → All IsBounded ls
    → All HasRoom (map (λ (l : Lane). adjust always (renew generation l)) ls)
update_backpressure-HasRoom generation [] a = tt
update_backpressure-HasRoom generation (l ∷ ls) a =
    (adjust-HasRoom generation l a.0, update_backpressure-HasRoom generation ls a.1)

with_lane-HasRoom :
    (topic : Bytes) (partition : ℕ) (ls : List Lane)
    → All HasRoom ls
    → All (λ (l : Lane). is_lane topic partition l ≡ true → l.paused ≡ false) ls
    → All
        (λ (l : Lane). HasRoom l × (is_lane topic partition l ≡ true → l.paused ≡ false))
        (with_lane topic partition ls)
with_lane-HasRoom topic partition ls a f = elim (Bool-cases (any (is_lane topic partition) ls)) [
  | inl e ↦ rw e (both ls a f)
  | inr e ↦ rw e (
      All-append _ ls (new_lane topic partition ∷ []) (both ls a f)
        (((omega arith, λ _. omega arith), λ _. refl), tt))
]
  where
    both :
        (ls : List Lane)
        → All HasRoom ls
        → All (λ (l : Lane). is_lane topic partition l ≡ true → l.paused ≡ false) ls
        → All (λ (l : Lane). HasRoom l × (is_lane topic partition l ≡ true → l.paused ≡ false)) ls
    both [] a f = tt
    both (l ∷ ls) a f = ((a.0, f.0), both ls a.1 f.1)

push-IsBounded :
    (topic : Bytes) (partition : ℕ) (j : Job) (ls : List Lane)
    → All (λ (l : Lane). HasRoom l × (is_lane topic partition l ≡ true → l.paused ≡ false)) ls
    → All IsBounded (update (is_lane topic partition) (push_job j) ls)
unfolding update
push-IsBounded topic partition j [] a = tt
push-IsBounded topic partition j (l ∷ ls) a = elim (Bool-cases (is_lane topic partition l)) [
  | inl e ↦
      let room : length l.jobs < 128 = a.0.0.1 (a.0.1 e) in
      rw e (
        omega (arith, room, length-append l.jobs (j ∷ [])),
        push-IsBounded topic partition j ls a.1,
      )
  | inr e ↦ rw e (a.0.0.0, push-IsBounded topic partition j ls a.1)
]

HasRoom-IsBounded : (ls : List Lane) → All HasRoom ls → All IsBounded ls
HasRoom-IsBounded [] a = tt
HasRoom-IsBounded (l ∷ ls) a = (a.0.0, HasRoom-IsBounded ls a.1)

poll-IsBounded :
    (m : Polled) (c : Consumer)
    → All IsBounded c.lanes
    → IsFrom m (update_backpressure always c).lanes
    → All IsBounded (poll always m c).lanes
unfolding poll consume_msg update_backpressure
poll-IsBounded (message topic partition offset payload) c a f =
    let room = update_backpressure-HasRoom c.generation c.lanes a in
    elim (Bool-cases c.ready) [
      | inl e ↦ rw e (
          push-IsBounded topic partition _ _ (
            with_lane-HasRoom topic partition
              (map (λ (l : Lane). adjust always (renew c.generation l)) c.lanes) room f))
      | inr e ↦ rw e (HasRoom-IsBounded _ room)
    ]
poll-IsBounded timed_out c a f =
    HasRoom-IsBounded _ (update_backpressure-HasRoom c.generation c.lanes a)
poll-IsBounded failed c a f =
    HasRoom-IsBounded _ (update_backpressure-HasRoom c.generation c.lanes a)

Step-IsBounded : {c c' : Consumer} → Step c c' → All IsBounded c.lanes → All IsBounded c'.lanes
unfolding rebalance shutdown process_partition
Step-IsBounded {c} (polled m f) a = poll-IsBounded m c a f
Step-IsBounded rebalanced a = a
Step-IsBounded stopped a = a
Step-IsBounded {c} (processed topic partition answer) a =
    All-update IsBounded (is_lane topic partition)
      (λ (l : Lane). advance c.running c.generation answer l.worker l) c.lanes
      (λ l _. advance-IsBounded c.running c.generation answer l.worker l) a

-- While the broker accepts every call to pause or to resume, and returns no message of a lane that
-- is marked as paused, no lane ever has more than 128 jobs in its queue, however its worker and the
-- assignments behave.
pub Run-IsBounded : {c : Consumer} → Run c → All (λ (l : Lane). length l.jobs ≤ 128) c.lanes
Run-IsBounded (begin ready) = tt
Run-IsBounded (after r s) = Step-IsBounded s (Run-IsBounded r)
