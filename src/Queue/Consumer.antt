-- ===== src/Queue/Consumer.antt =====
-- `KafkaConsumer` of src/messagequeue/kafkaconsumer.cpp. Each partition has a lane: a queue, which
-- the consuming thread fills, and a worker, which empties it. A worker's state is the point between
-- two of its reads of what other threads write.
use ape_server.Prelude.{
  ℕ, ◌+◌, Bool, true, false, not, ◌&&◌, ◌||◌, List, [], ◌∷◌, ◌++◌, map, Bytes, bytes_eq, leb, ◌==◌,
  if◌then◌else◌, length, update, any,
}

pub record Job : Type 0 where
  pub topic : Bytes
  pub payload : Bytes
  pub partition : ℕ
  pub offset : ℕ
  pub generation : ℕ

-- Where `processPartition` stands.
pub data Worker : Type 0 where
  idle ended : Worker
  -- before the test of the inner loop, in the handler, after it, before the commit
  taken handling handled committing : Job → Worker
  -- in the wait of a second after a failure
  delayed : Job → Worker

-- With what happened: the jobs that arrived, those the worker is through with, those its handler
-- returned from, and the offsets that it committed.
pub record Lane : Type 0 where
  pub topic : Bytes
  pub partition : ℕ
  pub jobs : List Job
  pub worker : Worker
  pub paused : Bool
  pub pause_generation : ℕ
  pub arrived : List Job
  pub left : List Job
  pub completed : List Job
  pub commits : List ℕ

pub record Consumer : Type 0 where
  pub running : Bool
  pub generation : ℕ
  -- a handler and a pool are set
  pub ready : Bool
  pub lanes : List Lane

-- What `consume` returns.
pub data Polled : Type 0 where
  message : Bytes → ℕ → ℕ → Bytes → Polled
  timed_out failed : Polled

abbrev pub is_lane : Bytes → ℕ → Lane → Bool
is_lane topic partition l = bytes_eq l.topic topic && l.partition == partition

abbrev pub new_lane : Bytes → ℕ → Lane
new_lane topic partition = record {
  topic = topic;
  partition = partition;
  jobs = [];
  worker = idle;
  paused = false;
  pause_generation = 0;
  arrived = [];
  left = [];
  completed = [];
  commits = [];
}

abbrev pub push_job : Job → Lane → Lane
push_job j l = record l { jobs = l.jobs ++ j ∷ []; arrived = l.arrived ++ j ∷ [] }

abbrev pub with_lane : Bytes → ℕ → List Lane → List Lane
with_lane topic partition ls =
    if any (is_lane topic partition) ls then ls else ls ++ new_lane topic partition ∷ []

unfoldable pub consume_msg : Polled → Consumer → Consumer
consume_msg (message topic partition offset payload) c =
    if c.ready
    then record c {
      lanes =
          update (is_lane topic partition)
            (push_job (record {
              topic = topic;
              payload = payload;
              partition = partition;
              offset = offset;
              generation = c.generation;
            }))
            (with_lane topic partition c.lanes);
    }
    else c
consume_msg timed_out c = c
consume_msg failed c = c

-- `rebalance_cb`
unfoldable pub rebalance : Consumer → Consumer
rebalance c = record c { generation = c.generation + 1 }

unfoldable pub shutdown : Consumer → Consumer
shutdown c = record c { running = false }

-- The inner loop is left.
abbrev pub leave : Job → Lane → Lane
leave j l = record l { worker = idle; left = l.left ++ j ∷ [] }

abbrev pub take_job : List Job → Lane → Lane
take_job [] l = l
take_job (j ∷ js) l = record l { jobs = js; worker = taken j }

-- From one point of `processPartition` to the next; `answer` says whether the handler returns, or
-- the commit is accepted.
unfoldable pub advance : Bool → ℕ → Bool → Worker → Lane → Lane
advance running generation answer idle l =
    if running then take_job l.jobs l else record l { worker = ended }
advance running generation answer (taken j) l =
    if running && j.generation == generation then record l { worker = handling j } else leave j l
advance running generation answer (handling j) l =
    if answer
    then record l { worker = handled j; completed = l.completed ++ j ∷ [] }
    else record l { worker = delayed j }
advance running generation answer (handled j) l =
    if not (j.generation == generation) || not running
    then leave j l
    else record l { worker = committing j }
advance running generation answer (committing j) l =
    if answer
    then leave j (record l { commits = l.commits ++ (j.offset + 1) ∷ [] })
    else record l { worker = delayed j }
advance running generation answer (delayed j) l = record l { worker = taken j }
advance running generation answer ended l = l

unfoldable pub process_partition : Bytes → ℕ → Bool → Consumer → Consumer
process_partition topic partition answer c = record c {
  lanes =
      update (is_lane topic partition)
        (λ (l : Lane). advance c.running c.generation answer l.worker l) c.lanes;
}

-- A pause is forgotten when the partitions are assigned anew.
abbrev pub renew : ℕ → Lane → Lane
renew generation l =
    if l.pause_generation == generation
    then l
    else record l { pause_generation = generation; paused = false }

-- `works` says whether the broker accepts to pause or to resume the lane.
abbrev pub adjust : (Lane → Bool) → Lane → Lane
adjust works l =
    if not l.paused && leb 128 (length l.jobs)
    then if works l then record l { paused = true } else l
    else if l.paused && leb (length l.jobs) 64
    then if works l then record l { paused = false } else l
    else l

unfoldable pub update_backpressure : (Lane → Bool) → Consumer → Consumer
update_backpressure works c = record c {
  lanes = map (λ (l : Lane). adjust works (renew c.generation l)) c.lanes;
}

-- One round of `start`.
unfoldable pub poll : (Lane → Bool) → Polled → Consumer → Consumer
poll works m c = consume_msg m (update_backpressure works c)
