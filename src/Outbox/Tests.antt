-- ===== src/Outbox/Tests.antt =====
-- A message of two friends in the outbox, and the theorems applied to it.
use ape_server.Prelude.{
  collates, ℕ, ◌≤◌, ◌≡◌, ◌≢◌, refl, ◌&&◌, ◌==◌, All, true, false, [], ◌∷◌, codes, some, ok, find,
  update, select, any, count, bytes_eq, is_empty, order_by, insert_by, arith,
}
use ape_server.Text.Decimal.{to_string}
use ape_server.Outbox.Data.{Message, Task, Db, Json, friend_allows}
use ape_server.Outbox.Queue.{new_task, is_single, queue_single, queue_cleanup, pair_id}
use ape_server.Outbox.Lease.{is_task, is_held, claim, leased}
use ape_server.Outbox.Worker.{run_turn}
use ape_server.Outbox.Turns.{run_turn-IsFree}
use ape_server.Outbox.Process.{Services, process}
use ape_server.Outbox.Exclusive.{claim-exclusive}
use ape_server.Outbox.Cancel.{process-stops, queue_cleanup-claim, IsRemoved}
use ape_server.Outbox.Dedupe.{IsLawful, queue_single_again}

abbrev hello : Message
hello = record {
  sender = 11;
  receiver = 12;
  is_group = false;
  session_type = 1;
  client_id = codes "c1";
  server_id = codes "s1";
  content = codes "hi";
  content_type = 101;
  conversation = codes "11_12";
  seq = 1;
  send_time = 5;
}

-- Only the content of a message is printed.
abbrev toy : Json
toy = record { print = λ m. some m.content; parse = λ text. some (record hello { content = text }) }

abbrev blank : Db
blank = record {
  tasks = [];
  next_id = 1;
  friends = [];
  deletions = [];
  receipts = [];
  chats = record { conversations = []; unread = [] };
}

abbrev friends : Db
friends = record blank {
  friends = record { owner = 11; friend = 12 } ∷ record { owner = 12; friend = 11 } ∷ [];
}

abbrev first_task : Task
first_task = new_task 1 1 (codes "11:c1") 11 12 (codes "11_12") (codes "s1") 1 (codes "hi")

abbrev second_task : Task
second_task = new_task 2 1 (codes "11:c2") 11 12 (codes "11_12") (codes "s2") 2 (codes "ho")

abbrev queued : Db
queued = record friends { tasks = first_task ∷ []; next_id = 2 }

abbrev two_queued : Db
two_queued = record friends { tasks = first_task ∷ second_task ∷ []; next_id = 3 }

hello-queued : queue_single toy hello friends ≡ ok (first_task, queued)
unfolding queue_single is_single friend_allows is_empty any find count to_string
hello-queued = refl

hello-IsLawful : IsLawful toy hello
unfolding is_empty
hello-IsLawful = record { text = codes "hi"; prints = refl; parses = refl; not_empty = refl }

queue_single_again_example : queue_single toy hello queued ≡ ok (first_task, queued)
queue_single_again_example =
    queue_single_again toy hello friends queued first_task hello-IsLawful hello-queued

first_claimed : (claim 10 (codes "a") two_queued).0 ≡ some (leased 10 (codes "a") first_task)
unfolding claim select order_by insert_by
first_claimed = refl

second_claimed :
    (claim 20 (codes "b") (claim 10 (codes "a") two_queued).1).0
    ≡ some (leased 20 (codes "b") second_task)
unfolding claim select order_by insert_by update
second_claimed = refl

claim-exclusive_example : second_task.id ≢ first_task.id
claim-exclusive_example =
    claim-exclusive 10 20 (codes "a") (codes "b") two_queued (leased 10 (codes "a") first_task)
      (leased 20 (codes "b") second_task) first_claimed second_claimed (omega arith)

abbrev cleanup_task : Task
cleanup_task = new_task 2 2 (codes "11_12:1") 12 11 (codes "11_12") [] 1 []

cleanup_claimed :
    (claim 10 (codes "a") (queue_cleanup 12 11 1 queued)).0
    ≡ some (leased 10 (codes "a") cleanup_task)
unfolding claim queue_cleanup select order_by insert_by update any bytes_eq to_string
cleanup_claimed = refl

queue_cleanup-claim_example : ¬ IsRemoved (pair_id 12 11) 1 (leased 10 (codes "a") cleanup_task)
queue_cleanup-claim_example =
    queue_cleanup-claim 12 11 1 10 (codes "a") queued (leased 10 (codes "a") cleanup_task)
      cleanup_claimed

abbrev up : Services
up = record { saves = true; caches = true; confirms = true; marks = true; summarise = λ m. some [] }

-- The first task is leased by one worker, and the friendship is gone.
abbrev parted : Db
parted = record blank { tasks = leased 10 (codes "a") first_task ∷ second_task ∷ []; next_id = 3 }

not_friends : friend_allows 11 12 1 parted ≡ false
unfolding friend_allows count
not_friends = refl

process-stops_example : (process toy up (leased 10 (codes "a") first_task) 20 parted).effects ≡ []
process-stops_example =
    process-stops toy up (leased 10 (codes "a") first_task) 20 parted refl not_friends

first_held : is_held (leased 10 (codes "a") first_task) (leased 10 (codes "a") first_task) ≡ true
unfolding collates
first_held = refl

parted_found : find (is_task 1) parted.tasks ≡ some (leased 10 (codes "a") first_task)
unfolding find
parted_found = refl

unused_token : All (λ (t : Task). bytes_eq t.lease_token (codes "a") ≡ false) two_queued.tasks
unfolding bytes_eq
unused_token = (refl, (refl, tt))

two_keys : (id : ℕ) → count (is_task id) two_queued.tasks ≤ 1
unfolding count
two_keys id = ground arith

run_turn-IsFree_example :
    All
      (λ (t : Task). (t.state == 1 && bytes_eq t.lease_token (codes "a")) ≡ false)
      (run_turn toy up (codes "a") (codes "no") 10 20 30 two_queued).db.tasks
run_turn-IsFree_example =
    run_turn-IsFree toy up (codes "a") (codes "no") 10 20 30 two_queued unused_token two_keys
