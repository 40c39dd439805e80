-- ===== src/Gateway/SessionTests.antt =====
-- Sessions and scans that are run, and the theorems applied to them.
use ape_server.Services.Timed.{timed}
use ape_server.Outbox.Data
use ape_server.Outbox.Data.{Message, friend_allows}
use ape_server.Push.Visible.{with_friend_message, is_committed}
use ape_server.Gateway.Deliver.{
  is_settled, callbacks, deliver_offline_message, queue_offline, expect, wait_offline_batch,
}
use ape_server.Gateway.Settled.{scan-is_settled}
use ape_server.Gateway.Gauge
use ape_server.Gateway.Gauge.{idle}
use ape_server.Gateway.Session.{
  World, Moment, FriendCommand, accept, start_write_queue, acknowledged, try_send, queued_write,
  take_frame, finish_write, on_disconnect,
}
use ape_server.Gateway.Enter.{Request, coded}
use ape_server.Gateway.Answers.{Clients, Codec}
use ape_server.Gateway.Serve.{do_read_loop}
use ape_server.Gateway.Owned.{Owned, do_read_loop-Owned}
use ape_server.Gateway.Offline.{
  Callbacks, is_single_message_for, finished, scan_offline_messages, scan_from, deliver_batch,
}
use ape_server.Gateway.Ascending.{IsAscending, scan-IsAscending}
use ape_server.Gateway.Scanned.{later_than, scan-IsWhole}
use ape_server.Gateway.Steps.{
  IsOrderly, queued, took, wrote, disconnected, begin, after, Reach-IsOrderly,
}
use ape_server.Gateway.Refine.{
  Op, register, unregister, push, query, Directory, Tells, called_on, specified, run_all,
  run_all-refines,
}
use ape_server.Prelude.{
  count, any, bytes_eq, select, delete, find, is_empty, ℕ, ◌+◌, ◌≡◌, refl, true, false, Option,
  none, some, List, [], ◌∷◌, codes, take, arith, find, is_empty,
}

abbrev now : Moment
now = record { at = 100; redis = true }

abbrev opened : World timed
opened = record {
  session = record {
    id = 4;
    account = 0;
    disconnected = false;
    closed = false;
    queue = none;
    writing = none;
    pending = [];
    accepted = [];
    written = [];
    direct = [];
  };
  manager = idle;
  store = [];
  calls = [];
}

-- Two frames are queued, one is written, and the session ends.
abbrev ended : World timed
ended = on_disconnect timed now (
    finish_write timed now true (
      take_frame timed
        (queued_write timed now (coded 209 11 [] [])
          (queued_write timed now (coded 0 11 [] []) (accept timed 11 opened)).1).1))

Reach-IsOrderly_example : IsOrderly timed ended
Reach-IsOrderly_example = Reach-IsOrderly timed (
    after
      (after
        (after
          (after
            (after
              (begin 11 opened
                (record {
                  sound = Gauge.reached-IsSound Gauge.begin;
                  unknown = tt;
                  fresh = refl;
                  idle = refl;
                  silent = refl;
                  quiet = refl;
                })
                refl)
              (queued now (coded 0 11 [] [])))
            (queued now (coded 209 11 [] [])))
          took)
        (wrote now true))
      (disconnected now))

-- A client that writes another account into a command.
abbrev forged : FriendCommand
forged = record {
  actor = 99;
  operation = 0;
  target = 12;
  application_id = 0;
  message = [];
  accept = false;
  after = 0;
  limit = 0;
  snapshot = 0;
}

abbrev services : Clients
services = record {
  send = λ ms. none;
  group = none;
  history = λ h. none;
  conversations = none;
  friends = some (λ c. none);
  acks = λ id k. true;
}

abbrev codec : Codec
codec = record {
  parse_send = λ b. none;
  parse_group = λ b. none;
  parse_history = λ b. none;
  parse_conversation = λ t b. none;
  parse_friend = λ b. some forged;
  parse_acks = λ b. none;
  group_error = λ b. b;
  friend_error = λ b. b;
  serialize = λ f. [];
}

abbrev frames : List (Moment × Option Request)
frames =
    (now, some (record { type = 221; account = 99; request = []; token = []; payload = [] })) ∷ []

do_read_loop-Owned_example :
    Owned timed 11 (do_read_loop timed services codec now frames (accept timed 11 opened))
unfolding accept start_write_queue
do_read_loop-Owned_example =
    do_read_loop-Owned timed 11 services codec now frames (accept timed 11 opened)
      (record { is = refl; asked = tt })

abbrev message : ℕ → Message
message seq = record {
  sender = 12;
  receiver = 11;
  is_group = false;
  session_type = 1;
  client_id = [];
  server_id = codes "m";
  content = [];
  content_type = 0;
  conversation = [];
  seq = seq;
  send_time = 0;
}

abbrev two : List Message
two = message 3 ∷ message 5 ∷ []

-- Deliveries are counted.
abbrev counting : Callbacks ℕ
counting = record {
  fetch = λ a limit n. (some (take limit (later_than a two)), n);
  deliver = λ m n. (true, n + 1);
  wait_offline_batch = λ n. n;
  is_disconnected = λ n. false;
}

two-IsAscending : IsAscending 11 0 two
unfolding is_single_message_for is_empty
two-IsAscending = (omega arith, refl, (omega arith, refl, tt))

scan-IsWhole_example :
    ((scan_offline_messages counting 11 3 0).delivered ≡ two)
    × ((scan_offline_messages counting 11 3 0).end ≡ finished)
scan-IsWhole_example =
    scan-IsWhole 11 counting two (λ n. Unit)
      (record {
        stays = λ s i. refl;
        fetches = λ a l s i. (refl, tt);
        delivers = λ m s i e. (refl, tt);
        waits = λ s i. tt;
      })
      0 two-IsAscending tt

scan-IsAscending_example : IsAscending 11 0 (scan_offline_messages counting 11 3 0).delivered
scan-IsAscending_example = scan-IsAscending counting 11 3 0

abbrev calls : List Op
calls = register 11 1 ∷ register 11 2 ∷ unregister 11 1 ∷ push 11 (codes "hi") ∷ query 11 ∷ []

abbrev nobody : Directory
nobody = record { online = λ a. none; sent = [] }

idle-Tells : Tells idle nobody
unfolding find
idle-Tells = record { online = λ a. refl; sent = refl }

run_all-refines_example :
    ((run_all called_on calls idle).0 ≡ (run_all specified calls nobody).0)
    × Tells (run_all called_on calls idle).1 (run_all specified calls nobody).1
run_all-refines_example = run_all-refines calls idle nobody idle-Tells

-- The two are friends, and the client acknowledges what it is sent.
abbrev friends : Data.Db
friends = record {
  tasks = [];
  next_id = 1;
  friends = record { owner = 11; friend = 12 } ∷ record { owner = 12; friend = 11 } ∷ [];
  deletions = [];
  receipts = [];
  chats = record { conversations = []; unread = [] };
}

abbrev missed : Callbacks (World timed)
missed =
    callbacks timed now (λ m. []) friends (λ o a l. some (take l (later_than a two)))
      (acknowledged timed (codes "m"))

to_the_end : (scan_offline_messages missed 11 3 (accept timed 11 opened)).end ≡ finished
unfolding accept start_write_queue callbacks deliver_offline_message queue_offline expect
    wait_offline_batch scan_from deliver_batch is_single_message_for with_friend_message
    is_committed friend_allows count find any is_empty bytes_eq select delete queued_write try_send
    acknowledged
to_the_end = refl

scan-is_settled_example :
    is_settled (scan_offline_messages missed 11 3 (accept timed 11 opened)).state.session.pending
    ≡ true
unfolding accept start_write_queue
scan-is_settled_example =
    scan-is_settled timed now (λ m. []) friends (λ o a l. some (take l (later_than a two)))
      (acknowledged timed (codes "m")) 3 (accept timed 11 opened) refl to_the_end
