-- ===== src/Push/Tests.antt =====
-- Two friends, one of whom is online, and the theorems applied to a message between them.
use ape_server.Prelude.{
  ◌≡◌, ◌⊎◌, refl, true, false, not, ◌&&◌, Option, none, some, [], ◌∷◌, Bytes, codes, bytes_eq,
  is_empty, ◌==◌, ok, arith, find, any, count, select, update,
}
use ape_server.Outbox.Data
use ape_server.Outbox.Data.{Message, Task, Json, friend_allows}
use ape_server.Outbox.Queue.{
  new_task, queue_ack, acknowledged_message, acknowledge, confirm_dispatch, committed_message,
}
use ape_server.Gateway.Sessions.{Manager, push_to_user}
use ape_server.Push.Visible.{
  is_committed, with_friend_message, filter_visible_messages, message_dispatch_done,
}
use ape_server.Push.Service.{
  World, Network, push_msg, push_single, dispatch, gateway_push, server_id_of, handle, hand_on,
}
use ape_server.Push.Agree.{IsRegular, filter_visible-agrees}
use ape_server.Push.Deliver.{MaySend, push_msg-Pushed}
use ape_server.Push.Handled.{handle-once}
use ape_server.Push.Acknowledged.{handle-acknowledged}

abbrev hello : Message
hello = record {
  sender = 11;
  receiver = 12;
  is_group = false;
  session_type = 1;
  client_id = codes "c1";
  server_id = codes "s1";
  content = codes "hi";
  content_type = 101;
  conversation = codes "11_12";
  seq = 1;
  send_time = 5;
}

-- Its text is saved.
abbrev task : Task
task = record (new_task 1 1 (codes "11:c1") 11 12 (codes "11_12") (codes "s1") 1 (codes "hi")) {
  stage = 1;
}

abbrev tables : Data.Db
tables = record {
  tasks = task ∷ [];
  next_id = 2;
  friends = record { owner = 11; friend = 12 } ∷ record { owner = 12; friend = 11 } ∷ [];
  deletions = [];
  receipts = [];
  chats = record { conversations = []; unread = [] };
}

abbrev gateway : Manager
gateway = record {
  sessions = record { account = 12; session = 5 } ∷ [];
  added = 1;
  removed = 0;
  sent = [];
}

abbrev world : World
world = record { db = tables; gateway = gateway }

abbrev network : Network
network = record {
  answers = true;
  presence = λ account. some (some (codes "1"));
  reaches = true;
  fetch = λ id. some (some hello);
  replies = true;
  serialize = λ m. m.content;
  envelope = λ account binary. binary;
}

abbrev line : Bytes
line = codes "00-ab|s1"

named : server_id_of line ≡ codes "s1"
unfolding server_id_of
named = refl

-- The envelope is in the session's queue, and the dispatch is confirmed.
abbrev handled : World
handled = record {
  db = record tables { tasks = record task { state = 2; dispatch_done = true } ∷ [] };
  gateway = record gateway { sent = record { session = 5; payload = codes "hi" } ∷ [] };
}

handled_first : handle network line world ≡ (true, handled)
unfolding handle hand_on server_id_of message_dispatch_done push_msg push_single with_friend_message
    friend_allows is_committed dispatch gateway_push push_to_user confirm_dispatch find any count
    update bytes_eq is_empty
handled_first = refl

committed_task :
    any
      (λ (t : Task).
        (t.operation == 1 && bytes_eq t.server_id (server_id_of line))
        && (t.stage == 1 && not (t.state == 3)))
      tables.tasks
    ≡ true
unfolding any server_id_of bytes_eq
committed_task = refl

handle-once_example : handle network line handled ≡ (true, handled)
handle-once_example =
    handle-once network network line hello world handled refl refl refl committed_task handled_first

push_msg-Pushed_example :
    ((push_msg network (some hello) world).1 ≡ world)
    ⊎ (MaySend network hello tables
        × ((push_msg network (some hello) world).1
            ≡ record world { gateway = (push_to_user 12 (codes "hi") gateway).1 }))
push_msg-Pushed_example = push_msg-Pushed network hello world

abbrev json : Json
json = record { print = λ m. some m.content; parse = λ text. some hello }

abbrev stored : Bytes → Option Message
stored id = none

abbrev acknowledged : Data.Db
acknowledged = acknowledge 12 (codes "s1") 9 hello tables

found : acknowledged_message json stored 12 (codes "s1") tables ≡ ok (some hello)
unfolding acknowledged_message committed_message find bytes_eq is_empty
found = refl

acked : queue_ack json stored 12 (codes "s1") 9 tables ≡ ok (true, acknowledged)
unfolding queue_ack acknowledged_message committed_message find bytes_eq is_empty
acked = refl

handle-acknowledged_example :
    (handle network line (record { db = acknowledged; gateway = gateway })
      ≡ (true, record { db = acknowledged; gateway = gateway }))
    × ((push_msg network (some hello) (record { db = acknowledged; gateway = gateway })).1
        ≡ record { db = acknowledged; gateway = gateway })
handle-acknowledged_example =
    handle-acknowledged json stored 12 (codes "s1") 9 tables acknowledged hello hello network line
      gateway found acked named refl refl refl refl

tables-IsRegular : IsRegular tables
unfolding count bytes_eq any
tables-IsRegular = record {
  friends = λ a b. ground arith;
  deletions = λ a b. omega arith;
  messages = λ id. ground arith;
  stages = (omega arith, tt);
}

filter_visible-agrees_example :
    filter_visible_messages tables (hello ∷ [])
    ≡ select (λ m. with_friend_message m false tables) (hello ∷ [])
unfolding count is_empty
filter_visible-agrees_example =
    filter_visible-agrees tables (hello ∷ []) tables-IsRegular
      (((λ (e : 11 ≡ 12). absurd (omega arith)), refl), tt) (λ m. ground arith)
