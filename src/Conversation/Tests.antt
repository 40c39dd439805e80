-- ===== src/Conversation/Tests.antt =====
-- A conversation of two accounts, and the theorems applied to it.
use ape_server.Prelude.{
  ℕ, ◌≡◌, refl, false, [], ◌∷◌, Bytes, codes, ok, find, update, any, Option, some, bytes_eq,
}
use ape_server.Conversation.Data.{ConversationRow, Db, Message}
use ape_server.Conversation.Record
use ape_server.Conversation.Record.{record_message}
use ape_server.Conversation.Sound.{IsSound}
use ape_server.Conversation.Reach.{start, next, recorded, empty, Reach-IsSound}
use ape_server.Conversation.Repeated.{record_all, record_message_again}

abbrev hello : Message
hello = record {
  is_group = false;
  seq = 1;
  conversation = codes "si_11_12";
  sender = 11;
  receiver = 12;
  send_time = 5;
}

abbrev summarise : Message → Option Bytes
summarise m = some (codes "hello")

abbrev row : ℕ → ℕ → ℕ → ConversationRow
row owner peer unread = record {
  owner = owner;
  id = codes "si_11_12";
  peer = peer;
  pinned = false;
  recv_opt = 0;
  hidden = false;
  min_seq = 0;
  max_seq = 1;
  read_seq = 0;
  unread_count = unread;
  latest_time = 5;
  latest_message = codes "hello";
}

-- The receiver has one unread message.
abbrev received : Db
received = record {
  conversations = row 11 12 0 ∷ row 12 11 1 ∷ [];
  unread = record { owner = 12; id = codes "si_11_12"; seq = 1 } ∷ [];
}

hello-recorded : record_message summarise hello empty ≡ ok received
unfolding record_message Record.add_unread Record.adds_unread Record.upsert Record.newer find update
    any bytes_eq
hello-recorded = refl

Reach-IsSound_example : IsSound received
Reach-IsSound_example =
    Reach-IsSound {summarise = summarise}
      (next start (recorded hello empty received hello-recorded))

-- The next message of the other side comes in between.
abbrev answer : Message
answer = record hello { seq = 2; sender = 12; receiver = 11; send_time = 6 }

abbrev answered : Db
answered = record {
  conversations =
      record (row 11 12 1) { max_seq = 2; latest_time = 6 }
      ∷ record (row 12 11 1) { max_seq = 2; latest_time = 6 }
      ∷ [];
  unread =
      record { owner = 12; id = codes "si_11_12"; seq = 1 }
      ∷ record { owner = 11; id = codes "si_11_12"; seq = 2 }
      ∷ [];
}

answer-recorded : record_all summarise (answer ∷ []) received ≡ ok answered
unfolding record_all record_message Record.add_unread Record.adds_unread Record.upsert Record.newer
    find update any bytes_eq
answer-recorded = refl

record_message_again_example : record_message summarise hello answered ≡ ok answered
record_message_again_example =
    record_message_again summarise hello (answer ∷ []) empty received answered hello-recorded
      answer-recorded
