-- ===== src/Group/Tests.antt =====
-- Runs of the group commands on a small database, and the theorems applied to them.
use ape_server.Prelude.{
  List, ℕ, ◌≡◌, refl, ap, true, false, [], ◌∷◌, codes, ok, err, find, update, any, is_empty,
  bytes_eq, collates, none, some, Ensures, arith,
}
use mathlib.Core.Option
use ape_server.Text.Decimal.{group_id}
use ape_server.Text.Hex.{hex}
use ape_server.Group.Store
use ape_server.Group.Manage.Change
use ape_server.Group.Perform
use ape_server.Group.Execute
use ape_server.Group.Data.{
  Db, Env, Command, Operation, Reply, idempotency_conflict, GroupRow, MemberRow,
}
use ape_server.Group.Store.{empty_reply}
use ape_server.Group.Perform.{perform}
use ape_server.Group.Execute.{Codec, IsLawful, is_mutation, execute}
use ape_server.Group.Sound.{IsSound}
use ape_server.Group.Reach.{Names, is_on_group}
use ape_server.Group.Invariant.Execute.{execute-IsSound}
use ape_server.Group.Answered.{execute_all}
use ape_server.Group.Retry.{execute-retry, execute-conflict}
use ape_server.Group.Access.{perform-Admits, Admits}
use ape_server.Group.Send.{perform-Sends, Sends}

abbrev blank : Db
blank = record {
  users =
      record { account = 11; nickname = codes "ann" }
      ∷ record { account = 12; nickname = codes "bob" }
      ∷ [];
  groups = [];
  members = [];
  applications = [];
  next_application = 1;
  messages = [];
  numbers = [];
  next_number = 1000000000;
  requests = [];
}

abbrev env : Env
env = record { snowflake = 7; uuid = codes "u1"; time = 5 }

abbrev command : Operation → ℕ → Command
command op actor = record {
  operation = op;
  actor = actor;
  group_id = codes "7";
  text = [];
  target = 0;
  application_id = 0;
  accept = false;
  after = 0;
  limit = 0;
  snapshot = 0;
  client_id = codes "c1";
  epoch = 0;
}

-- A serialisation that keeps what the replies below have.
abbrev toy : Codec
toy = record {
  command_bytes = λ cmd. cmd.text;
  reply_bytes = λ r. r.epoch ∷ r.group_id;
  parse_reply = λ bs. elim bs [ [] ↦ none | e ∷ id ↦ some (record (empty_reply id) { epoch = e }) ];
}

abbrev create_group : Command
create_group = record (command Operation.create 11) { text = codes "g" }

abbrev group_7 : GroupRow
group_7 = record {
  id = 7;
  name = codes "g";
  owner = 11;
  member_count = 1;
  dismissed = false;
  last_seq = 0;
}

abbrev member_11 : MemberRow
member_11 = record {
  group_id = 7;
  account = 11;
  active = true;
  epoch = 1;
  join_seq = 0;
  ack_seq = 0;
  read_seq = 0;
}

-- The group 7 of account 11, which has no message yet.
abbrev created : Db
created = record blank {
  groups = group_7 ∷ [];
  members = member_11 ∷ [];
  numbers = record { group_id = 7; number = 1000000000 } ∷ [];
  next_number = 1000000001;
}

group_7-Names :
    (cmd : Command)
    → cmd.group_id ≡ codes "7"
    → is_on_group cmd.operation ≡ true
    → Names cmd created group_7
unfolding find group_id
group_7-Names cmd g h = record { id = 7; written = ap group_id g; found = refl; grouped = h }

abbrev rename_group : Command
rename_group = record (command Operation.rename 11) { text = codes "h" }

abbrev renamed : Reply
renamed = record (empty_reply (codes "7")) { epoch = 1 }

abbrev send_hello : Command
send_hello = record (command Operation.send 11) { text = codes "hello" }

blank-IsSound : IsSound blank
unfolding find
blank-IsSound = record { groups = λ id g h. cc; members_linked = tt; messages_linked = tt }

rename_group-mutates : is_mutation Operation.rename ≡ true
unfolding is_mutation
rename_group-mutates = refl

rename_group-succeeds : (execute toy env rename_group created).0 ≡ ok renamed
unfolding Execute.execute Execute.mutate is_empty find Execute.with_request any bytes_eq collates
    hex perform Perform.is_known Perform.dispatch Perform.in_group group_id Perform.resolve
    Perform.on_group Perform.context Store.member_state Execute.first_time Execute.save_reply
    Execute.is_mutation Store.group_row Perform.when_open Perform.as_member Perform.act
    Change.rename update
rename_group-succeeds = refl

rename_group-IsLawful : IsLawful toy rename_group renamed
unfolding hex is_empty
rename_group-IsLawful = record {
  command_fits = (omega arith, tt);
  reply_fits = (omega arith, (omega arith, tt));
  parses = refl;
  not_empty = refl;
}

execute-IsSound_example : IsSound (execute toy env create_group blank).1
execute-IsSound_example = execute-IsSound toy env create_group blank blank-IsSound

abbrev later : Env
later = record { snowflake = 8; uuid = codes "u2"; time = 9 }

-- The same actor renames the group again, in another request.
abbrev rename_otherwise : Command
rename_otherwise = record rename_group { client_id = codes "c9"; text = codes "yo" }

abbrev calls : List (Env × Command)
calls = (later, rename_otherwise) ∷ []

execute-retry_example :
    execute toy later rename_group (execute_all toy calls (execute toy env rename_group created).1)
    ≡ (ok renamed, execute_all toy calls (execute toy env rename_group created).1)
execute-retry_example =
    execute-retry toy env later rename_group calls created renamed rename_group-IsLawful
      rename_group-mutates rename_group-succeeds

abbrev rename_again : Command
rename_again = record rename_group { text = codes "hi" }

execute-conflict_example :
    execute toy later rename_again (execute toy env rename_group created).1
    ≡ (err idempotency_conflict, (execute toy env rename_group created).1)
execute-conflict_example =
    execute-conflict toy env later rename_group rename_again created renamed rename_group-IsLawful
      rename_group-mutates rename_group-succeeds rename_group-mutates refl refl
      (omega arith, (omega arith, tt)) (λ e. cc)

perform-Admits_example : Ensures (λ _. Admits created group_7 11 0) (perform env send_hello created)
perform-Admits_example =
    perform-Admits env send_hello created group_7 (group_7-Names send_hello refl refl) refl

perform-Sends_example : Ensures (Sends group_7 send_hello created) (perform env send_hello created)
perform-Sends_example =
    perform-Sends env send_hello created group_7 (group_7-Names send_hello refl refl) refl

abbrev pull_all : Command
pull_all = record (command Operation.pull 11) { limit = 20 }
