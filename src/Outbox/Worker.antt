-- ===== src/Outbox/Worker.antt =====
-- The worker of src/services/msg_service/outbox_worker.cpp: one turn of the loop of `Run`, and
-- `notifySender`. MySQL answers every call of the turn.
use ape_server.Prelude.{
  ℕ, Bool, not, ◌&&◌, ◌||◌, Option, none, some, List, [], Bytes, ◌==◌, if◌then◌else◌, ok, err,
}
use ape_server.Outbox.Data.{Message, Task, Db, Json}
use ape_server.Outbox.Lease.{claim, retry, get_task}
use ape_server.Outbox.Process.{Services, Effect, Run, process}

-- What the sender is told: its account, the message, and whether it was cancelled.
pub record Told : Type 0 where
  pub account : ℕ
  pub message : Message
  pub cancelled : Bool

unfoldable pub notify_sender : Json → Task → Option Told
notify_sender j t =
    if not (t.operation == 1)
      || ((t.stage == 0 && not (t.state == 3)) || (t.stage == 1 && t.state == 3))
    then none
    else elim (j.parse t.payload) [
      | none ↦ none
      | some m ↦ some (record { account = t.actor; message = m; cancelled = t.state == 3 })
    ]

-- What a turn asks of the other stores, whom it tells, and the tables.
pub record Turn : Type 0 where
  pub effects : List Effect
  pub told : Option Told
  pub db : Db

abbrev pub tell : Json → Task → List Effect → Db → Turn
tell j task es db = record {
  effects = es;
  told = elim (get_task task.id db) [ err e ↦ none | ok t ↦ notify_sender j t ];
  db = db;
}

-- A task whose processing threw is given back, with the text of what was thrown.
abbrev pub settle_turn : Json → Task → Bytes → ℕ → Run → Turn
settle_turn j task error now r = elim r.result [
  | ok b ↦ tell j task r.effects r.db
  | err e ↦ tell j task r.effects (retry task error now r.db)
]

-- The clock is read once for the claim, once for the processing and once for what follows it.
unfoldable pub run_turn : Json → Services → Bytes → Bytes → ℕ → ℕ → ℕ → Db → Turn
run_turn j w token error now now' now'' db =
    let (claimed, db') = claim now token db in
    elim claimed [
      | none ↦ record { effects = []; told = none; db = db' }
      | some task ↦ settle_turn j task error now'' (process j w task now' db')
    ]
