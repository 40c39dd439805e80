-- ===== src/Gateway/Deliver.antt =====
-- `deliverOfflineMessage`, `waitOfflineBatch` and `pullAndPushOfflineMsgs` of
-- src/gateway/ws_session.cpp. MongoDB, and what else happens to the session during a wait, are given.
use ape_server.Services.Redis.{Redis}
use ape_server.Outbox.Data
use ape_server.Outbox.Data.{Message}
use ape_server.Push.Visible.{with_friend_message}
use ape_server.Gateway.Session.{Pending, World, Moment, queued_write, on_disconnect, is_pending}
use ape_server.Gateway.Enter.{coded}
use ape_server.Gateway.Offline.{
  Callbacks, Scan, finished, interrupted, threw, unfinished, scan_offline_messages,
}
use ape_server.Prelude.{
  ℕ, Bool, true, false, Option, List, [], ◌∷◌, Bytes, codes, if◌then◌else◌, delete,
}

-- Whether nothing is waited for.
abbrev pub is_settled : List Pending → Bool
is_settled [] = true
is_settled (p ∷ ps) = false

module _ (r : Redis) where
  -- The message is registered as pending before its frame is queued.
  unfoldable pub expect : Pending → World r → World r
  expect p w = record w {
    session = record w.session { pending = p ∷ delete (is_pending r p.id) w.session.pending };
  }

  unfoldable pub queue_offline : Moment → (Message → Bytes) → Message → World r → Bool × World r
  queue_offline m serialize msg w =
      if w.session.disconnected
      then (false, w)
      else queued_write r m
          (record {
            type = 200;
            account = w.session.account;
            request = msg.server_id;
            code = codes "0";
            token = [];
            payload = serialize msg;
          })
          (expect (record { id = msg.server_id; seq = msg.seq; conversation = msg.conversation }) w)

  -- Nothing is sent that the friends' tables no longer allow, or that was acknowledged.
  unfoldable pub deliver_offline_message :
      Moment → (Message → Bytes) → Data.Db → Message → World r → Bool × World r
  deliver_offline_message m serialize db msg w =
      if with_friend_message msg true db then queue_offline m serialize msg w else (true, w)

  -- Without anything pending nothing is waited for; what is still pending afterwards ends the
  -- session.
  unfoldable pub wait_offline_batch : Moment → (World r → World r) → World r → World r
  wait_offline_batch m meanwhile w =
      let after = meanwhile w in
      if is_settled w.session.pending
      then w
      else if is_settled after.session.pending
      then after
      else on_disconnect r m after

  unfoldable pub callbacks :
      Moment
      → (Message → Bytes)
      → Data.Db
      → (ℕ → ℕ → ℕ → Option (List Message))
      → (World r → World r)
      → Callbacks (World r)
  callbacks m serialize db mongo meanwhile = record {
    fetch = λ after limit w. (mongo w.session.account after limit, w);
    deliver = deliver_offline_message m serialize db;
    wait_offline_batch = wait_offline_batch m meanwhile;
    is_disconnected = λ w. w.session.disconnected;
  }

  -- The end of a scan that was not interrupted is told by a frame of type 209; an exception, as
  -- `handleAuth` catches it, by one with an error.
  abbrev pub completed : Moment → Scan (World r) → World r
  completed m s =
      let w = s.state in
      if w.session.disconnected then w else elim s.end [
        | finished ↦ (queued_write r m (coded 209 w.session.account [] (codes "0")) w).1
        | threw ↦ (queued_write r m (coded 209 w.session.account [] (codes "SYNC_ERROR")) w).1
        | interrupted ↦ w
        | unfinished ↦ w
      ]

  unfoldable pub pull_and_push_offline_msgs :
      ℕ
      → Moment
      → (Message → Bytes)
      → Data.Db
      → (ℕ → ℕ → ℕ → Option (List Message))
      → (World r → World r)
      → World r
      → World r
  pull_and_push_offline_msgs fuel m serialize db mongo meanwhile w =
      completed m
        (scan_offline_messages (callbacks m serialize db mongo meanwhile) w.session.account fuel w)
