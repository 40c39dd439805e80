-- ===== src/Push/Deliver.antt =====
-- What `push_msg` hands to the gateway.
use ape_server.Prelude.{
  ◌≡◌, refl, sym, ap, subst, ◌⊎◌, inl, inr, Bool, true, false, not, ◌&&◌, ◌||◌, Option, some, Bytes,
  Bool-cases, Option-cases, ◌==◌, arith, any, is_empty,
}
use ape_server.Outbox.Data
use ape_server.Outbox.Data.{Message, Task, ReceiptRow, Json, Failure, refused, friend_allows}
use ape_server.Outbox.Queue.{is_receipt}
use ape_server.Gateway.Sessions.{push_to_user}
use ape_server.Push.Visible.{is_committed, with_friend_message}
use ape_server.Push.Service.{
  World, Network, is_present, gateway_push, dispatch, push_single, push_msg,
}

-- What must hold for a message to reach the gateway.
pub record MaySend (n : Network) (m : Message) (db : Data.Db) : Type 0 where
  pub single : m.is_group ≡ false
  pub allowed : friend_allows m.sender m.receiver m.seq db ≡ true
  pub committed : (is_empty m.server_id || is_committed m.server_id db) ≡ true
  pub unreceived :
      (is_empty m.server_id || not (any (is_receipt m.receiver m.server_id) db.receipts)) ≡ true
  pub online : (v : Option Bytes) × (n.presence m.receiver ≡ some v) × (is_present v ≡ true)

-- A push changes nothing, or is one envelope of its message for its receiver.
data Pushed (n : Network) (m : Message) (w : World) (w' : World) : Type 0 where
  nothing : w' ≡ w → Pushed n m w w'
  sent :
      MaySend n m w.db
      → w' ≡ record w {
        gateway = (push_to_user m.receiver (n.envelope m.receiver (n.serialize m)) w.gateway).1;
      }
      → Pushed n m w w'

allowed-parts :
    (m : Message) (db : Data.Db)
    → with_friend_message m true db ≡ true
    → (friend_allows m.sender m.receiver m.seq db ≡ true)
      × ((is_empty m.server_id || is_committed m.server_id db) ≡ true)
      × ((is_empty m.server_id || not (any (is_receipt m.receiver m.server_id) db.receipts)) ≡ true)
unfolding with_friend_message
allowed-parts m db h =
    split (friend_allows m.sender m.receiver m.seq db) (is_empty m.server_id)
      (is_committed m.server_id db) (any (is_receipt m.receiver m.server_id) db.receipts) h
  where
    split :
        (a e c r : Bool)
        → (a && (e || (c && not (true && r)))) ≡ true
        → (a ≡ true) × ((e || c) ≡ true) × ((e || not r) ≡ true)
    split a e c r h = ground arith

module _ (n : Network) (m : Message) (w : World) where
  gateway_push-sends :
      (MaySend n m w.db)
      → Pushed n m w
          (record w { gateway = (gateway_push n m.receiver (n.serialize m) w.gateway).1 })
  unfolding gateway_push
  gateway_push-sends may = elim (Bool-cases (m.receiver == 0)) [
    | inl e ↦ nothing (rw (gateway_push, e) refl)
    | inr e ↦ sent may (rw (gateway_push, e) refl)
  ]

  dispatch-Pushed :
      m.is_group ≡ false → with_friend_message m true w.db ≡ true → Pushed n m w (dispatch n m w).1
  unfolding dispatch
  dispatch-Pushed g h = elim (Option-cases (n.presence m.receiver)) [
    | inl e ↦ nothing (rw (dispatch, e) refl)
    | inr (v, e) ↦ elim (Bool-cases (is_present v)) [
      | inr p ↦ nothing (rw (dispatch, e, p) refl)
      | inl p ↦ elim (Bool-cases n.reaches) [
        | inr r ↦ nothing (rw (dispatch, e, p, r) refl)
        | inl r ↦ subst (Pushed n m w) (sym (rw (dispatch, e, p, r) refl)) (
            gateway_push-sends (record {
              single = g;
              allowed = (allowed-parts m w.db h).0;
              committed = (allowed-parts m w.db h).1;
              unreceived = (allowed-parts m w.db h).2;
              online = (v, e, p);
            }))
      ]
    ]
  ]

  push_single-Pushed : Pushed n m w (push_single n m w).1
  unfolding push_single with_friend_message dispatch
  push_single-Pushed = elim (Bool-cases m.is_group) [
    | inl g ↦ nothing (rw (push_single, g) refl)
    | inr g ↦ elim (Bool-cases n.answers) [
      | inr a ↦ nothing (rw (push_single, g, a) refl)
      | inl a ↦ elim (Bool-cases (with_friend_message m true w.db)) [
        | inr h ↦ nothing (rw (push_single, g, a, h) refl)
        | inl h ↦ subst (Pushed n m w) (sym (opened g a h)) (dispatch-Pushed g h)
      ]
    ]
  ]
    where
      opened :
          m.is_group ≡ false
          → n.answers ≡ true
          → with_friend_message m true w.db ≡ true
          → (push_single n m w).1 ≡ (dispatch n m w).1
      opened g a h = rw (push_single, g, a, h) refl

  -- A message of which the receiver has a receipt is not sent.
  pub received-stops :
      is_empty m.server_id ≡ false
      → any (is_receipt m.receiver m.server_id) w.db.receipts ≡ true
      → (push_single n m w).1 ≡ w
  received-stops e h = elim push_single-Pushed [
    | nothing q ↦ q
    | sent may q ↦ absurd (
        refuse (is_empty m.server_id) (any (is_receipt m.receiver m.server_id) w.db.receipts) e h
          may.unreceived)
  ]
    where
      refuse : (a b : Bool) → a ≡ false → b ≡ true → (a || not b) ≡ true → ⊥
      refuse a b x y z = ground arith

  pub push_single-db : (push_single n m w).1.db ≡ w.db
  push_single-db = elim push_single-Pushed [
    | nothing q ↦ ap (λ (x : World). x.db) q
    | sent may q ↦ ap (λ (x : World). x.db) q
  ]

-- A push of a message changes nothing, or it hands one envelope of that message to the session of
-- its receiver, and then the message is no group's, both accounts are friends and the message newer
-- than the last deletion between them, and Redis has the receiver online; and if the message has an
-- identifier, the receiver has not acknowledged it, and its task, if the outbox has one, has its text
-- saved and is not cancelled.
pub push_msg-Pushed :
    (n : Network) (m : Message) (w : World)
    → ((push_msg n (some m) w).1 ≡ w)
      ⊎ (MaySend n m w.db
          × ((push_msg n (some m) w).1 ≡ record w {
            gateway = (push_to_user m.receiver (n.envelope m.receiver (n.serialize m)) w.gateway).1;
          }))
unfolding push_msg
push_msg-Pushed n m w = elim (push_single-Pushed n m w) [
  | nothing q ↦ inl q
  | sent may q ↦ inr (may, q)
]
