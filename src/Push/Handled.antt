-- ===== src/Push/Handled.antt =====
-- What `handle` does with a message that comes again.
use ape_server.Prelude.{
  ℕ, ◌≡◌, refl, sym, ap, ◌∙◌, subst, inl, inr, Bool, true, false, not, ◌&&◌, ◌||◌, Option, none,
  some, [], Bytes, Bool-cases, ◌==◌, if◌then◌else◌, arith, any, any-updated,
}
use ape_server.Outbox.Data
use ape_server.Outbox.Data.{Message, Task, ReceiptRow, Json, Failure, refused, friend_allows}
use ape_server.Outbox.Queue.{is_message_task, is_receipt, confirm_dispatch}
use ape_server.Push.Visible.{message_dispatch_done}
use ape_server.Push.Service.{
  World, Network, push_single, push_msg, server_id_of, is_fine, hand_on, handle,
}
use ape_server.Push.Deliver.{push_single-db}

pub done :
    (id : Bytes) (m : Message) (db : Data.Db)
    → any (is_receipt m.receiver id) db.receipts ≡ true
    → message_dispatch_done m.receiver id db ≡ true
unfolding message_dispatch_done
done id m db h = or_true _ h
  where
    or_true : (b : Bool) {c : Bool} → c ≡ true → (b || c) ≡ true
    or_true b e = ground arith

hand_on-skips :
    (n : Network) (id : Bytes) (m : Message) (w : World)
    → (m.is_group || message_dispatch_done m.receiver id w.db) ≡ true
    → hand_on n id m w ≡ (true, w)
unfolding hand_on
hand_on-skips n id m w h = rw h refl

pub hand_on-done :
    (n : Network) (id : Bytes) (m : Message) (w : World)
    → message_dispatch_done m.receiver id w.db ≡ true
    → hand_on n id m w ≡ (true, w)
unfolding hand_on
hand_on-done n id m w h = elim (Bool-cases m.is_group) [
  | inl g ↦ rw g refl
  | inr g ↦ rw (g, h) refl
]

handle-fetched :
    (n : Network) (payload : Bytes) (m : Message) (w : World)
    → n.fetch (server_id_of payload) ≡ some (some m)
    → handle n payload w ≡ (if n.answers then hand_on n (server_id_of payload) m w else (false, w))
unfolding handle
handle-fetched n payload m w f =
    ap
      (λ (o : Option (Option Message)). elim o as (λ _. Bool × World) [
        | none ↦ (false, w)
        | some none ↦ (true, w)
        | some (some m) ↦ if n.answers then hand_on n (server_id_of payload) m w else (false, w)
      ])
      f

pub handle-answered :
    (n : Network) (payload : Bytes) (m : Message) (w : World)
    → n.fetch (server_id_of payload) ≡ some (some m)
    → n.answers ≡ true
    → handle n payload w ≡ hand_on n (server_id_of payload) m w
handle-answered n payload m w f t =
    handle-fetched n payload m w f
    ∙ ap (λ b. if b then hand_on n (server_id_of payload) m w else (false, w)) t

settled_task :
    (id : Bytes) (owner : ℕ) (db : Data.Db)
    → any (λ (t : Task). is_message_task id t && (t.stage == 1 && not (t.state == 3))) db.tasks
      ≡ true
    → message_dispatch_done owner id (confirm_dispatch id db) ≡ true
unfolding confirm_dispatch message_dispatch_done
settled_task id owner db h =
    either
      (any (λ (t : Task). is_message_task id t && (t.state == 3 || t.dispatch_done))
        (confirm_dispatch id db).tasks)
      (any (is_receipt owner id) db.receipts)
      (any-updated (λ (t : Task). is_message_task id t && (t.state == 3 || t.dispatch_done))
        (λ (t : Task). is_message_task id t && (t.stage == 1 && not (t.state == 3)))
        (λ (t : Task). record t {
          state = 2;
          dispatch_done = true;
          lease_token = [];
          last_error = [];
        })
        db.tasks (λ t e. marked (is_message_task id t) _ e) h)
  where
    either : (a b : Bool) → a ≡ true → (a || b) ≡ true
    either a b e = ground arith

    marked : (a b : Bool) → (a && b) ≡ true → (a && (false || true)) ≡ true
    marked a b e = ground arith

-- A hand-over that succeeds leaves nothing to do, or is confirmed.
hand_on-again :
    (n : Network) (id : Bytes) (m : Message) (w w' : World)
    → any (λ (t : Task). is_message_task id t && (t.stage == 1 && not (t.state == 3))) w.db.tasks
      ≡ true
    → hand_on n id m w ≡ (true, w')
    → (m.is_group || message_dispatch_done m.receiver id w'.db) ≡ true
unfolding hand_on push_msg
hand_on-again n id m w w' task h =
    elim (Bool-cases (m.is_group || message_dispatch_done m.receiver id w.db)) [
      | inl e ↦
          subst (λ (v : World). (m.is_group || message_dispatch_done m.receiver id v.db) ≡ true)
            (ap (λ (p : Bool × World). p.1) (skipped _ _ e h)) e
      | inr e ↦
          let after : World = (push_single n m w).1 in
          let confirmed : record after { db = confirm_dispatch id after.db } ≡ w' =
            confirms (n.replies && is_fine (push_single n m w).0) after (handed _ _ e h) in
          subst (λ (v : World). (m.is_group || message_dispatch_done m.receiver id v.db) ≡ true)
            confirmed
            (right m.is_group (
              settled_task id m.receiver after.db (
                subst
                  (λ (d : Data.Db).
                    any (λ (t : Task). is_message_task id t && (t.stage == 1 && not (t.state == 3)))
                      d.tasks
                    ≡ true)
                  (sym (push_single-db n m w)) task)))
    ]
  where
    right : (a : Bool) {b : Bool} → b ≡ true → (a || b) ≡ true
    right a e = ground arith

    handed :
        (b : Bool) (p : Bool × World)
        → b ≡ false
        → (if b then (true, w) else p) ≡ (true, w')
        → p ≡ (true, w')
    handed true p e q = cc
    handed false p e q = q

    confirms :
        (b : Bool) (v : World)
        → ◌≡◌ {A = Bool × World}
            (if b then (true, record v { db = confirm_dispatch id v.db }) else (false, v))
            (true, w')
        → record v { db = confirm_dispatch id v.db } ≡ w'
    confirms true v q = ap (λ (p : Bool × World). p.1) q
    confirms false v q = cc

    skipped :
        (b : Bool) (p : Bool × World)
        → b ≡ true
        → (if b then (true, w) else p) ≡ (true, w')
        → ◌≡◌ {A = Bool × World} (true, w) (true, w')
    skipped true p e q = q
    skipped false p e q = cc

-- When the queue's message is handled, and its task is there with its text saved and not cancelled,
-- it is handled once: handed over again, when MongoDB gives the message and MySQL answers, it succeeds
-- and changes nothing, whatever Redis, the gateway and the reply are then.
pub handle-once :
    (n n' : Network) (payload : Bytes) (m : Message) (w w' : World)
    → n.fetch (server_id_of payload) ≡ some (some m)
    → n'.fetch (server_id_of payload) ≡ some (some m)
    → n'.answers ≡ true
    → any
        (λ (t : Task).
          is_message_task (server_id_of payload) t && (t.stage == 1 && not (t.state == 3)))
        w.db.tasks
      ≡ true
    → handle n payload w ≡ (true, w')
    → handle n' payload w' ≡ (true, w')
handle-once n n' payload m w w' f f' t task h =
    handle-answered n' payload m w' f' t
    ∙ hand_on-skips n' (server_id_of payload) m w' (
        hand_on-again n (server_id_of payload) m w w' task
          (answered n.answers (sym (handle-fetched n payload m w f) ∙ h)))
  where
    answered :
        (b : Bool) {p : Bool × World} → (if b then p else (false, w)) ≡ (true, w') → p ≡ (true, w')
    answered true q = q
    answered false q = cc
