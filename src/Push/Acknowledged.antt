-- ===== src/Push/Acknowledged.antt =====
-- The pushes of a message after `ack_msg`.
use ape_server.Prelude.{
  ℕ, ◌≡◌, refl, sym, ap, ◌∙◌, subst, inl, inr, Bool, true, false, not, ◌||◌, Option, none, some, [],
  ◌∷◌, ◌++◌, Bytes, bytes_eq_refl, Bool-cases, ==_refl, ltb, length, ◌==◌, if◌then◌else◌, arith,
  any, any-append_right, Result, ok, ◌>>◌, guard, >>=-eq-ok, guard-eq-ok, ok-injective, is_empty,
}
use mathlib.Core.Option
use ape_server.Text.Decimal.{to_string}
use ape_server.Outbox.Data
use ape_server.Outbox.Data.{Message, Task, ReceiptRow, Json, Failure, refused, friend_allows}
use ape_server.Outbox.Queue.{
  is_receipt, acknowledge, acknowledged_message, queue_ack, add_once, is_keyed, new_task,
}
use ape_server.Gateway.Sessions.{Manager}
use ape_server.Push.Service.{World, Network, push_msg, server_id_of, hand_on, handle}
use ape_server.Push.Deliver.{received-stops}
use ape_server.Push.Handled.{done, hand_on-done, handle-answered}

add_once-receipts :
    (operation : ℕ) (key : Bytes) (t : Task) (db : Data.Db)
    → (add_once operation key t db).receipts ≡ db.receipts
add_once-receipts operation key t db = elim (Bool-cases (any (is_keyed operation key) db.tasks)) [
  | inl e ↦ rw e refl
  | inr e ↦ rw e refl
]

abbrev receipted : ℕ → Bytes → ℕ → Message → Data.Db → Data.Db
receipted owner id now m db = if any (is_receipt owner id) db.receipts then db else record db {
  receipts =
      db.receipts
      ++ record {
        owner = owner;
        server_id = id;
        conversation = m.conversation;
        seq = m.seq;
        delivered_at = now;
      }
        ∷ [];
}

receipted-receipt :
    (owner : ℕ) (id : Bytes) (now : ℕ) (m : Message) (db : Data.Db)
    → any (is_receipt owner id) (receipted owner id now m db).receipts ≡ true
unfolding any
receipted-receipt owner id now m db = elim (Bool-cases (any (is_receipt owner id) db.receipts)) [
  | inl e ↦ rw e e
  | inr e ↦ rw e (
      any-append_right (is_receipt owner id) db.receipts _
        (rw (==_refl owner, bytes_eq_refl id) refl))
]

-- An acknowledgement that is taken leaves the receipt.
acknowledge-receipt :
    (owner : ℕ) (id : Bytes) (now : ℕ) (m : Message) (db : Data.Db)
    → any (is_receipt owner id) (acknowledge owner id now m db).receipts ≡ true
unfolding acknowledge
acknowledge-receipt owner id now m db =
    let db₁ = receipted owner id now m db in
    let key = to_string owner ++ 58 ∷ id in
    ap (any (is_receipt owner id)) (
      add_once-receipts 3 key (new_task db₁.next_id 3 key m.sender owner m.conversation id m.seq [])
        db₁)
    ∙ receipted-receipt owner id now m db

pub queue_ack-receipt :
    (j : Json) (stored : Bytes → Option Message) (owner : ℕ) (id : Bytes) (now : ℕ)
    (db db' : Data.Db) (a : Message)
    → acknowledged_message j stored owner id db ≡ ok (some a)
    → queue_ack j stored owner id now db ≡ ok (true, db')
    → (is_empty id ≡ false) × (any (is_receipt owner id) db'.receipts ≡ true)
unfolding queue_ack
queue_ack-receipt j stored owner id now db db' a e h =
    let (u, g, h₁) = >>=-eq-ok (guard _ _) _ h in
    let (found, f, h₂) = >>=-eq-ok (acknowledged_message j stored owner id db) _ h₁ in
    (
      named owner (is_empty id) (ltb 128 (length id)) (guard-eq-ok _ _ g),
      ends found (ok-injective _ _ (sym f ∙ e)) h₂,
    )
  where
    named : (o : ℕ) (b c : Bool) → not (o == 0 || b || c) ≡ true → b ≡ false
    named o b c q = ground arith

    no_group :
        (b : Bool) (r : Result Failure (Bool × Data.Db))
        → (if b then ok (false, db) else r) ≡ ok (true, db')
        → r ≡ ok (true, db')
    no_group true r q = cc
    no_group false r q = q

    ends :
        (found : Option Message)
        → found ≡ some a
        → ◌≡◌ {A = Result Failure (Bool × Data.Db)}
            (elim found [
              | none ↦ ok (true, db)
              | some m ↦ if m.is_group then ok (false, db) else do
                guard (m.receiver == owner) refused
                ok (true, acknowledge owner id now m db)
            ])
            (ok (true, db'))
        → any (is_receipt owner id) db'.receipts ≡ true
    ends none q k = absurd (Option.none-ne-some a q)
    ends (some m) q k =
        let (v, x, y) =
          >>=-eq-ok (guard (m.receiver == owner) refused)
            (λ _. ok (true, acknowledge owner id now m db)) (no_group m.is_group _ k) in
        subst (λ (d : Data.Db). any (is_receipt owner id) d.receipts ≡ true)
          (ap (λ (q : Bool × Data.Db). q.1)
            (ok-injective (true, acknowledge owner id now m db) (true, db') y))
          (acknowledge-receipt owner id now m db)

-- Once a message is acknowledged, by a call that finds it, its receiver is sent it no more: the
-- queue's handing it over again succeeds and changes nothing, and a push of it changes nothing.
pub handle-acknowledged :
    (j : Json) (stored : Bytes → Option Message) (owner : ℕ) (id : Bytes) (now : ℕ)
    (db db' : Data.Db) (a m : Message) (n : Network) (payload : Bytes) (g : Manager)
    → acknowledged_message j stored owner id db ≡ ok (some a)
    → queue_ack j stored owner id now db ≡ ok (true, db')
    → server_id_of payload ≡ id
    → n.fetch id ≡ some (some m)
    → m.server_id ≡ id
    → m.receiver ≡ owner
    → n.answers ≡ true
    → (handle n payload (record { db = db'; gateway = g })
        ≡ (true, record { db = db'; gateway = g }))
      × ((push_msg n (some m) (record { db = db'; gateway = g })).1
          ≡ record { db = db'; gateway = g })
unfolding push_msg
handle-acknowledged j stored owner id now db db' a m n payload g found h s f i r t =
    let w : World = record { db = db'; gateway = g } in
    let (named, receipt) = queue_ack-receipt j stored owner id now db db' a found h in
    let mine : any (is_receipt m.receiver id) db'.receipts ≡ true =
      subst (λ o. any (is_receipt o id) db'.receipts ≡ true) (sym r) receipt in
    (
      handle-answered n payload m w (ap n.fetch s ∙ f) t
          ∙ ap (λ k. hand_on n k m w) s
          ∙ hand_on-done n id m w (done id m db' mine),
      received-stops n m w (ap is_empty i ∙ named)
          (subst (λ k. any (is_receipt m.receiver k) db'.receipts ≡ true) (sym i) mine),
    )
