-- ===== src/Gateway/Settled.antt =====
-- What is still waited for when a scan of src/gateway/ws_session.cpp comes to its end.
use ape_server.Services.Redis.{Redis}
use ape_server.Outbox.Data
use ape_server.Outbox.Data.{Message}
use ape_server.Gateway.Session.{World, Moment, leave, on_disconnect}
use ape_server.Gateway.Offline.{
  Callbacks, finished, BatchEnd, reached, stopped, Batch, Scan, deliver_batch, continue_with,
  on_fetched, scan_from, scan_offline_messages, batch_size, is_single_message_for,
}
use ape_server.Gateway.Deliver.{is_settled, wait_offline_batch, callbacks}
use ape_server.Gateway.Flow.{if-any}
use ape_server.Prelude.{
  ℕ, zero, suc, ◌≡◌, refl, ap, ◌∙◌, inl, inr, Bool, true, false, not, ◌||◌, Option, none, some,
  List, [], ◌∷◌, Bytes, ltb, leb, length, ◌==◌, Bool-cases,
}

module _ {ℓ} {S : Type 0} (c : Callbacks S) (owner : ℕ) (H : S → Type ℓ) where
  -- What holds where a scan starts, and after each wait that the session outlasts.
  record IsKept : Type ℓ where
    read : (after limit : ℕ) (s : S) → H s → H (c.fetch after limit s).1
    waited :
        (s : S) → c.is_disconnected (c.wait_offline_batch s) ≡ false → H (c.wait_offline_batch s)

  -- A scan that comes to the end of the messages ends where it holds.
  abbrev Concludes : Scan S → Type ℓ
  Concludes r = r.end ≡ finished → H r.state

  -- A batch is not the end of the messages.
  deliver_batch-end :
      (next : ℕ) (ms : List Message) (s : S)
      → (deliver_batch c owner next ms s).end ≡ stopped finished
      → ⊥
  unfolding deliver_batch
  deliver_batch-end next [] s h = cc
  deliver_batch-end next (m ∷ ms) s h = elim (Bool-cases (c.is_disconnected s)) [
    | inl e ↦ cc (rw (deliver_batch, e) at h)
    | inr e ↦ elim (Bool-cases (not (is_single_message_for owner m) || leb m.seq next)) [
      | inl f ↦ cc (rw (deliver_batch, e, f) at h)
      | inr f ↦ elim (Bool-cases (c.deliver m s).0) [
        | inl q ↦ deliver_batch-end m.seq ms (c.deliver m s).1 (rw (deliver_batch, e, f, q) at h)
        | inr q ↦ cc (rw (deliver_batch, e, f, q) at h)
      ]
    ]
  ]

  module _ (k : IsKept) where
    continue_with-Concludes :
        (rest : ℕ → S → Scan S) (b : Batch S)
        → ((n : ℕ) (s : S) → H s → Concludes (rest n s))
        → (b.end ≡ stopped finished → ⊥)
        → Concludes (continue_with c owner rest b)
    continue_with-Concludes rest b h n = on b.end refl
      where
        on : (e : BatchEnd) → b.end ≡ e → Concludes (continue_with c owner rest b)
        on (stopped e) q = rw q (λ f. absurd (n (q ∙ ap stopped f)))
        on (reached next) q = elim (Bool-cases (c.is_disconnected (c.wait_offline_batch b.state))) [
          | inl t ↦ rw (q, t) (λ f. cc)
          | inr t ↦ rw (q, t) (h next (c.wait_offline_batch b.state) (k.waited b.state t))
        ]

    on_fetched-Concludes :
        (limit : ℕ) (rest : ℕ → S → Scan S) (after : ℕ) (o : Option (List Message)) (s : S)
        → H s
        → ((n : ℕ) (t : S) → H t → Concludes (rest n t))
        → Concludes (on_fetched c owner limit rest after o s)
    on_fetched-Concludes limit rest after none s i h = λ f. cc
    on_fetched-Concludes limit rest after (some []) s i h = λ f. i
    on_fetched-Concludes limit rest after (some (m ∷ ms)) s i h =
        if-any Concludes (c.is_disconnected s) _ _ (λ _ f. cc)
          (λ _.
            if-any Concludes (ltb limit (length (m ∷ ms))) _ _ (λ _ f. cc)
              (λ _.
                continue_with-Concludes rest (deliver_batch c owner after (m ∷ ms) s) h
                  (deliver_batch-end after (m ∷ ms) s)))

    scan_from-Concludes :
        (limit fuel after : ℕ) (s : S) → H s → Concludes (scan_from c owner limit fuel after s)
    unfolding scan_from
    scan_from-Concludes limit zero after s i = λ f. cc
    scan_from-Concludes limit (suc fuel) after s i =
        if-any Concludes (c.is_disconnected s) _ _ (λ _ f. cc)
          (λ _.
            on_fetched-Concludes limit (scan_from c owner limit fuel) after
              (c.fetch after limit s).0 (c.fetch after limit s).1 (k.read after limit s i)
              (λ n t j. scan_from-Concludes limit fuel n t j))

module _ (r : Redis) (m : Moment) where
  on_disconnect-over : (w : World r) → (on_disconnect r m w).session.disconnected ≡ true
  unfolding on_disconnect leave
  on_disconnect-over w =
      if-any (λ (v : World r). v.session.disconnected ≡ true) w.session.disconnected _ _ (λ e. e)
        (λ _.
          if-any (λ (v : World r). v.session.disconnected ≡ true) (w.session.account == 0) _ _
            (λ _. refl) (λ _. refl))

  wait-is_settled :
      (meanwhile : World r → World r) (w : World r)
      → (wait_offline_batch r m meanwhile w).session.disconnected ≡ false
      → is_settled (wait_offline_batch r m meanwhile w).session.pending ≡ true
  unfolding wait_offline_batch
  wait-is_settled meanwhile w =
      if-any P (is_settled w.session.pending) _ _ (λ e _. e)
        (λ _.
          if-any P (is_settled (meanwhile w).session.pending) _ _ (λ e _. e)
            (λ _ h. absurd (contradiction (on_disconnect-over (meanwhile w)) h)))
    where
      P : World r → Type 0
      P v = v.session.disconnected ≡ false → is_settled v.session.pending ≡ true

      contradiction : {b : Bool} → b ≡ true → b ≡ false → ⊥
      contradiction t f = cc

  -- A session that waits for nothing scans the messages it missed; whatever is read and delivered,
  -- and whatever happens during the waits, when the scan comes to the end of the messages, so that
  -- the client is told that it has them, nothing is waited for any more.
  pub scan-is_settled :
      (serialize : Message → Bytes) (db : Data.Db) (mongo : ℕ → ℕ → ℕ → Option (List Message))
      (meanwhile : World r → World r) (fuel : ℕ) (w : World r)
      → is_settled w.session.pending ≡ true
      → (scan_offline_messages
          (callbacks r m serialize db mongo meanwhile)
          w.session.account
          fuel
          w).end
        ≡ finished
      → is_settled
          (scan_offline_messages
            (callbacks r m serialize db mongo meanwhile)
            w.session.account
            fuel
            w).state.session.pending
        ≡ true
  unfolding callbacks
  scan-is_settled serialize db mongo meanwhile fuel w i =
      scan_from-Concludes (callbacks r m serialize db mongo meanwhile) w.session.account
        (λ (v : World r). is_settled v.session.pending ≡ true)
        (record { read = λ a l s h. h; waited = λ s h. wait-is_settled meanwhile s h }) batch_size
        fuel 0 w i
