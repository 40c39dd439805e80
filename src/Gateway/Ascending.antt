-- ===== src/Gateway/Ascending.antt =====
-- What `scanOfflineMessages` of src/gateway/ws_session.cpp hands to be delivered, whatever it reads.
use ape_server.Outbox.Data.{Message}
use ape_server.Gateway.Offline.{
  is_single_message_for, Callbacks, BatchEnd, reached, stopped, Batch, Scan, deliver_batch,
  continue_with, on_fetched, scan_from, scan_offline_messages, batch_size,
}
use ape_server.Prelude.{
  ℕ, zero, suc, ◌<◌, ◌≡◌, refl, subst, inl, inr, true, not, ◌||◌, Option, none, some, List, [], ◌∷◌,
  ◌++◌, ltb, leb, length, Bool-cases, arith,
}

-- Single messages for the owner, whose sequence numbers grow from `after` on.
abbrev pub IsAscending : ℕ → ℕ → List Message → Type 0
IsAscending owner after [] = Unit
IsAscending owner after (m ∷ ms) =
    (after < m.seq) × (is_single_message_for owner m ≡ true) × IsAscending owner m.seq ms

-- The sequence number at which a batch ends.
abbrev pub last_seq : ℕ → List Message → ℕ
last_seq after [] = after
last_seq after (m ∷ ms) = last_seq m.seq ms

IsAscending-append :
    (owner after : ℕ) (ms ns : List Message)
    → IsAscending owner after ms
    → IsAscending owner (last_seq after ms) ns
    → IsAscending owner after (ms ++ ns)
IsAscending-append owner after [] ns h k = k
IsAscending-append owner after (m ∷ ms) ns h k =
    (h.0, h.1, IsAscending-append owner m.seq ms ns h.2 k)

module _ {S : Type 0} (c : Callbacks S) (owner : ℕ) where
  -- A batch that reaches its end has the sequence number of its last message.
  record Delivers (after : ℕ) (b : Batch S) : Type 0 where
    sorted : IsAscending owner after b.delivered
    to : (n : ℕ) → b.end ≡ reached n → n ≡ last_seq after b.delivered

  deliver_batch-Delivers :
      (after : ℕ) (ms : List Message) (s : S) → Delivers after (deliver_batch c owner after ms s)
  unfolding deliver_batch
  deliver_batch-Delivers after [] s = record { sorted = tt; to = λ n e. cc }
  deliver_batch-Delivers after (m ∷ ms) s =
      let rest = deliver_batch-Delivers m.seq ms (c.deliver m s).1 in
      elim (Bool-cases (c.is_disconnected s)) [
        | inl e ↦ rw (deliver_batch, e) (record { sorted = tt; to = λ n f. cc })
        | inr e ↦ elim (Bool-cases (not (is_single_message_for owner m) || leb m.seq after)) [
          | inl f ↦ rw (deliver_batch, e, f) (record { sorted = tt; to = λ n g. cc })
          | inr f ↦
              let fit : (after < m.seq) × (is_single_message_for owner m ≡ true) =
                (ground arith, ground arith) in
              elim (Bool-cases (c.deliver m s).0) [
                | inl q ↦
                    rw (deliver_batch, e, f, q)
                      (record { sorted = (fit.0, fit.1, rest.sorted); to = rest.to })
                | inr q ↦
                    rw (deliver_batch, e, f, q)
                      (record { sorted = (fit.0, fit.1, tt); to = λ n g. cc })
              ]
        ]
      ]

  continue_with-IsAscending :
      (rest : ℕ → S → Scan S) (after : ℕ) (b : Batch S)
      → ((n : ℕ) (s : S) → IsAscending owner n (rest n s).delivered)
      → Delivers after b
      → IsAscending owner after (continue_with c owner rest b).delivered
  continue_with-IsAscending rest after b h d = ended b.end refl
    where
      ended :
          (e : BatchEnd)
          → b.end ≡ e
          → IsAscending owner after (continue_with c owner rest b).delivered
      ended (stopped e) q = rw q d.sorted
      ended (reached n) q = elim (Bool-cases (c.is_disconnected (c.wait_offline_batch b.state))) [
        | inl t ↦ rw (q, t) d.sorted
        | inr t ↦
            rw (q, t)
              (IsAscending-append owner after b.delivered
                (rest n (c.wait_offline_batch b.state)).delivered d.sorted
                (subst (λ x. IsAscending owner x (rest n (c.wait_offline_batch b.state)).delivered)
                  (d.to n q) (h n (c.wait_offline_batch b.state))))
      ]

  on_fetched-IsAscending :
      (limit : ℕ) (rest : ℕ → S → Scan S) (after : ℕ) (o : Option (List Message)) (s : S)
      → ((n : ℕ) (t : S) → IsAscending owner n (rest n t).delivered)
      → IsAscending owner after (on_fetched c owner limit rest after o s).delivered
  on_fetched-IsAscending limit rest after none s h = tt
  on_fetched-IsAscending limit rest after (some []) s h = tt
  on_fetched-IsAscending limit rest after (some (m ∷ ms)) s h =
      elim (Bool-cases (c.is_disconnected s)) [
        | inl e ↦ rw e tt
        | inr e ↦ elim (Bool-cases (ltb limit (length (m ∷ ms)))) [
          | inl f ↦ rw (e, f) tt
          | inr f ↦
              rw (e, f)
                (continue_with-IsAscending rest after (deliver_batch c owner after (m ∷ ms) s) h
                  (deliver_batch-Delivers after (m ∷ ms) s))
        ]
      ]

  scan_from-IsAscending :
      (limit fuel after : ℕ) (s : S)
      → IsAscending owner after (scan_from c owner limit fuel after s).delivered
  unfolding scan_from
  scan_from-IsAscending limit zero after s = tt
  scan_from-IsAscending limit (suc fuel) after s = elim (Bool-cases (c.is_disconnected s)) [
    | inl e ↦ rw (scan_from, e) tt
    | inr e ↦
        rw (scan_from, e)
          (on_fetched-IsAscending limit (scan_from c owner limit fuel) after
            (c.fetch after limit s).0 (c.fetch after limit s).1
            (λ n t. scan_from-IsAscending limit fuel n t))
  ]

  -- Whatever is read and however the scan ends, the messages that it hands to be delivered are
  -- single messages for the owner, and each has a larger sequence number than the ones before it.
  pub scan-IsAscending :
      (fuel : ℕ) (s : S) → IsAscending owner 0 (scan_offline_messages c owner fuel s).delivered
  scan-IsAscending fuel s = scan_from-IsAscending batch_size fuel 0 s
