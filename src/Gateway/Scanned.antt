-- ===== src/Gateway/Scanned.antt =====
-- The end of `scanOfflineMessages` of src/gateway/ws_session.cpp, on a source that is read after the
-- sequence number asked for.
use ape_server.Outbox.Data.{Message}
use ape_server.Gateway.Offline.{
  is_single_message_for, Callbacks, finished, reached, Batch, Scan, deliver_batch, continue_with,
  scan_from, scan_offline_messages,
}
use ape_server.Gateway.Ascending.{IsAscending, last_seq}
use ape_server.Prelude.{
  ℕ, zero, suc, ◌+◌, ◌≤◌, ◌<◌, ◌≡◌, refl, subst, ap, sym, ◌∙◌, inl, inr, true, false, not, ◌||◌,
  some, List, [], ◌∷◌, ◌++◌, ltb, leb, length, length-append, length-take, take, select, Bool-cases,
  arith, lt→ltb,
}

-- The messages of a source after a sequence number.
abbrev pub later_than : ℕ → List Message → List Message
later_than after ms = select (λ (m : Message). ltb after m.seq) ms

newer_later :
    (a n : ℕ) (ms : List Message) → a ≤ n → later_than n (later_than a ms) ≡ later_than n ms
unfolding select
newer_later a n [] h = refl
newer_later a n (m ∷ ms) h = ground (arith, newer_later a n ms h)

module _ (owner : ℕ) where
  weaken : (a b : ℕ) (ms : List Message) → a ≤ b → IsAscending owner b ms → IsAscending owner a ms
  weaken a b [] h k = tt
  weaken a b (m ∷ ms) h k = (omega (arith, k.0), k.1, k.2)

  newer_all : (a : ℕ) (ms : List Message) → IsAscending owner a ms → later_than a ms ≡ ms
  unfolding select
  newer_all a [] h = refl
  newer_all a (m ∷ ms) h =
      rw (lt→ltb a m.seq h.0, newer_all a ms (weaken a m.seq ms (omega (arith, h.0)) h.2)) refl

  newer_within :
      (a n : ℕ) (ms : List Message) → IsAscending owner a ms → IsAscending owner a (later_than n ms)
  unfolding select
  newer_within a n [] h = tt
  newer_within a n (m ∷ ms) h = elim (Bool-cases (ltb n m.seq)) [
    | inl e ↦ rw e (h.0, h.1, newer_within m.seq n ms h.2)
    | inr e ↦
        rw e (weaken a m.seq (later_than n ms) (omega (arith, h.0)) (newer_within m.seq n ms h.2))
  ]

  later_than-IsAscending :
      (a n : ℕ) (ms : List Message) → IsAscending owner a ms → IsAscending owner n (later_than n ms)
  unfolding select
  later_than-IsAscending a n [] h = tt
  later_than-IsAscending a n (m ∷ ms) h = elim (Bool-cases (ltb n m.seq)) [
    | inl e ↦ rw e (ground arith, h.1, newer_within m.seq n ms h.2)
    | inr e ↦ rw e (later_than-IsAscending m.seq n ms h.2)
  ]

  take-IsAscending :
      (k a : ℕ) (ms : List Message) → IsAscending owner a ms → IsAscending owner a (take k ms)
  take-IsAscending zero a ms h = tt
  take-IsAscending (suc k) a [] h = tt
  take-IsAscending (suc k) a (m ∷ ms) h = (h.0, h.1, take-IsAscending k m.seq ms h.2)

  last_after : (a : ℕ) (ms : List Message) → IsAscending owner a ms → a ≤ last_seq a ms
  last_after a [] h = omega arith
  last_after a (m ∷ ms) h = omega (arith, h.0, last_after m.seq ms h.2)

  -- A batch, and what is later_than than its end, are what there was.
  take-newer :
      (k a : ℕ) (ms : List Message)
      → IsAscending owner a ms
      → take k ms ++ later_than (last_seq a (take k ms)) ms ≡ ms
  unfolding select
  take-newer zero a ms h = newer_all a ms h
  take-newer (suc k) a [] h = refl
  take-newer (suc k) a (m ∷ ms) h =
      let past : ltb (last_seq m.seq (take k ms)) m.seq ≡ false =
        ground (arith, last_after m.seq (take k ms) (take-IsAscending k m.seq ms h.2)) in
      rw past (ap (λ x. m ∷ x) (take-newer k m.seq ms h.2))

  module _ {S : Type 0} (c : Callbacks S) where
    -- In states that meet `I` nothing ends the session or throws, and `source` is what is read.
    pub record IsCalm (source : List Message) (I : S → Type 0) : Type 0 where
      pub stays : (s : S) → I s → c.is_disconnected s ≡ false
      pub fetches :
          (after limit : ℕ) (s : S)
          → I s
          → ((c.fetch after limit s).0 ≡ some (take limit (later_than after source)))
            × I (c.fetch after limit s).1
      pub delivers :
          (m : Message) (s : S)
          → I s
          → is_single_message_for owner m ≡ true
          → ((c.deliver m s).0 ≡ true) × I (c.deliver m s).1
      pub waits : (s : S) → I s → I (c.wait_offline_batch s)

    module _ (source : List Message) (I : S → Type 0) (calm : IsCalm source I) where
      deliver_batch-all :
          (after : ℕ) (ms : List Message) (s : S)
          → IsAscending owner after ms
          → I s
          → ((deliver_batch c owner after ms s).delivered ≡ ms)
            × ((deliver_batch c owner after ms s).end ≡ reached (last_seq after ms))
            × I (deliver_batch c owner after ms s).state
      unfolding deliver_batch
      deliver_batch-all after [] s h i = (refl, refl, i)
      deliver_batch-all after (m ∷ ms) s h i =
          let (queued, j) = calm.delivers m s i h.1 in
          let (d, e, k) = deliver_batch-all m.seq ms (c.deliver m s).1 h.2 j in
          let fits : (not (is_single_message_for owner m) || leb m.seq after) ≡ false =
            ground (arith, h.0, h.1) in
          rw (deliver_batch, calm.stays s i, fits, queued) (ap (λ x. m ∷ x) d, e, k)

      abbrev IsWhole : List Message → Scan S → Type 0
      IsWhole ms r = (r.delivered ≡ ms) × (r.end ≡ finished)

      after_batch :
          (rest : ℕ → S → Scan S) (b : Batch S) (batch more : List Message) (next : ℕ)
          → b.delivered ≡ batch
          → b.end ≡ reached next
          → I b.state
          → IsWhole more (rest next (c.wait_offline_batch b.state))
          → IsWhole (batch ++ more) (continue_with c owner rest b)
      after_batch rest b batch more next d e i w =
          rw (e, calm.stays (c.wait_offline_batch b.state) (calm.waits b.state i))
            (
              ap (λ x. x ++ (rest next (c.wait_offline_batch b.state)).delivered) d
                  ∙ ap (λ x. batch ++ x) w.0,
              w.1,
            )

      scan-rest :
          (j fuel after : ℕ) (s : S) (rest : List Message)
          → IsAscending owner after rest
          → later_than after source ≡ rest
          → length rest < fuel
          → I s
          → IsWhole rest (scan_from c owner (suc j) fuel after s)
      unfolding scan_from
      scan-rest j zero after s rest h n l i = absurd (omega (arith, l))
      scan-rest j (suc fuel) after s [] h n l i =
          let (f, i') = calm.fetches after (suc j) s i in
          let g = f ∙ ap (λ x. some (take (suc j) x)) n in
          rw (scan_from, calm.stays s i, g, calm.stays (c.fetch after (suc j) s).1 i') (refl, refl)
      scan-rest j (suc fuel) after s (m ∷ ms) h n l i =
          let (f, i') = calm.fetches after (suc j) s i in
          let read = f ∙ ap (λ x. some (take (suc j) x)) n in
          let batch = take (suc j) (m ∷ ms) in
          let next = last_seq after batch in
          let sorted = take-IsAscending (suc j) after (m ∷ ms) h in
          let (d, e, k) = deliver_batch-all after batch (c.fetch after (suc j) s).1 sorted i' in
          let small : ltb (suc j) (length batch) ≡ false =
            ground (arith, length-take (suc j) (m ∷ ms)) in
          let parts : batch ++ later_than next (m ∷ ms) ≡ m ∷ ms =
            take-newer (suc j) after (m ∷ ms) h in
          let left : later_than next source ≡ later_than next (m ∷ ms) =
            sym (newer_later after next source (last_after after batch sorted))
            ∙ ap (later_than next) n in
          let fewer : length (later_than next (m ∷ ms)) < fuel =
            omega (arith, l, length-append batch (later_than next (m ∷ ms)), ap length parts) in
          let state =
            c.wait_offline_batch
              (deliver_batch c owner after batch (c.fetch after (suc j) s).1).state in
          let rest =
            scan-rest j fuel next state (later_than next (m ∷ ms))
              (later_than-IsAscending after next (m ∷ ms) h) left fewer (calm.waits _ k) in
          rw (scan_from, calm.stays s i, read, calm.stays (c.fetch after (suc j) s).1 i', small)
            (subst
              (λ x. IsWhole x (
                continue_with c owner (scan_from c owner (suc j) fuel)
                  (deliver_batch c owner after batch (c.fetch after (suc j) s).1)))
              parts
              (after_batch (scan_from c owner (suc j) fuel)
                (deliver_batch c owner after batch (c.fetch after (suc j) s).1) batch
                (later_than next (m ∷ ms)) next d e k rest))

      -- When nothing ends the session or throws, a scan from the start of a source of single
      -- messages for the owner, in the order of their sequence numbers, comes to its end within one
      -- round more than there are messages, having delivered all of them once, in order.
      pub scan-IsWhole :
          (s : S)
          → IsAscending owner 0 source
          → I s
          → IsWhole source (scan_offline_messages c owner (length source + 1) s)
      scan-IsWhole s h i =
          scan-rest 49 (length source + 1) 0 s source h (newer_all 0 source h) (omega arith) i
