-- ===== src/Gateway/Offline.antt =====
-- `scanOfflineMessages` of src/gateway/ws_session.cpp: the messages that an account has not
-- acknowledged are read in batches and delivered. As in the source, reading, delivering and waiting
-- for acknowledgements are given; `S` is the state that they change.
use ape_server.Outbox.Data.{Message}
use ape_server.Prelude.{
  ℕ, zero, suc, Bool, not, ◌&&◌, ◌||◌, Option, none, some, List, [], ◌∷◌, ◌++◌, ltb, leb, ◌==◌,
  if◌then◌else◌, is_empty, length,
}

-- message_validation::IsSingleMessageFor
unfoldable pub is_single_message_for : ℕ → Message → Bool
is_single_message_for owner m =
    not (owner == 0)
    && (not m.is_group
        && (m.session_type == 1
            && (m.receiver == owner && (not (m.sender == 0) && not (is_empty m.server_id)))))

-- The callbacks, and the flag of the session; none and false are exceptions.
pub record Callbacks (S : Type 0) : Type 0 where
  pub fetch : ℕ → ℕ → S → Option (List Message) × S
  pub deliver : Message → S → Bool × S
  pub wait_offline_batch : S → S
  pub is_disconnected : S → Bool

-- How a scan ends: at the end of the messages, because the session ended, by an exception, or, in
-- the model only, out of fuel.
pub data End : Type 0 where
  finished interrupted threw unfinished : End

-- The end of a batch, at a sequence number or as that of the scan.
pub data BatchEnd : Type 0 where
  reached : ℕ → BatchEnd
  stopped : End → BatchEnd

-- What was handed to `deliver`, in order.
pub record Batch (S : Type 0) : Type 0 where
  pub delivered : List Message
  pub end : BatchEnd
  pub state : S

pub record Scan (S : Type 0) : Type 0 where
  pub delivered : List Message
  pub end : End
  pub state : S

abbrev pub batch_size : ℕ
batch_size = 50

module _ {S : Type 0} (c : Callbacks S) (owner : ℕ) where
  unfoldable pub deliver_batch : ℕ → List Message → S → Batch S
  deliver_batch next [] s = record { delivered = []; end = reached next; state = s }
  deliver_batch next (m ∷ ms) s =
      let (queued, s') = c.deliver m s in
      let rest = deliver_batch m.seq ms s' in
      if c.is_disconnected s
      then record { delivered = []; end = stopped interrupted; state = s }
      else if not (is_single_message_for owner m) || leb m.seq next
      then record { delivered = []; end = stopped threw; state = s }
      else if queued
      then record { delivered = m ∷ rest.delivered; end = rest.end; state = rest.state }
      else record { delivered = m ∷ []; end = stopped threw; state = s' }

  abbrev pub ends : End → S → Scan S
  ends e s = record { delivered = []; end = e; state = s }

  abbrev pub before : List Message → Scan S → Scan S
  before ms rest = record rest { delivered = ms ++ rest.delivered }

  -- After a batch: the wait, and the scan from its last sequence number on.
  abbrev pub continue_with : (ℕ → S → Scan S) → Batch S → Scan S
  continue_with rest b = elim b.end [
    | stopped e ↦ record { delivered = b.delivered; end = e; state = b.state }
    | reached next ↦
        if c.is_disconnected (c.wait_offline_batch b.state)
        then record {
          delivered = b.delivered;
          end = interrupted;
          state = c.wait_offline_batch b.state;
        }
        else before b.delivered (rest next (c.wait_offline_batch b.state))
  ]

  -- What was read after a sequence number, none of it if reading threw.
  abbrev pub on_fetched : ℕ → (ℕ → S → Scan S) → ℕ → Option (List Message) → S → Scan S
  on_fetched limit rest after none s = ends threw s
  on_fetched limit rest after (some []) s =
      ends (if c.is_disconnected s then interrupted else finished) s
  on_fetched limit rest after (some (m ∷ ms)) s =
      if c.is_disconnected s
      then ends interrupted s
      else if ltb limit (length (m ∷ ms))
      then ends threw s
      else continue_with rest (deliver_batch after (m ∷ ms) s)

  -- The loop, for a limit of a batch.
  unfoldable pub scan_from : ℕ → ℕ → ℕ → S → Scan S
  scan_from limit zero after s = ends unfinished s
  scan_from limit (suc fuel) after s =
      let (fetched, s') = c.fetch after limit s in
      let rest = scan_from limit fuel in
      if c.is_disconnected s then ends interrupted s else on_fetched limit rest after fetched s'

  abbrev pub scan_offline_messages : ℕ → S → Scan S
  scan_offline_messages fuel s = scan_from batch_size fuel 0 s
