-- ===== src/Util/Snowflake.antt =====
-- `Snowflake` of src/util/snowflake.cpp: identifiers made of the time, the process and a sequence.
-- A clock says what each reading of the time gives; a generator counts its readings. Times are
-- counted from 1970 in milliseconds, and a time before 2024 is outside the model.
use Prim.Native.Nat.{bit_or}
use ape_server.Prelude.{
  ℕ, zero, suc, ◌+◌, ◌-◌, ◌*◌, ◌%◌, ◌^◌, Bool, Option, none, some, List, [], ◌∷◌, ltb, leb, ◌==◌,
  if◌then◌else◌, Result, ok, err, ◌>>=◌,
}

pub record Generator : Type 0 where
  pub worker : ℕ
  pub datacenter : ℕ
  pub sequence : ℕ
  -- `none` is the -1 of a new generator
  pub last : Option ℕ
  pub reads : ℕ

pub data Failure : Type 0 where
  moved_backwards : ℕ → Failure
  -- the model's rounds ran out while the source still waits
  still_waiting : Failure

abbrev pub epoch : ℕ
epoch = 1704067200000

abbrev pub generator : ℕ → ℕ → Generator
generator worker datacenter = record {
  worker = worker;
  datacenter = datacenter;
  sequence = 0;
  last = none;
  reads = 0;
}

-- The layout of the 63 bits: 41, 5, 5 and 12.
unfoldable pub pack : ℕ → ℕ → ℕ → ℕ → ℕ
pack timestamp datacenter worker sequence =
    bit_or (bit_or (bit_or ((timestamp - epoch) * 2 ^ 22) (datacenter * 2 ^ 17)) (worker * 2 ^ 12))
      sequence

module _ (clock : ℕ → ℕ) where
  -- A clock that is back by less than 100 ms is waited for, and read once more.
  unfoldable pub settle : ℕ → Option ℕ → Result Failure (ℕ × ℕ)
  settle reads none = ok (clock reads, reads + 1)
  settle reads (some last) =
      if ltb (clock reads) last
      then if ltb (last - clock reads) 100
        then ok (clock (reads + 1), reads + 2)
        else err (moved_backwards (last - clock reads))
      else ok (clock reads, reads + 1)

  -- `while (timestamp <= lastTimestamp_) timestamp = currentMillis();`
  unfoldable pub wait : ℕ → ℕ → ℕ → ℕ → Result Failure (ℕ × ℕ)
  wait zero last timestamp reads =
      if leb timestamp last then err still_waiting else ok (timestamp, reads)
  wait (suc rounds) last timestamp reads =
      let rest = wait rounds last (clock reads) (reads + 1) in
      if leb timestamp last then rest else ok (timestamp, reads)

  abbrev pub is_last : ℕ → Option ℕ → Bool
  is_last timestamp none = Bool.false
  is_last timestamp (some last) = timestamp == last

  abbrev pub issue : Generator → ℕ → ℕ → ℕ → ℕ × Generator
  issue g timestamp reads sequence = (
    pack timestamp g.datacenter g.worker sequence,
    record g { sequence = sequence; last = some timestamp; reads = reads },
  )

  unfoldable pub next_id : ℕ → Generator → Result Failure (ℕ × Generator)
  next_id rounds g = do
    (timestamp, reads) ← settle g.reads g.last
    if is_last timestamp g.last
        then if (g.sequence + 1) % 4096 == 0
          then (do
            (later, reads') ← wait rounds timestamp timestamp reads
            ok (issue g later reads' 0))
          else ok (issue g timestamp reads ((g.sequence + 1) % 4096))
        else ok (issue g timestamp reads 0)

  -- Calls one after the other.
  unfoldable pub generate : ℕ → ℕ → Generator → Result Failure (List ℕ)
  generate rounds zero g = ok []
  generate rounds (suc n) g = do
    (id, g') ← next_id rounds g
    ids ← generate rounds n g'
    ok (id ∷ ids)
