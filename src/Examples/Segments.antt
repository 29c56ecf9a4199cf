-- ===== src/Examples/Segments.antt =====
-- A codec for the tests, and the theorems on segments at concrete logs. The codec writes entries
-- without a payload as their offsets and terms, and no others.
use xraft.Prelude.{
  ℕ, ◌+◌, ◌%◌, ◌^◌, ◌<◌, ◌≡◌, refl, ap, ◌∙◌, Bool, true, false, Option, Option-cases, Bool-cases,
  inl, inr, none, some, List, [], ◌∷◌, ◌++◌, arith, take,
}
use xraft.Prelude.Exec.{ok}
use xraft.Types.{Bytes, LogEntry, EntryType}
use xraft.Storage.Segment.{Encoding, Segment, batch_bytes, to_le_bytes, open_segment}
use xraft.Storage.Segment.Batches.{IsSound, before, Batch, file_of, entries_of, Keeps}
use xraft.Storage.Segment.Reading.{open_segment-Keeps}
use xraft.Storage.Segment.Append.{written}
use xraft.Storage.Segment.Crash.{crash_in_append}
use xraft.Storage.Segment.Truncate.{truncate_suffix}
use xraft.Storage.Segment.Offsets.{kept, reaches}
use xraft.Storage.Segment.Cutting.{truncate_suffix-Keeps}
use xraft.Storage.SegmentLog
use xraft.Storage.SegmentLog.{SegmentLog, open_with_limit}
use xraft.Storage.SegmentLog.Contents.{IsLog, read-IsLog}
use xraft.Storage.SegmentLog.Appending.{append-IsLog}
use xraft.Storage.SegmentLog.Reopening.{files_of, open_with_limit-IsLog}

abbrev plain : EntryType → Bytes → Bool
plain EntryType.command [] = true
plain _ _ = false

abbrev entry : ℕ → ℕ → LogEntry
entry offset term = record {
  offset = offset;
  term = term;
  entry_type = EntryType.command;
  payload = [];
}

abbrev with_rest : LogEntry → Bool → Option Bytes → Option Bytes
with_rest e true (some rest) = some (e.offset ∷ e.term ∷ rest)
with_rest e _ _ = none

abbrev serialize : List LogEntry → Option Bytes
serialize [] = some []
serialize (e ∷ es) = with_rest e (plain e.entry_type e.payload) (serialize es)

abbrev before_rest : ℕ → ℕ → Option (List LogEntry) → Option (List LogEntry)
before_rest o t none = none
before_rest o t (some es) = some (entry o t ∷ es)

abbrev deserialize : Bytes → Option (List LogEntry)
deserialize [] = some []
deserialize (o ∷ []) = none
deserialize (o ∷ t ∷ rest) = before_rest o t (deserialize rest)

abbrev sum : Bytes → ℕ
sum [] = 0
sum (b ∷ bs) = b + sum bs

abbrev encoding : Encoding
encoding = record { crc32c = λ b. sum b % 2 ^ 32; serialize = serialize; deserialize = deserialize }

crc_u32 : (b : Bytes) → encoding.crc32c b < 2 ^ 32
crc_u32 b = omega arith

plain-entry : (t : EntryType) (p : Bytes) → plain t p ≡ true → (t ≡ EntryType.command) × (p ≡ [])
plain-entry EntryType.command [] h = (refl, refl)
plain-entry EntryType.command (b ∷ bs) h = absurd (ground arith)
plain-entry EntryType.leader_change_message p h = absurd (ground arith)
plain-entry EntryType.voters_record p h = absurd (ground arith)

round_trip : (es : List LogEntry) (b : Bytes) → serialize es ≡ some b → deserialize b ≡ some es
round_trip [] b h = ground arith
round_trip (e ∷ es) b h = elim (Option-cases (serialize es)) [
  | inl n ↦ absurd (ground arith)
  | inr (rest, s) ↦ elim (Bool-cases (plain e.entry_type e.payload)) [
    | inr p ↦ absurd (ground arith)
    | inl p ↦
        let (t, q) = plain-entry e.entry_type e.payload p in
        let bytes : b ≡ e.offset ∷ e.term ∷ rest = ground arith in
        ap deserialize bytes
        ∙ ap (before_rest e.offset e.term) (round_trip es rest s)
        ∙ ground arith
  ]
]

-- two batches from offset 5, as they are written
abbrev batches : List Batch
batches =
    written encoding (entry 5 1 ∷ entry 6 1 ∷ []) (5 ∷ 1 ∷ 6 ∷ 1 ∷ [])
    ∷ written encoding (entry 7 2 ∷ []) (7 ∷ 2 ∷ [])
    ∷ []

abbrev segment : Segment
segment = record {
  base_offset = 5;
  file = file_of batches [];
  size = 30;
  entry_count = 3;
  next_offset = 8;
}

segment-Keeps : Keeps encoding segment batches
segment-Keeps = (((refl, refl, refl), ((refl, refl, refl), tt)), refl, refl, refl, refl)

crash_in_append_example :
    open_segment encoding (segment.file ++ take 13 (batch_bytes encoding (8 ∷ 2 ∷ []))) 5 ≡ segment
unfolding batch_bytes to_le_bytes
crash_in_append_example =
    crash_in_append encoding segment batches (8 ∷ 2 ∷ []) 13 segment-Keeps (omega arith)
      (omega arith) (omega arith)

open_segment-Keeps_example :
    (bs : List Batch) × (rest : Bytes) × (segment.file ++ (0x58 ∷ 0 ∷ []) ≡ file_of bs rest)
    × Keeps encoding (open_segment encoding (segment.file ++ (0x58 ∷ 0 ∷ [])) 5) bs
    × ¬ ((b : Batch) × (rest' : Bytes) × IsSound encoding b × (rest ≡ before b rest'))
open_segment-Keeps_example =
    open_segment-Keeps encoding (segment.file ++ (0x58 ∷ 0 ∷ [])) 5 (omega arith)

truncate_suffix-Keeps_example :
    (s' : Segment) × (bs' : List Batch) × (truncate_suffix encoding 6 segment
      ≡ (ok (reaches 6 (entries_of batches)), s'))
    × Keeps encoding s' bs'
    × (entries_of bs' ≡ kept 6 (entries_of batches))
    × (s'.base_offset ≡ 5)
truncate_suffix-Keeps_example =
    truncate_suffix-Keeps encoding crc_u32 round_trip segment batches 6 segment-Keeps
      (refl, (refl, (refl, tt))) ((5 ∷ 1 ∷ [], refl, omega arith), (([], refl, omega arith), tt))

-- a log in this segment
abbrev log : SegmentLog
log = record {
  segment_size_limit = 20;
  segments = segment ∷ [];
  log_start_offset = 6;
  log_end_offset = 8;
  start_offset_file = some 6;
}

abbrev held : List LogEntry
held = entry 5 1 ∷ entry 6 1 ∷ entry 7 2 ∷ []

log-IsLog : IsLog encoding log 5 held
log-IsLog =
    ((batches, [], segment-Keeps, refl, refl, refl), (refl, (refl, (refl, tt))), refl, omega arith)

read-IsLog_example : SegmentLog.read encoding 0 8 log ≡ ok (entry 6 1 ∷ entry 7 2 ∷ [])
read-IsLog_example = read-IsLog encoding 0 8 5 log held log-IsLog

append-IsLog_example :
    ((SegmentLog.append encoding (entry 8 2 ∷ []) log).0 ≡ ok tt)
    × IsLog encoding
        (SegmentLog.append encoding (entry 8 2 ∷ []) log).1
        5
        (held ++ (entry 8 2 ∷ []))
append-IsLog_example =
    append-IsLog encoding crc_u32 round_trip (entry 8 2 ∷ []) (8 ∷ 2 ∷ []) 5 log held log-IsLog refl
      (omega arith) (refl, tt) (omega arith)

open_with_limit-IsLog_example :
    IsLog encoding (open_with_limit encoding (files_of (segment ∷ [])) (some 6) 20) 5 held
    × ((open_with_limit encoding (files_of (segment ∷ [])) (some 6) 20).log_start_offset ≡ 6)
open_with_limit-IsLog_example = open_with_limit-IsLog encoding log 5 held log-IsLog refl
