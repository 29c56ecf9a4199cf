-- ===== src/Examples/Epochs.antt =====
-- A codec for the tests that writes the types of entries, one for maps, and a log with leader changes.
use xraft.Prelude.{
  ℕ, zero, suc, ◌+◌, ◌%◌, ◌^◌, ◌≡◌, refl, ap, Option, none, some, List, [], ◌∷◌, arith,
}
use xraft.Prelude.Exec.{ok}
use xraft.Types.{Bytes, LogEntry, EntryType}
use xraft.Storage.Segment.{Encoding, Segment}
use xraft.Storage.Segment.Batches.{Batch, file_of, Keeps}
use xraft.Storage.Segment.Append.{written}
use xraft.Storage.SegmentLog.{SegmentLog}
use xraft.Storage.SegmentLog.Contents.{IsLog}
use xraft.Storage.Epochs.{
  EpochMap, MapEncoding, LeaderEpochCheckpoint, lookup_le, scan, open_checkpoint, open_epochs,
  lookup, insert,
}
use xraft.Storage.Epochs.Scan.{first_change, IsLatest, open_epochs_lem}

abbrev entry : ℕ → ℕ → EntryType → LogEntry
entry offset term entry_type = record {
  offset = offset;
  term = term;
  entry_type = entry_type;
  payload = [];
}

abbrev tag : EntryType → ℕ
tag EntryType.command = 0
tag EntryType.leader_change_message = 1
tag EntryType.voters_record = 2

abbrev tagged : ℕ → EntryType
tagged zero = EntryType.command
tagged (suc zero) = EntryType.leader_change_message
tagged (suc (suc n)) = EntryType.voters_record

abbrev bytes_of : List LogEntry → Bytes
bytes_of [] = []
bytes_of (e ∷ es) = e.offset ∷ e.term ∷ tag e.entry_type ∷ bytes_of es

abbrev before_rest : LogEntry → Option (List LogEntry) → Option (List LogEntry)
before_rest e none = none
before_rest e (some es) = some (e ∷ es)

abbrev entries_in : Bytes → Option (List LogEntry)
entries_in (o ∷ t ∷ y ∷ rest) = before_rest (entry o t (tagged y)) (entries_in rest)
entries_in [] = some []
entries_in _ = none

abbrev sum : Bytes → ℕ
sum [] = 0
sum (b ∷ bs) = b + sum bs

abbrev encoding : Encoding
encoding = record {
  crc32c = λ b. sum b % 2 ^ 32;
  serialize = λ es. some (bytes_of es);
  deserialize = entries_in;
}

-- A map is its pairs, after one byte.
abbrev pairs_of : EpochMap → Bytes
pairs_of [] = []
pairs_of ((e, o) ∷ m) = e ∷ o ∷ pairs_of m

abbrev pair_before : ℕ × ℕ → Option EpochMap → Option EpochMap
pair_before p none = none
pair_before p (some m) = some (p ∷ m)

abbrev pairs_in : Bytes → Option EpochMap
pairs_in [] = some []
pairs_in (e ∷ []) = none
pairs_in (e ∷ o ∷ rest) = pair_before (e, o) (pairs_in rest)

abbrev map_in : Bytes → Option EpochMap
map_in [] = none
map_in (b ∷ bs) = pairs_in bs

abbrev map_encoding : MapEncoding
map_encoding = record { serialize = λ m. some (1 ∷ pairs_of m); deserialize = map_in }

pairs_in-pairs_of : (m : EpochMap) → pairs_in (pairs_of m) ≡ some m
pairs_in-pairs_of [] = refl
pairs_in-pairs_of ((e, o) ∷ m) = ap (pair_before (e, o)) (pairs_in-pairs_of m)

map_round_trip :
    (m : EpochMap) (b : Bytes)
    → map_encoding.serialize m ≡ some b
    → map_encoding.deserialize b ≡ some m
map_round_trip m b h = let back = pairs_in-pairs_of m in cc

abbrev entries : List LogEntry
entries =
    entry 5 1 EntryType.leader_change_message
    ∷ entry 6 1 EntryType.command
    ∷ entry 7 2 EntryType.leader_change_message
    ∷ entry 8 4 EntryType.leader_change_message
    ∷ []

abbrev batches : List Batch
batches = written encoding entries (bytes_of entries) ∷ []

abbrev segment : Segment
segment = record {
  base_offset = 5;
  file = file_of batches [];
  size = 24;
  entry_count = 4;
  next_offset = 9;
}

abbrev log : SegmentLog
log = record {
  segment_size_limit = 20;
  segments = segment ∷ [];
  log_start_offset = 6;
  log_end_offset = 9;
  start_offset_file = some 6;
}

segment-Keeps : Keeps encoding segment batches
segment-Keeps = (((refl, refl, refl), tt), refl, refl, refl, refl)

log-IsLog : IsLog encoding log 5 entries
log-IsLog = (
  (batches, [], segment-Keeps, refl, refl, refl),
  (refl, (refl, (refl, (refl, tt)))),
  refl,
  omega arith,
)

-- a checkpoint from before the log was cut
abbrev stale : LeaderEpochCheckpoint
stale = record { file = some (1 ∷ 9 ∷ 3 ∷ []); temp = none; epochs = (9, 3) ∷ [] }

abbrev kept : List LogEntry
kept =
    entry 6 1 EntryType.command
    ∷ entry 7 2 EntryType.leader_change_message
    ∷ entry 8 4 EntryType.leader_change_message
    ∷ []

stale-opens : open_checkpoint map_encoding stale.file none ≡ ok stale
unfolding open_checkpoint
stale-opens = refl

kept-bytes : map_encoding.serialize (scan kept []) ≡ some (1 ∷ 2 ∷ 7 ∷ 4 ∷ 8 ∷ [])
unfolding scan lookup insert
kept-bytes = refl

open_epochs_lem_example :
    (c : LeaderEpochCheckpoint) × (open_epochs map_encoding encoding log stale.file none ≡ ok c)
    × ((epoch : ℕ) → IsLatest (λ e. first_change e kept) epoch (lookup_le epoch c.epochs))
    × (open_checkpoint map_encoding c.file c.temp ≡ ok c)
open_epochs_lem_example =
    open_epochs_lem map_encoding (λ m b r h. map_round_trip m b h) (λ m h. cc) encoding 5 log
      entries stale.file none stale (1 ∷ 2 ∷ 7 ∷ 4 ∷ 8 ∷ []) log-IsLog stale-opens kept-bytes
