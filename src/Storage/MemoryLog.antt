-- ===== src/Storage/MemoryLog.antt =====
-- xraft-storage/src/memory_log_store.rs: the log store in memory, behind its lock. The failure
-- probability of `fsync` matters only in the test `>= 1.0`, which is a flag here.
use xraft.Prelude.{
  ℕ, zero, suc, ◌+◌, ◌-◌, Bool, false, Option, none, List, [], ◌∷◌, ◌++◌, ltb, leb, length, take,
  drop, get_elem?, min, if◌then◌else◌,
}
use xraft.Prelude.Exec.{ok, err}
use xraft.Types.{LogEntry}
use xraft.Node.Traits.{LogStore, Io, ErrorKind}

pub record Inner : Type 0 where
  pub entries : List LogEntry
  pub start_offset : ℕ
  pub fsync_fails : Bool

abbrev pub empty : Inner
empty = record { entries = []; start_offset = 0; fsync_fails = false }

unfoldable pub set_fsync_failure : Bool → Inner → Inner
set_fsync_failure fails s = record s { fsync_fails = fails }

unfoldable pub log_end_offset : Inner → ℕ
log_end_offset s = s.start_offset + length s.entries

-- `append_sync`
unfoldable pub append : List LogEntry → Inner → Io (Unit {0}) × Inner
append entries s =
    if s.fsync_fails
    then (err ErrorKind.other, s)
    else (ok tt, record s { entries = s.entries ++ entries })

-- `read_sync`
unfoldable pub read : ℕ → ℕ → Inner → Io (List LogEntry)
read start_offset end_offset s =
    let start_idx = start_offset - s.start_offset in
    let end_idx = min (end_offset - s.start_offset) (length s.entries) in
    if ltb end_idx start_idx
    then ok []
    else ok (take (end_idx - start_idx) (drop start_idx s.entries))

-- `entry_at_sync`
unfoldable pub entry_at : ℕ → Inner → Io (Option LogEntry)
entry_at offset s =
    if ltb offset s.start_offset
    then ok none
    else ok (get_elem? s.entries (offset - s.start_offset))

-- `truncate_suffix_sync`
unfoldable pub truncate_suffix : ℕ → Inner → Io (Unit {0}) × Inner
truncate_suffix from_offset s = (
  ok tt,
  if leb from_offset s.start_offset
      then record s { entries = [] }
      else record s { entries = take (from_offset - s.start_offset) s.entries },
)

-- `truncate_prefix_sync`
unfoldable pub truncate_prefix : ℕ → Inner → Io (Unit {0}) × Inner
truncate_prefix up_to_offset s =
    let remove_count = up_to_offset - s.start_offset in
    (
      ok tt,
      if leb up_to_offset s.start_offset
          then s
          else if leb (length s.entries) remove_count
          then record s { entries = []; start_offset = up_to_offset }
          else record s { entries = drop remove_count s.entries; start_offset = up_to_offset },
    )

abbrev pub set_elem : ℕ → LogEntry → List LogEntry → List LogEntry
set_elem i entry [] = []
set_elem zero entry (x ∷ xs) = entry ∷ xs
set_elem (suc i) entry (x ∷ xs) = x ∷ set_elem i entry xs

-- `overwrite_entry`, at an offset from the start on; below it the subtraction of the source wraps
-- around to an index past every entry, and nothing is written.
unfoldable pub overwrite_entry : ℕ → LogEntry → Inner → Inner
overwrite_entry offset entry s =
    if ltb offset s.start_offset
    then s
    else record s { entries = set_elem (offset - s.start_offset) entry s.entries }

-- The trait that the node uses, implemented.
abbrev pub memory_log_store : LogStore
memory_log_store = record {
  Log = Inner;
  append = append;
  read = read;
  truncate_suffix = truncate_suffix;
  log_start_offset = λ s. s.start_offset;
  log_end_offset = log_end_offset;
  entry_at = entry_at;
}
