-- ===== src/Storage/SegmentLog.antt =====
-- xraft-storage/src/segment_log.rs: the log in a series of segment files. The atomic copies of its two
-- offsets, which always hold the same values, are left out. Files are created empty and removed
-- without a fault.
pub mod Contents
pub mod Appending
pub mod Reopening
use xraft.Prelude.{
  ℕ, ◌+◌, ◌^◌, Bool, true, false, not, ◌||◌, Option, none, some, List, [], ◌∷◌, ◌++◌, leb, ◌==◌,
  length, map, max, filter, u64_add, if◌then◌else◌,
}
use xraft.Prelude.Exec.{Result, ok, err, and_then}
use xraft.Types.{Bytes, LogEntry}
use xraft.Storage.Segment
use xraft.Storage.Segment.{Encoding, Segment, SegmentError, open_segment}
use xraft.Storage.Segment.Truncate

-- the errors of the log, and those of its segments
pub data LogError : Type 0 where
  offset_mismatch : LogError
  in_segment : SegmentError → LogError

-- `start_offset_file` is the file in which the start of the log survives a restart.
pub record SegmentLog : Type 0 where
  pub segment_size_limit : ℕ
  pub segments : List Segment
  pub log_start_offset : ℕ
  pub log_end_offset : ℕ
  pub start_offset_file : Option ℕ

abbrev pub raised : {A : Type 0} → Result SegmentError A → Result LogError A
raised (ok a) = ok a
raised (err e) = err (in_segment e)

abbrev pub is_empty : List Segment → Bool
is_empty [] = true
is_empty (s ∷ ss) = false

-- the size of the last segment; of none, the size of a new one
abbrev pub last_size : List Segment → ℕ
last_size [] = 0
last_size (s ∷ []) = s.size
last_size (s ∷ t ∷ ss) = last_size (t ∷ ss)

-- the last segment is replaced by what a method makes of it
abbrev pub on_last :
    {A : Type 0} → (Segment → Result SegmentError A × Segment) → List Segment → List Segment
on_last f [] = []
on_last f (s ∷ []) = (f s).1 ∷ []
on_last f (s ∷ t ∷ ss) = s ∷ on_last f (t ∷ ss)

abbrev pub result_of_last :
    {A : Type 0}
    → A
    → (Segment → Result SegmentError A × Segment)
    → List Segment
    → Result SegmentError A
result_of_last a f [] = ok a
result_of_last a f (s ∷ []) = (f s).0
result_of_last a f (s ∷ t ∷ ss) = result_of_last a f (t ∷ ss)

-- without the last segments that satisfy a test
abbrev pub popped : (Segment → Bool) → List Segment → List Segment
popped p [] = []
popped p (t ∷ ts) =
    let rest = popped p ts in elim rest [ [] ↦ if p t then [] else t ∷ [] | u ∷ us ↦ t ∷ u ∷ us ]

-- `while segments.len() > 1`, from the last on
abbrev pub pop_while : (Segment → Bool) → List Segment → List Segment
pop_while p [] = []
pop_while p (s ∷ ss) = s ∷ popped p ss

-- the parts of `open_with_limit`
abbrev pub persisted : Option ℕ → ℕ
persisted none = 0
persisted (some n) = n

abbrev pub physical_start : List Segment → ℕ
physical_start [] = 0
physical_start (s ∷ ss) = s.base_offset

abbrev pub end_of : ℕ → List Segment → ℕ
end_of start [] = start
end_of start (s ∷ []) = s.next_offset
end_of start (s ∷ t ∷ ss) = end_of start (t ∷ ss)

module _ (E : Encoding) where
  -- the first segment where there is none, and a new one where the last has reached the limit
  unfoldable pub rolled : (limit base : ℕ) → List Segment → List Segment
  rolled limit base segments =
      let some_segment = if is_empty segments then open_segment E [] base ∷ [] else segments in
      if leb limit (last_size some_segment)
      then some_segment ++ (open_segment E [] base ∷ [])
      else some_segment

  abbrev appended :
      ℕ → Result SegmentError (Unit {0}) → SegmentLog → Result LogError (Unit {0}) × SegmentLog
  appended n (ok a) l = (ok tt, record l { log_end_offset = u64_add l.log_end_offset n })
  appended n (err e) l = (err (in_segment e), l)

  unfoldable pub append : List LogEntry → SegmentLog → Result LogError (Unit {0}) × SegmentLog
  append [] l = (ok tt, l)
  append (e ∷ es) l =
      let segments = rolled l.segment_size_limit e.offset l.segments in
      let write = Segment.append E (e ∷ es) in
      if not (e.offset == l.log_end_offset)
      then (err offset_mismatch, l)
      else appended (length (e ∷ es)) (result_of_last tt write segments)
          (record l { segments = on_last write segments })

  -- the segments that meet the range, one after the other
  unfoldable pub read_segments :
      (effective_start end_offset : ℕ) → List Segment → Result SegmentError (List LogEntry)
  read_segments a z [] = ok []
  read_segments a z (s ∷ ss) =
      let rest = read_segments a z ss in
      if leb s.next_offset a || leb z s.base_offset
      then rest
      else and_then (Segment.read E a z s) λ entries. and_then rest λ more. ok (entries ++ more)

  unfoldable pub read : (start_offset end_offset : ℕ) → SegmentLog → Result LogError (List LogEntry)
  read start_offset end_offset l =
      let effective_start = max start_offset l.log_start_offset in
      if leb end_offset effective_start
      then ok []
      else raised (read_segments effective_start end_offset l.segments)

  abbrev first_of : Result LogError (List LogEntry) → Result LogError (Option LogEntry)
  first_of (err e) = err e
  first_of (ok []) = ok none
  first_of (ok (e ∷ es)) = ok (some e)

  unfoldable pub entry_at : ℕ → SegmentLog → Result LogError (Option LogEntry)
  entry_at offset l = first_of (read offset (u64_add offset 1) l)

  abbrev cut_to :
      ℕ → Result SegmentError Bool → SegmentLog → Result LogError (Unit {0}) × SegmentLog
  cut_to from_offset (ok b) l = (ok tt, record l { log_end_offset = from_offset })
  cut_to from_offset (err e) l = (err (in_segment e), l)

  unfoldable pub truncate_suffix : ℕ → SegmentLog → Result LogError (Unit {0}) × SegmentLog
  truncate_suffix from_offset l =
      let left = pop_while (λ s. leb from_offset s.base_offset) l.segments in
      let cut = Truncate.truncate_suffix E from_offset in
      if leb l.log_end_offset from_offset
      then (ok tt, l)
      else cut_to from_offset (result_of_last false cut left)
          (record l { segments = on_last cut left })

  -- `open_with_limit`, on the files of the directory in the order of their base offsets
  unfoldable pub open_with_limit : List (ℕ × Bytes) → Option ℕ → ℕ → SegmentLog
  open_with_limit files start_offset_file limit =
      let opened = map (λ (base, file). open_segment E file base) files in
      let segments = pop_while (λ s. s.entry_count == 0) opened in
      let log_start = max (persisted start_offset_file) (physical_start segments) in
      record {
        segment_size_limit = limit;
        segments = segments;
        log_start_offset = log_start;
        log_end_offset = end_of log_start segments;
        start_offset_file = start_offset_file;
      }

unfoldable pub truncate_prefix : ℕ → SegmentLog → Result LogError (Unit {0}) × SegmentLog
truncate_prefix up_to_offset l = (
  ok tt,
  record l {
    segments = filter (λ s. not (leb s.next_offset up_to_offset)) l.segments;
    log_start_offset = up_to_offset;
    start_offset_file = some up_to_offset;
  },
)
