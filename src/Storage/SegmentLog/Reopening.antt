-- ===== src/Storage/SegmentLog/Reopening.antt =====
-- Opening the log of xraft-storage/src/segment_log.rs again, on the files that it left.
use xraft.Prelude.{
  ℕ, ◌+◌, ◌^◌, ◌<◌, ◌≡◌, refl, ap, ◌∙◌, inl, inr, false, Bool-cases, List, [], ◌∷◌, Option, none,
  some, ◌++◌, arith, length, length-append, if◌then◌else◌, map, ◌==◌, ==_iff, max,
}
use xraft.Types.{Bytes, LogEntry}
use xraft.Storage.FilterLog.{AreFrom}
use xraft.Storage.Segment.{Encoding, Segment, open_segment}
use xraft.Storage.Segment.Batches.{Batch, entries_of, Keeps}
use xraft.Storage.Segment.Crash.{reopened_segment}
use xraft.Storage.SegmentLog.{
  SegmentLog, popped, pop_while, end_of, persisted, physical_start, is_empty, open_with_limit,
}
use xraft.Storage.SegmentLog.Contents.{Hold, IsLog}

-- the files of a log, each with its base offset
abbrev pub files_of : List Segment → List (ℕ × Bytes)
files_of = map (λ s. (s.base_offset, s.file))

-- the offset in the file of the start
abbrev pub start_in : Option ℕ → ℕ
start_in none = 0
start_in (some offset) = offset

persisted-start_in : (file : Option ℕ) → persisted file ≡ start_in file
persisted-start_in none = refl
persisted-start_in (some offset) = refl

no_entries : (es : List LogEntry) → length es ≡ 0 → es ≡ []
no_entries [] h = refl
no_entries (e ∷ es) h = absurd (omega arith)

module _ (E : Encoding) where
  reopened-Hold :
      (segments : List Segment) (start : ℕ) (es : List LogEntry)
      → start + length es < 2 ^ 64
      → Hold E segments start es
      → map (λ (base, file). open_segment E file base) (files_of segments) ≡ segments
  reopened-Hold [] start es b h = refl
  reopened-Hold (s ∷ ss) start es b (bs, later, k, o, e, h) =
      let n = ap length e ∙ length-append (entries_of bs) later in
      ap (λ t. t ∷ map (λ (base, file). open_segment E file base) (files_of ss))
        (reopened_segment E s bs k (omega arith))
      ∙ ap (λ ts. s ∷ ts) (reopened-Hold ss (start + length (entries_of bs)) later (omega arith) h)

  pop-Hold :
      (s : Segment) (tail : List Segment) (start : ℕ) (es : List LogEntry) (bs : List Batch)
      (later : List LogEntry)
      → start + length es < 2 ^ 64
      → Keeps E s bs
      → s.base_offset ≡ start
      → es ≡ entries_of bs ++ later
      → Hold E tail (start + length (entries_of bs)) later
      → Hold E
          (elim tail [ [] ↦ if s.entry_count == 0 then [] else s ∷ [] | u ∷ us ↦ s ∷ u ∷ us ])
          start
          es
  pop-Hold s (u ∷ us) start es bs later b k o e h = (bs, later, k, o, e, h)
  pop-Hold s [] start es bs later b k o e h =
      let (_, _, _, c, _) = k in
      let n = ap length e ∙ length-append (entries_of bs) later in
      elim (Bool-cases (s.entry_count == 0)) [
        | inr q ↦ rw q (bs, later, k, o, e, h)
        | inl q ↦ rw q (no_entries es (omega (arith, (==_iff _ _).0 q, ap length h)))
      ]

  popped-Hold :
      (segments : List Segment) (start : ℕ) (es : List LogEntry)
      → start + length es < 2 ^ 64
      → Hold E segments start es
      → Hold E (popped (λ s. s.entry_count == 0) segments) start es
  popped-Hold [] start es b h = h
  popped-Hold (s ∷ ss) start es b (bs, later, k, o, e, h) =
      let n = ap length e ∙ length-append (entries_of bs) later in
      let rest = popped-Hold ss (start + length (entries_of bs)) later (omega arith) h in
      pop-Hold s (popped (λ s. s.entry_count == 0) ss) start es bs later b k o e rest

  end_of-Hold :
      (segments : List Segment) (from start : ℕ) (es : List LogEntry)
      → start + length es < 2 ^ 64
      → is_empty segments ≡ false
      → Hold E segments start es
      → end_of from segments ≡ start + length es
  end_of-Hold [] from start es b n h = absurd (ground arith)
  end_of-Hold (s ∷ []) from start es b n (bs, later, (_, _, _, _, m), o, e, h) =
      omega (arith, ap length e, ap length h, length-append (entries_of bs) later)
  end_of-Hold (s ∷ t ∷ ss) from start es b n (bs, later, k, o, e, h) =
      let c = ap length e ∙ length-append (entries_of bs) later in
      end_of-Hold (t ∷ ss) from (start + length (entries_of bs)) later (omega arith) refl h
      ∙ omega arith

  -- Opening the files that a log left, one segment at least, gives back a log that holds the same
  -- entries from the same offset on, up to the same end, also where the last segments were created and
  -- nothing was written to them; its start is the one persisted (0 if there is none), or the base offset
  -- of the first file if that is later.
  pub open_with_limit-IsLog :
      (l : SegmentLog) (start : ℕ) (es : List LogEntry)
      → IsLog E l start es
      → is_empty l.segments ≡ false
      → let opened =
          open_with_limit E (files_of l.segments) l.start_offset_file l.segment_size_limit in
        IsLog E opened start es
        × (opened.log_start_offset ≡ max (start_in l.start_offset_file) start)
  unfolding open_with_limit
  open_with_limit-IsLog l start es (h, f, e, b) n =
      rw (reopened-Hold l.segments start es b h)
        (reopened-IsLog l.segments h n, reopened-start l.segments h n)
    where
      reopened-start :
          (segments : List Segment)
          → Hold E segments start es
          → is_empty segments ≡ false
          → max
              (persisted l.start_offset_file)
              (physical_start (pop_while (λ s. s.entry_count == 0) segments))
            ≡ max (start_in l.start_offset_file) start
      reopened-start [] h n = absurd (ground arith)
      reopened-start (s ∷ ss) (bs, later, k, o, q, h) n =
          rw (o, persisted-start_in l.start_offset_file) refl

      reopened-IsLog :
          (segments : List Segment)
          → Hold E segments start es
          → is_empty segments ≡ false
          → Hold E (pop_while (λ s. s.entry_count == 0) segments) start es
            × AreFrom start es
            × (end_of
                  (max
                    (persisted l.start_offset_file)
                    (physical_start (pop_while (λ s. s.entry_count == 0) segments)))
                  (pop_while (λ s. s.entry_count == 0) segments)
                ≡ start + length es)
            × (start + length es < 2 ^ 64)
      reopened-IsLog [] h n = absurd (ground arith)
      reopened-IsLog (s ∷ ss) (bs, later, k, o, q, h) n =
          let c = ap length q ∙ length-append (entries_of bs) later in
          let held : Hold E (s ∷ popped (λ s. s.entry_count == 0) ss) start es = (
            bs,
            later,
            k,
            o,
            q,
            popped-Hold ss (start + length (entries_of bs)) later (omega arith) h,
          ) in
          (held, f, end_of-Hold (s ∷ popped (λ s. s.entry_count == 0) ss) _ start es b refl held, b)
