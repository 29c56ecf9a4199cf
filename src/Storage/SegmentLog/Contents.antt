-- ===== src/Storage/SegmentLog/Contents.antt =====
-- What the segments of xraft-storage/src/segment_log.rs hold together, and reading it.
use xraft.Prelude.{
  ℕ, ◌+◌, ◌^◌, ◌≤◌, ◌<◌, ◌≡◌, refl, ap, sym, ◌∙◌, inl, inr, true, Bool-cases, ◌||◌, ◌&&◌, List, [],
  ◌∷◌, ◌++◌, arith, leb, ltb, length, length-append, max, filter-append,
}
use xraft.Prelude.Exec.{ok}
use xraft.Types.{LogEntry}
use xraft.Storage.FilterLog.{AreFrom}
use xraft.Storage.Segment.{Encoding, Segment}
use xraft.Storage.Segment.Batches.{Batch, entries_of, Keeps, in_range}
use xraft.Storage.Segment.Offsets.{AreFrom-drop}
use xraft.Storage.Segment.Reading.{read-Keeps}
use xraft.Storage.SegmentLog.{SegmentLog, read_segments, read}

-- The segments are sound, each begins where the one before it ends, and together they hold the entries.
abbrev pub Hold : Encoding → List Segment → ℕ → List LogEntry → Type 0
Hold E [] start es = es ≡ []
Hold E (s ∷ ss) start es =
    (bs : List Batch) × (later : List LogEntry) × Keeps E s bs
    × (s.base_offset ≡ start)
    × (es ≡ entries_of bs ++ later)
    × Hold E ss (start + length (entries_of bs)) later

-- The log: consecutive offsets from the first segment on, up to the end, which fits a `u64`.
abbrev pub IsLog : Encoding → SegmentLog → ℕ → List LogEntry → Type 0
IsLog E l start es =
    Hold E l.segments start es
    × AreFrom start es
    × (l.log_end_offset ≡ start + length es)
    × (start + length es < 2 ^ 64)

AreFrom-take : (start : ℕ) (xs ys : List LogEntry) → AreFrom start (xs ++ ys) → AreFrom start xs
AreFrom-take start [] ys h = tt
AreFrom-take start (x ∷ xs) ys (h, k) = (h, AreFrom-take (start + 1) xs ys k)

-- a segment that ends before the range, or begins after it, holds nothing of it
in_range-before :
    (a z start : ℕ) (es : List LogEntry)
    → AreFrom start es
    → start + length es ≤ a
    → in_range a z es ≡ []
in_range-before a z start [] h le = refl
in_range-before a z start (e ∷ es) (h, k) le =
    ground (arith, in_range-before a z (start + 1) es k (omega arith))

in_range-after :
    (a z start : ℕ) (es : List LogEntry) → AreFrom start es → z ≤ start → in_range a z es ≡ []
in_range-after a z start [] h le = refl
in_range-after a z start (e ∷ es) (h, k) le =
    ground (arith, in_range-after a z (start + 1) es k (omega arith))

skipped :
    (a z start n : ℕ) (es : List LogEntry)
    → AreFrom start es
    → n ≡ start + length es
    → (leb n a || leb z start) ≡ true
    → in_range a z es ≡ []
skipped a z start n es h q k = elim (Bool-cases (leb n a)) [
  | inl b ↦ in_range-before a z start es h (ground arith)
  | inr b ↦ in_range-after a z start es h (ground arith)
]

pub in_range-empty : (a z : ℕ) (es : List LogEntry) → z ≤ a → in_range a z es ≡ []
in_range-empty a z [] le = refl
in_range-empty a z (e ∷ es) le = ground (arith, in_range-empty a z es)

in_range-append :
    (a z : ℕ) (xs ys : List LogEntry) → in_range a z (xs ++ ys) ≡ in_range a z xs ++ in_range a z ys
in_range-append a z xs ys = filter-append (λ (e : LogEntry). leb a e.offset && ltb e.offset z) xs ys

module _ (E : Encoding) where
  read_segments-Hold :
      (a z start : ℕ) (segments : List Segment) (es : List LogEntry)
      → Hold E segments start es
      → AreFrom start es
      → start + length es < 2 ^ 64
      → read_segments E a z segments ≡ ok (in_range a z es)
  unfolding read_segments
  read_segments-Hold a z start [] es h f b = rw h refl
  read_segments-Hold a z start (s ∷ ss) es (bs, later, k, q, e, h) f b =
      let xs = entries_of bs in
      let f' = rw e at f in
      let n = ap length e ∙ length-append xs later in
      let rest =
        read_segments-Hold a z (start + length xs) ss later h
          (AreFrom-drop start (start + length xs) xs later refl f') (omega arith) in
      let both = ap (in_range a z) e ∙ in_range-append a z xs later in
      let next : s.next_offset ≡ start + length xs = let (_, _, _, _, m) = k in omega arith in
      elim (Bool-cases (leb s.next_offset a || leb z s.base_offset)) [
        | inl skip ↦ rw skip (
            rest
            ∙ ap ok (
                sym (
                  both
                  ∙ ap (λ ys. ys ++ in_range a z later)
                      (skipped a z start s.next_offset xs (AreFrom-take start xs later f') next
                        (ap (λ o. leb s.next_offset a || leb z o) (sym q) ∙ skip)))))
        | inr meets ↦ rw meets (rw (read-Keeps E s bs a z k) (rw rest (ap ok (sym both))))
      ]

  -- Reading a range of offsets from a log whose segments are sound and follow one another succeeds, and
  -- gives the entries at or after the start of the log that lie in the range, in order, whichever
  -- segments they are in.
  pub read-IsLog :
      (start_offset end_offset start : ℕ) (l : SegmentLog) (es : List LogEntry)
      → IsLog E l start es
      → read E start_offset end_offset l
        ≡ ok (in_range (max start_offset l.log_start_offset) end_offset es)
  unfolding read
  read-IsLog a z start l es (h, f, e, b) =
      let from = max a l.log_start_offset in
      elim (Bool-cases (leb z from)) [
        | inl c ↦ rw c (ap ok (sym (in_range-empty from z es (ground arith))))
        | inr c ↦ rw c (rw (read_segments-Hold from z start l.segments es h f b) refl)
      ]
