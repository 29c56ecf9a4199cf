-- ===== src/Storage/SegmentLog/Appending.antt =====
-- Appending to the log of xraft-storage/src/segment_log.rs.
use xraft.Prelude.{
  ℕ, ◌+◌, ◌^◌, ◌<◌, ◌≡◌, refl, ap, sym, ◌∙◌, Bool, true, false, List, [], ◌∷◌, ◌++◌, arith, leb,
  length, length-append, if◌then◌else◌, append-nil, append_assoc, some, u64_add,
}
use xraft.Prelude.Exec.{ok}
use xraft.Types.{Bytes, LogEntry}
use xraft.Storage.FilterLog.{AreFrom}
use xraft.Storage.Segment
use xraft.Storage.Segment.{Encoding, Segment, SegmentError, open_segment}
use xraft.Storage.Segment.Batches.{entries_of, Keeps}
use xraft.Storage.Segment.Append.{append-Keeps}
use xraft.Storage.Segment.Crash.{open_segment-base_offset}
use xraft.Storage.SegmentLog.{
  SegmentLog, rolled, append, on_last, result_of_last, last_size, is_empty,
}
use xraft.Storage.SegmentLog.Contents.{Hold, IsLog}

module _ (E : Encoding) where
  opened-Keeps : (base : ℕ) → base < 2 ^ 64 → Keeps E (open_segment E [] base) []
  unfolding open_segment
  opened-Keeps base h = (tt, refl, refl, refl, omega arith)

  Hold-snoc :
      (segments : List Segment) (start base : ℕ) (es : List LogEntry)
      → base ≡ start + length es
      → base < 2 ^ 64
      → Hold E segments start es
      → Hold E (segments ++ (open_segment E [] base ∷ [])) start es
  Hold-snoc [] start base es q b h = (
    [],
    [],
    opened-Keeps base b,
    open_segment-base_offset E [] base ∙ omega (arith, ap length h),
    h,
    refl,
  )
  Hold-snoc (s ∷ ss) start base es q b (bs, later, k, o, e, h) = (
    bs,
    later,
    k,
    o,
    e,
    Hold-snoc ss (start + length (entries_of bs)) base later
        (omega (arith, ap length e, length-append (entries_of bs) later)) b h,
  )

  is_empty-snoc : (xs : List Segment) (x : Segment) → is_empty (xs ++ (x ∷ [])) ≡ false
  is_empty-snoc [] x = refl
  is_empty-snoc (y ∷ ys) x = refl

  roll-Hold :
      (b : Bool) (start base : ℕ) (segments : List Segment) (es : List LogEntry)
      → base ≡ start + length es
      → base < 2 ^ 64
      → is_empty segments ≡ false
      → Hold E segments start es
      → Hold E (if b then segments ++ (open_segment E [] base ∷ []) else segments) start es
        × (is_empty (if b then segments ++ (open_segment E [] base ∷ []) else segments) ≡ false)
  roll-Hold true start base segments es q b n h =
      (Hold-snoc segments start base es q b h, is_empty-snoc segments (open_segment E [] base))
  roll-Hold false start base segments es q b n h = (h, n)

  rolled-Hold :
      (limit start base : ℕ) (segments : List Segment) (es : List LogEntry)
      → base ≡ start + length es
      → base < 2 ^ 64
      → Hold E segments start es
      → Hold E (rolled E limit base segments) start es
        × (is_empty (rolled E limit base segments) ≡ false)
  unfolding rolled
  rolled-Hold limit start base [] es q b h =
      roll-Hold (leb limit (open_segment E [] base).size) start base (open_segment E [] base ∷ [])
        es q b refl (Hold-snoc [] start base es q b h)
  rolled-Hold limit start base (s ∷ ss) es q b h =
      roll-Hold (leb limit (last_size (s ∷ ss))) start base (s ∷ ss) es q b refl h

AreFrom-append :
    (start n : ℕ) (xs ys : List LogEntry)
    → n ≡ start + length xs
    → AreFrom start xs
    → AreFrom n ys
    → AreFrom start (xs ++ ys)
AreFrom-append start n [] ys q h k = let e : start ≡ n = omega arith in rw e k
AreFrom-append start n (x ∷ xs) ys q (e, h) k =
    (e, AreFrom-append (start + 1) n xs ys (omega arith) h k)

append-runs :
    (E : Encoding) (x : LogEntry) (xs : List LogEntry) (l : SegmentLog)
    → x.offset ≡ l.log_end_offset
    → let segments = rolled E l.segment_size_limit x.offset l.segments in
      let write = Segment.append E (x ∷ xs) in
      result_of_last tt write segments ≡ ok tt
      → append E (x ∷ xs) l ≡ (
        ok tt,
        record l {
          segments = on_last write segments;
          log_end_offset = u64_add l.log_end_offset (length (x ∷ xs));
        },
      )
unfolding append
append-runs E x xs l h r = ground arith

module _ (E : Encoding) (crc_u32 : (b : Bytes) → E.crc32c b < 2 ^ 32)
    (round_trip : (es : List LogEntry) (b : Bytes)
      → E.serialize es ≡ some b
      → E.deserialize b ≡ some es) where
  on_last-Hold :
      (new : List LogEntry) (payload : Bytes) (segments : List Segment) (start : ℕ)
      (es : List LogEntry)
      → E.serialize new ≡ some payload
      → length payload < 2 ^ 32
      → start + length es < 2 ^ 64
      → is_empty segments ≡ false
      → Hold E segments start es
      → Hold E (on_last (Segment.append E new) segments) start (es ++ new)
        × (result_of_last tt (Segment.append E new) segments ≡ ok tt)
  on_last-Hold new payload [] start es p l b n h = absurd (ground arith)
  on_last-Hold new payload (s ∷ []) start es p l b n (bs, later, k, o, e, h) =
      let (s', bs', run, k', e', o') =
        append-Keeps E crc_u32 round_trip s bs new payload k p l (omega arith) in
      let all =
        ap (λ xs. xs ++ new) (e ∙ ap (λ ys. entries_of bs ++ ys) h ∙ append-nil (entries_of bs))
        ∙ sym e'
        ∙ sym (append-nil (entries_of bs')) in
      (rw run (bs', [], k', o' ∙ o, all, refl), ap (λ r. r.0) run)
  on_last-Hold new payload (s ∷ t ∷ ss) start es p l b n (bs, later, k, o, e, h) =
      let (held, r) =
        on_last-Hold new payload (t ∷ ss) (start + length (entries_of bs)) later p l
          (omega (arith, ap length e, length-append (entries_of bs) later)) refl h in
      (
        (
          bs,
          later ++ new,
          k,
          o,
          ap (λ xs. xs ++ new) e ∙ append_assoc (entries_of bs) later new,
          held,
        ),
        r,
      )

  -- If `crc32c` is a 32-bit number, `bincode` reads back what it wrote, and the payload of the entries
  -- is shorter than 2^32 bytes: entries whose offsets go on from the end of the log are appended, into
  -- the last segment or a new one, and the log then holds them after those it held.
  pub append-IsLog :
      (new : List LogEntry) (payload : Bytes) (start : ℕ) (l : SegmentLog) (es : List LogEntry)
      → IsLog E l start es
      → E.serialize new ≡ some payload
      → length payload < 2 ^ 32
      → AreFrom l.log_end_offset new
      → start + length es + length new < 2 ^ 64
      → ((append E new l).0 ≡ ok tt) × IsLog E (append E new l).1 start (es ++ new)
  unfolding append
  append-IsLog [] payload start l es (h, f, e, b) p n a c = rw (append-nil es) (refl, (h, f, e, b))
  append-IsLog (x ∷ xs) payload start l es (h, f, e, b) p n a c =
      let (held, some_segment) =
        rolled-Hold E l.segment_size_limit start x.offset l.segments es (a.0 ∙ e)
          (omega (arith, a.0)) h in
      let segments = rolled E l.segment_size_limit x.offset l.segments in
      let (held', r) = on_last-Hold (x ∷ xs) payload segments start es p n b some_segment held in
      let count = length-append es (x ∷ xs) in
      rw (append-runs E x xs l a.0 r) (
        refl,
        (held', AreFrom-append start l.log_end_offset es (x ∷ xs) e f a, omega arith, omega arith),
      )
