-- ===== src/Storage/Segment/Reading.antt =====
-- Opening and reading a segment of xraft-storage/src/segment.rs.
use xraft.Prelude.{
  ℕ, zero, suc, ◌+◌, ◌^◌, ◌≤◌, ◌<◌, ◌≡◌, refl, ap, sym, ◌∙◌, inl, inr, List, [], ◌∷◌, arith, length,
  take, ltb, leb, ◌&&◌, filter-append, ◌%◌,
}
use xraft.Prelude.Exec.{ok}
use xraft.Types.{Bytes, LogEntry}
use xraft.Storage.Segment.{
  Encoding, Segment, read_batch, read_from, read, recover, open_segment, recover_from,
  recover_batch,
}
use xraft.Storage.Segment.Batches.{
  Batch, IsSound, AreSound, before, file_of, entries_of, width, length-file_of, take-file_of, Keeps,
  in_range,
}
use xraft.Storage.Segment.Recovery.{
  read_exact-append, recover_from-Sound, recover_batch-before, StopsAt,
}

module _ (E : Encoding) where
  read_batch-before :
      (b : Batch) (rest : Bytes) (pos : ℕ)
      → IsSound E b
      → read_batch E pos (before b rest) ≡ ok (b.entries, pos + 12 + length b.payload, rest)
  unfolding read_batch
  read_batch-before b rest pos (c, l, d) =
      rw l (rw c (rw (read_exact-append (length b.payload) b.payload rest refl) (ground arith)))

  read_from-file_of :
      (bs : List Batch) (fuel pos file_size start_offset end_offset : ℕ)
      → AreSound E bs
      → pos + width bs ≡ file_size
      → length bs < fuel
      → read_from E fuel pos file_size start_offset end_offset (file_of bs [])
        ≡ ok (in_range start_offset end_offset (entries_of bs))
  unfolding read_from
  read_from-file_of [] zero pos file_size a z s w f = absurd (omega arith)
  read_from-file_of [] (suc fuel) pos file_size a z s w f = ground arith
  read_from-file_of (b ∷ bs) zero pos file_size a z s w f = absurd (omega arith)
  read_from-file_of (b ∷ bs) (suc fuel) pos file_size a z (s, ss) w f = ground (
    arith,
    read_batch-before b (file_of bs []) pos s,
    read_from-file_of bs fuel (pos + 12 + length b.payload) file_size a z ss (omega arith)
        (omega arith),
    filter-append (λ (e : LogEntry). leb a e.offset && ltb e.offset z) b.entries (entries_of bs),
  )

pub length-le-width : (bs : List Batch) → length bs ≤ width bs
length-le-width [] = omega arith
length-le-width (b ∷ bs) = omega (arith, length-le-width bs)

-- Reading a range of offsets from a segment whose file is a run of sound batches succeeds, and gives
-- the entries of all the batches, in order, whose offset lies in the range.
pub read-Keeps :
    (E : Encoding) (s : Segment) (bs : List Batch) (start_offset end_offset : ℕ)
    → Keeps E s bs
    → read E start_offset end_offset s ≡ ok (in_range start_offset end_offset (entries_of bs))
unfolding read
read-Keeps E s bs a z (sound, f, w, c, n) =
    rw (ap (λ file. read_from E (suc s.size) 0 s.size a z file) f) (
      read_from-file_of E bs (suc s.size) 0 s.size a z sound (omega arith)
        (omega (arith, length-le-width bs)))

zero_add : (n : ℕ) → 0 + n ≡ n
zero_add n = omega arith

take-at_end : (n : ℕ) (xs : Bytes) → length xs ≤ n → take n xs ≡ xs
take-at_end zero [] h = refl
take-at_end zero (x ∷ xs) h = absurd (omega arith)
take-at_end (suc n) [] h = refl
take-at_end (suc n) (x ∷ xs) h = ap (λ zs. x ∷ zs) (take-at_end n xs (omega arith))

-- where the scan ends decides what `recover` leaves
pub open_segment-Keeps-scan :
    (E : Encoding) (file : Bytes) (base_offset : ℕ) (bs : List Batch) (rest : Bytes)
    → 0 < length file
    → AreSound E bs
    → file ≡ file_of bs rest
    → recover_from E (suc (length file)) 0 0 (length file) file
      ≡ (width bs, length (entries_of bs) % 2 ^ 64)
    → Keeps E (open_segment E file base_offset) bs
unfolding open_segment recover
open_segment-Keeps-scan E file base bs rest h sound f r =
    let cut : take (width bs) file ≡ file_of bs [] =
      ap (take (width bs)) f ∙ take-file_of bs rest in
    let whole = ap length f ∙ length-file_of bs rest in
    (sound, ground (arith, take-at_end (width bs) file), ground arith, ground arith, ground arith)

-- where a scan stops there is no whole batch
not_whole :
    (E : Encoding) (file : Bytes) (bs : List Batch) (rest : Bytes)
    → file ≡ file_of bs rest
    → StopsAt E (width bs) (length file) rest
    → ¬ ((b : Batch) × (rest' : Bytes) × IsSound E b × (rest ≡ before b rest'))
not_whole E file bs rest f stops (b, rest', sound, q) =
    let whole = ap length f ∙ length-file_of bs rest in
    let ends = ap length q ∙ length-file_of (b ∷ []) rest' in
    elim stops [
      | inl short ↦ omega (arith, whole, ends, short)
      | inr (e, h) ↦
          let good =
            recover_batch-before E b rest' (width bs) (length file) sound
              (omega (arith, whole, ends)) in
          let bad = sym (ap (recover_batch E (width bs) (length file)) q) ∙ h in cc (good, bad)
    ]

-- Whatever bytes a file holds, a crash or a fault of the disk included, opening it at a base offset
-- that fits a `u64` keeps exactly the whole, sound batches that it starts with: what is left is a
-- sequence of sound batches, whose size and counts the segment has, and the bytes cut off do not begin
-- with another whole, sound batch.
pub open_segment-Keeps :
    (E : Encoding) (file : Bytes) (base_offset : ℕ)
    → base_offset < 2 ^ 64
    → (bs : List Batch) × (rest : Bytes) × (file ≡ file_of bs rest)
      × Keeps E (open_segment E file base_offset) bs
      × ¬ ((b : Batch) × (rest' : Bytes) × IsSound E b × (rest ≡ before b rest'))
unfolding open_segment
open_segment-Keeps E [] base h = (
  [],
  [],
  refl,
  (tt, ground arith, ground arith, ground arith, ground arith),
  not_whole E [] [] [] refl (inl (omega arith)),
)
open_segment-Keeps E (x ∷ xs) base h =
    let file : Bytes = x ∷ xs in
    let (bs, rest, sound, f, r, stops) =
      recover_from-Sound E (suc (length file)) 0 0 (length file) file (omega arith) (omega arith)
        (omega arith) in
    (
      bs,
      rest,
      f,
      open_segment-Keeps-scan E file base bs rest (omega arith) sound f (r ∙ ground arith),
      not_whole E file bs rest f (rw (zero_add (width bs)) at stops),
    )
