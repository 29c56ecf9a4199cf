-- ===== src/Storage/Segment/Truncate.antt =====
-- `Segment::truncate_suffix` of xraft-storage/src/segment.rs, and what it leaves of a sound segment.
use xraft.Prelude.{
  ℕ, zero, suc, ◌+◌, Bool, true, false, Option, none, some, List, [], ◌∷◌, ◌++◌, drop, ltb, leb,
  any, length, filter, take, u64_add,
}
use xraft.Prelude.Exec.{Result, ok, err, and_then}
use xraft.Types.{Bytes, LogEntry}
use xraft.Storage.Segment.{
  Encoding, Segment, SegmentError, serialize_failed, read_header, read_exact, batch_bytes,
}

-- the bytes of the file with `buf` written over them from `pos` on
abbrev pub write_at : ℕ → Bytes → Bytes → Bytes
write_at pos buf file = take pos file ++ (buf ++ drop (pos + length buf) file)

-- where to cut, the file to cut and the number of entries that remain; none where nothing is cut
abbrev pub Cut : Type 0
Cut = Option (ℕ × Bytes × ℕ)

module _ (E : Encoding) where
  abbrev pub rewrite_batch :
      (pos remaining : ℕ) → List LogEntry → Option Bytes → Bytes → Result SegmentError Cut
  rewrite_batch pos remaining before none whole = err serialize_failed
  rewrite_batch pos remaining before (some payload) whole = ok (
      some (
        pos + 12 + length payload,
        write_at pos (batch_bytes E payload) whole,
        u64_add remaining (length before),
      ))

  abbrev pub cut_batch : (pos remaining : ℕ) → List LogEntry → Bytes → Result SegmentError Cut
  cut_batch pos remaining [] whole = ok (some (pos, whole, remaining))
  cut_batch pos remaining (e ∷ es) whole =
      rewrite_batch pos remaining (e ∷ es) (E.serialize (e ∷ es)) whole

  -- the next batch, whose checksum is not compared: its entries, its payload's length and what
  -- follows it; none where the walk stops
  unfoldable pub parse_batch : Bytes → Result SegmentError (Option (List LogEntry × ℕ × Bytes))
  parse_batch file = and_then (read_header file) λ (header, after). elim header.has_magic [
    | false ↦ ok none
    | true ↦ and_then (read_exact header.payload_len after) λ (payload, rest).
        elim (E.deserialize payload) [
          | none ↦ ok none
          | some entries ↦ ok (some (entries, header.payload_len, rest))
        ]
  ]

  unfoldable pub cut_from :
      (fuel pos remaining file_size from_offset : ℕ) (whole file : Bytes) → Result SegmentError Cut
  cut_from zero pos remaining file_size from_offset whole file = ok none
  cut_from (suc fuel) pos remaining file_size from_offset whole file =
      elim (leb (pos + 12) file_size) [
        | false ↦ ok none
        | true ↦ and_then (parse_batch file) λ found. elim found [
          | none ↦ ok none
          | some (entries, payload_len, rest) ↦ elim (any (λ e. leb from_offset e.offset) entries) [
            | true ↦ cut_batch pos remaining (filter (λ e. ltb e.offset from_offset) entries) whole
            | false ↦
                cut_from fuel (pos + 12 + payload_len) (u64_add remaining (length entries))
                  file_size from_offset whole rest
          ]
        ]
      ]

abbrev pub cut_at : Result SegmentError Cut → Segment → Result SegmentError Bool × Segment
cut_at (err e) s = (err e, s)
cut_at (ok none) s = (ok false, s)
cut_at (ok (some (trunc_pos, file, remaining))) s = (
  ok true,
  record s {
    file = take trunc_pos file;
    size = trunc_pos;
    entry_count = remaining;
    next_offset = u64_add s.base_offset remaining;
  },
)

unfoldable pub truncate_suffix : Encoding → ℕ → Segment → Result SegmentError Bool × Segment
truncate_suffix E from_offset s =
    cut_at (cut_from E (suc s.size) 0 0 s.size from_offset s.file s.file) s
