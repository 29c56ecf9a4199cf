-- ===== src/Storage/Segment.antt =====
-- xraft-storage/src/segment.rs: one file of the segmented log, made of batches. `bincode` and `crc32c`
-- are parameters. Writes and cuts of the file succeed, reads past its end do not.
pub mod Batches
pub mod Recovery
pub mod Reading
pub mod Append
pub mod Crash
pub mod Truncate
pub mod Offsets
pub mod Cutting
use xraft.Prelude.{
  ℕ, zero, suc, ◌+◌, ◌-◌, ◌*◌, ◌/◌, ◌%◌, ◌^◌, Bool, true, false, not, ◌&&◌, Option, none, some,
  List, [], ◌∷◌, ◌++◌, ltb, leb, ◌==◌, any, length, filter, take, drop, u64_add, if◌then◌else◌,
}
use xraft.Prelude.Exec.{Result, ok, err, and_then}
use xraft.Types.{Bytes, LogEntry}

pub record Encoding : Type 0 where
  pub crc32c : Bytes → ℕ
  pub serialize : List LogEntry → Option Bytes
  pub deserialize : Bytes → Option (List LogEntry)

-- The faults of a batch, and of the file under it.
pub data SegmentError : Type 0 where
  unexpected_eof serialize_failed invalid_magic too_long crc_mismatch deserialize_failed :
      SegmentError

pub record Segment : Type 0 where
  pub base_offset : ℕ
  pub file : Bytes
  pub size : ℕ
  pub entry_count : ℕ
  pub next_offset : ℕ

abbrev pub batch_magic : Bytes
batch_magic = 0x58 ∷ 0x52 ∷ 0x41 ∷ 0x46 ∷ []

-- `u32::to_le_bytes` and `u32::from_le_bytes`
unfoldable pub to_le_bytes : ℕ → Bytes
to_le_bytes n = n % 256 ∷ n / 256 % 256 ∷ n / 65_536 % 256 ∷ n / 16_777_216 % 256 ∷ []

abbrev pub from_le_bytes : (a b c d : ℕ) → ℕ
from_le_bytes a b c d = a + 256 * b + 65_536 * c + 16_777_216 * d

pub record Header : Type 0 where
  pub has_magic : Bool
  pub stored_crc : ℕ
  pub payload_len : ℕ

-- The twelve bytes before a payload, and the bytes after them.
abbrev pub read_header : Bytes → Result SegmentError (Header × Bytes)
read_header (m ∷ a ∷ g ∷ i ∷ c0 ∷ c1 ∷ c2 ∷ c3 ∷ l0 ∷ l1 ∷ l2 ∷ l3 ∷ rest) = ok (
  record {
    has_magic = m == 0x58 && (a == 0x52 && (g == 0x41 && i == 0x46));
    stored_crc = from_le_bytes c0 c1 c2 c3;
    payload_len = from_le_bytes l0 l1 l2 l3;
  },
  rest,
)
read_header _ = err unexpected_eof

abbrev pub read_exact : ℕ → Bytes → Result SegmentError (Bytes × Bytes)
read_exact n rest =
    if ltb (length rest) n then err unexpected_eof else ok (take n rest, drop n rest)

abbrev pub ensure : Bool → SegmentError → Result SegmentError (Unit {0})
ensure true e = ok tt
ensure false e = err e

abbrev pub decoded : Option (List LogEntry) → Result SegmentError (List LogEntry)
decoded none = err deserialize_failed
decoded (some entries) = ok entries

module _ (E : Encoding) where
  -- the batch at `pos`, as recovery reads it: its entries, the position after it and what is left
  unfoldable pub recover_batch :
      (pos file_size : ℕ) → Bytes → Result SegmentError (List LogEntry × ℕ × Bytes)
  recover_batch pos file_size file = and_then (read_header file) λ (header, after).
      and_then (ensure header.has_magic invalid_magic) λ _.
        and_then (ensure (leb (pos + 12 + header.payload_len) file_size) too_long) λ _.
          and_then (read_exact header.payload_len after) λ (payload, rest).
            and_then (ensure (E.crc32c payload == header.stored_crc) crc_mismatch) λ _.
              and_then (decoded (E.deserialize payload))
                λ entries. ok (entries, pos + 12 + header.payload_len, rest)

  -- the batch that `read` reads, which has not compared its length with the file's
  unfoldable pub read_batch : ℕ → Bytes → Result SegmentError (List LogEntry × ℕ × Bytes)
  read_batch pos file = and_then (read_header file) λ (header, after).
      and_then (ensure header.has_magic invalid_magic) λ _.
        and_then (read_exact header.payload_len after) λ (payload, rest).
          and_then (ensure (E.crc32c payload == header.stored_crc) crc_mismatch) λ _.
            and_then (decoded (E.deserialize payload))
              λ entries. ok (entries, pos + 12 + header.payload_len, rest)

  -- `while pos + 12 <= file_size`, until the first batch that is not whole: the last good position
  -- and the number of entries before it
  unfoldable pub recover_from : (fuel pos total file_size : ℕ) → Bytes → ℕ × ℕ
  recover_from zero pos total file_size file = (pos, total)
  recover_from (suc fuel) pos total file_size file = elim (leb (pos + 12) file_size) [
    | false ↦ (pos, total)
    | true ↦ elim (recover_batch pos file_size file) [
      | err e ↦ (pos, total)
      | ok (entries, pos', rest) ↦
          recover_from fuel pos' (u64_add total (length entries)) file_size rest
    ]
  ]

  -- `recover`, with more rounds than the file has bytes
  unfoldable pub recover : Segment → Segment
  recover s =
      let (last_good_pos, total) = recover_from (suc s.size) 0 0 s.size s.file in
      let cut =
        if ltb last_good_pos s.size
        then record s { file = take last_good_pos s.file; size = last_good_pos }
        else s in
      record cut { entry_count = total; next_offset = u64_add s.base_offset total }

  unfoldable pub open_segment : Bytes → ℕ → Segment
  open_segment file base_offset =
      let s : Segment = record {
        base_offset = base_offset;
        file = file;
        size = length file;
        entry_count = 0;
        next_offset = base_offset;
      } in
      if ltb 0 (length file) then recover s else s

  -- a batch as it is written
  unfoldable pub batch_bytes : Bytes → Bytes
  batch_bytes payload =
      batch_magic ++ (to_le_bytes (E.crc32c payload) ++ (to_le_bytes (length payload) ++ payload))

  abbrev pub write_batch :
      List LogEntry → Option Bytes → Segment → Result SegmentError (Unit {0}) × Segment
  write_batch entries none s = (err serialize_failed, s)
  write_batch entries (some payload) s =
      let buf = batch_bytes payload in
      (
        ok tt,
        record s {
          file = s.file ++ buf;
          size = s.size + length buf;
          entry_count = u64_add s.entry_count (length entries);
          next_offset = u64_add s.next_offset (length entries);
        },
      )

  unfoldable pub append : List LogEntry → Segment → Result SegmentError (Unit {0}) × Segment
  append [] s = (ok tt, s)
  append (e ∷ es) s = write_batch (e ∷ es) (E.serialize (e ∷ es)) s

  unfoldable pub read_from :
      (fuel pos file_size start_offset end_offset : ℕ) → Bytes → Result SegmentError (List LogEntry)
  read_from zero pos file_size start_offset end_offset file = ok []
  read_from (suc fuel) pos file_size start_offset end_offset file =
      elim (leb (pos + 12) file_size) [
        | false ↦ ok []
        | true ↦ and_then (read_batch pos file) λ (entries, pos', rest).
            and_then (read_from fuel pos' file_size start_offset end_offset rest) λ result.
              ok (
                filter (λ e. leb start_offset e.offset && ltb e.offset end_offset) entries
                ++ result)
      ]

  unfoldable pub read :
      (start_offset end_offset : ℕ) → Segment → Result SegmentError (List LogEntry)
  read start_offset end_offset s = read_from (suc s.size) 0 s.size start_offset end_offset s.file

  unfoldable pub read_all : Segment → Result SegmentError (List LogEntry)
  read_all = read 0 (2 ^ 64 - 1)
