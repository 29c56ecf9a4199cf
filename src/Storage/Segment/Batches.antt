-- ===== src/Storage/Segment/Batches.antt =====
-- The files that segments of xraft-storage/src/segment.rs keep: sequences of whole batches.
use xraft.Prelude.{
  ℕ, ◌+◌, ◌≡◌, refl, ap, ◌∙◌, List, [], ◌∷◌, ◌++◌, arith, some, length, length-append, take,
  take-append-add, All, filter, leb, ltb, ◌&&◌, ◌%◌, ◌^◌,
}
use xraft.Types.{Bytes, LogEntry}
use xraft.Storage.Segment.{Encoding, Segment, from_le_bytes}

-- A batch in the file: the four bytes of the checksum, those of the length, and the payload; beside
-- them the entries that the payload holds.
pub record Batch : Type 0 where
  pub c0 : ℕ
  pub c1 : ℕ
  pub c2 : ℕ
  pub c3 : ℕ
  pub l0 : ℕ
  pub l1 : ℕ
  pub l2 : ℕ
  pub l3 : ℕ
  pub payload : Bytes
  pub entries : List LogEntry

abbrev pub IsSound : Encoding → Batch → Type 0
IsSound E b =
    (from_le_bytes b.c0 b.c1 b.c2 b.c3 ≡ E.crc32c b.payload)
    × (from_le_bytes b.l0 b.l1 b.l2 b.l3 ≡ length b.payload)
    × (E.deserialize b.payload ≡ some b.entries)

-- the header of the batch, followed by other bytes
abbrev pub head_of : Batch → Bytes → Bytes
head_of b rest =
    0x58 ∷ 0x52 ∷ 0x41 ∷ 0x46 ∷ b.c0 ∷ b.c1 ∷ b.c2 ∷ b.c3 ∷ b.l0 ∷ b.l1 ∷ b.l2 ∷ b.l3 ∷ rest

-- the batch, followed by other bytes
abbrev pub before : Batch → Bytes → Bytes
before b rest = head_of b (b.payload ++ rest)

abbrev pub file_of : List Batch → Bytes → Bytes
file_of [] rest = rest
file_of (b ∷ bs) rest = before b (file_of bs rest)

abbrev pub entries_of : List Batch → List LogEntry
entries_of [] = []
entries_of (b ∷ bs) = b.entries ++ entries_of bs

abbrev pub AreSound : Encoding → List Batch → Type 0
AreSound E = All (IsSound E)

-- the number of bytes of the batches
abbrev pub width : List Batch → ℕ
width [] = 0
width (b ∷ bs) = 12 + length b.payload + width bs

pub length-file_of :
    (bs : List Batch) (rest : Bytes) → length (file_of bs rest) ≡ width bs + length rest
length-file_of [] rest = omega arith
length-file_of (b ∷ bs) rest =
    omega (arith, length-file_of bs rest, length-append b.payload (file_of bs rest))

pub file_of-append :
    (bs cs : List Batch) (rest : Bytes) → file_of (bs ++ cs) rest ≡ file_of bs (file_of cs rest)
file_of-append [] cs rest = refl
file_of-append (b ∷ bs) cs rest = ap (before b) (file_of-append bs cs rest)

pub take-before :
    (n : ℕ) (b : Batch) (rest : Bytes)
    → take (12 + length b.payload + n) (before b rest) ≡ before b (take n rest)
take-before n b rest =
    take-append-add (12 + length b.payload + n) n
      (0x58 ∷ 0x52 ∷ 0x41 ∷ 0x46 ∷ b.c0 ∷ b.c1 ∷ b.c2 ∷ b.c3 ∷ b.l0 ∷ b.l1 ∷ b.l2 ∷ b.l3
        ∷ b.payload)
      rest (omega arith)

pub take-file_of :
    (bs : List Batch) (rest : Bytes) → take (width bs) (file_of bs rest) ≡ file_of bs []
take-file_of [] rest = refl
take-file_of (b ∷ bs) rest =
    take-before (width bs) b (file_of bs rest) ∙ ap (before b) (take-file_of bs rest)

-- A segment whose file is these batches, with its counts; the counts of entries wrap around.
abbrev pub Keeps : Encoding → Segment → List Batch → Type 0
Keeps E s bs =
    AreSound E bs
    × (s.file ≡ file_of bs [])
    × (s.size ≡ width bs)
    × (s.entry_count ≡ length (entries_of bs) % 2 ^ 64)
    × (s.next_offset ≡ (s.base_offset + length (entries_of bs)) % 2 ^ 64)

-- the entries of a range of offsets
abbrev pub in_range : (start_offset end_offset : ℕ) → List LogEntry → List LogEntry
in_range start_offset end_offset =
    filter (λ e. leb start_offset e.offset && ltb e.offset end_offset)
