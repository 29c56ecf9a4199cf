-- ===== src/Storage/Segment/Append.antt =====
-- Appending to a segment of xraft-storage/src/segment.rs, and crashing in the middle of it.
use xraft.Prelude.{
  ℕ, ◌+◌, ◌^◌, ◌%◌, ◌/◌, ◌<◌, ◌≡◌, refl, ap, sym, ◌∙◌, some, List, [], ◌∷◌, ◌++◌, arith, length,
  length-append, append_assoc, append-nil, u64_add,
}
use xraft.Prelude.Exec.{ok}
use xraft.Types.{Bytes, LogEntry}
use xraft.Storage.Segment.{
  Encoding, Segment, append, write_batch, batch_bytes, to_le_bytes, from_le_bytes,
}
use xraft.Storage.Segment.Batches.{
  Batch, head_of, IsSound, AreSound, before, file_of, file_of-append, entries_of, width, Keeps,
}

pub from_le_bytes-to_le_bytes :
    (n : ℕ)
    → n < 2 ^ 32
    → from_le_bytes (n % 256) (n / 256 % 256) (n / 65_536 % 256) (n / 16_777_216 % 256) ≡ n
from_le_bytes-to_le_bytes n h = omega arith

-- the batch that `append` writes
abbrev pub written : Encoding → List LogEntry → Bytes → Batch
written E entries payload =
    let c = E.crc32c payload in
    let l = length payload in
    record {
      c0 = c % 256;
      c1 = c / 256 % 256;
      c2 = c / 65_536 % 256;
      c3 = c / 16_777_216 % 256;
      l0 = l % 256;
      l1 = l / 256 % 256;
      l2 = l / 65_536 % 256;
      l3 = l / 16_777_216 % 256;
      payload = payload;
      entries = entries;
    }

pub batch_bytes-before :
    (E : Encoding) (entries : List LogEntry) (payload rest : Bytes)
    → batch_bytes E payload ++ rest ≡ before (written E entries payload) rest
unfolding batch_bytes to_le_bytes
batch_bytes-before E entries payload rest = refl

All-append :
    (E : Encoding) (bs cs : List Batch) → AreSound E bs → AreSound E cs → AreSound E (bs ++ cs)
All-append E [] cs s t = t
All-append E (b ∷ bs) cs (s, ss) t = (s, All-append E bs cs ss t)

entries_of-append : (bs cs : List Batch) → entries_of (bs ++ cs) ≡ entries_of bs ++ entries_of cs
entries_of-append [] cs = refl
entries_of-append (b ∷ bs) cs =
    ap (λ es. b.entries ++ es) (entries_of-append bs cs)
    ∙ sym (append_assoc b.entries (entries_of bs) (entries_of cs))

width-append : (bs cs : List Batch) → width (bs ++ cs) ≡ width bs + width cs
width-append [] cs = omega arith
width-append (b ∷ bs) cs = omega (arith, width-append bs cs)

pub before-end : (b : Batch) (xs ys : Bytes) → before b xs ++ ys ≡ before b (xs ++ ys)
before-end b xs ys = ap (head_of b) (append_assoc b.payload xs ys)

pub file_of-end : (bs : List Batch) (xs ys : Bytes) → file_of bs xs ++ ys ≡ file_of bs (xs ++ ys)
file_of-end [] xs ys = refl
file_of-end (b ∷ bs) xs ys = before-end b (file_of bs xs) ys ∙ ap (before b) (file_of-end bs xs ys)

file_of-before :
    (E : Encoding) (bs : List Batch) (entries : List LogEntry) (payload : Bytes)
    → file_of bs [] ++ batch_bytes E payload ≡ file_of (bs ++ (written E entries payload ∷ [])) []
file_of-before E bs entries payload =
    file_of-end bs [] (batch_bytes E payload)
    ∙ ap (file_of bs)
        (sym (append-nil (batch_bytes E payload)) ∙ batch_bytes-before E entries payload [])
    ∙ sym (file_of-append bs (written E entries payload ∷ []) [])

module _ (E : Encoding) (crc_u32 : (b : Bytes) → E.crc32c b < 2 ^ 32)
    (round_trip : (es : List LogEntry) (b : Bytes)
      → E.serialize es ≡ some b
      → E.deserialize b ≡ some es) where
  pub written-IsSound :
      (es : List LogEntry) (payload : Bytes)
      → E.serialize es ≡ some payload
      → length payload < 2 ^ 32
      → IsSound E (written E es payload)
  written-IsSound es payload s h = (
    from_le_bytes-to_le_bytes (E.crc32c payload) (crc_u32 payload),
    from_le_bytes-to_le_bytes (length payload) h,
    round_trip es payload s,
  )

  -- If `crc32c` is a 32-bit number, `bincode` reads back what it wrote, and the payload of the
  -- entries is shorter than 2^32 bytes, then appending them, none or more, to a segment whose file is
  -- a run of sound batches succeeds, and leaves such a segment at the same base with these entries at
  -- its end.
  pub append-Keeps :
      (s : Segment) (bs : List Batch) (es : List LogEntry) (payload : Bytes)
      → Keeps E s bs
      → E.serialize es ≡ some payload
      → length payload < 2 ^ 32
      → s.base_offset < 2 ^ 64
      → (s' : Segment) × (bs' : List Batch) × (append E es s ≡ (ok tt, s'))
        × Keeps E s' bs'
        × (entries_of bs' ≡ entries_of bs ++ es)
        × (s'.base_offset ≡ s.base_offset)
  unfolding append
  append-Keeps s bs [] payload k ser l b = (s, bs, refl, k, sym (append-nil (entries_of bs)), refl)
  append-Keeps s bs (e ∷ es) payload (sound, f, w, c, n) ser l b =
      let new = written E (e ∷ es) payload in
      let both = bs ++ (new ∷ []) in
      let all : entries_of both ≡ entries_of bs ++ (e ∷ es) =
        entries_of-append bs (new ∷ []) ∙ ap (λ xs. entries_of bs ++ xs) (append-nil (e ∷ es)) in
      let count = ap length all ∙ length-append (entries_of bs) (e ∷ es) in
      let size =
        ap length
          (sym (append-nil (batch_bytes E payload)) ∙ batch_bytes-before E (e ∷ es) payload []) in
      (
        record s {
          file = s.file ++ batch_bytes E payload;
          size = s.size + length (batch_bytes E payload);
          entry_count = u64_add s.entry_count (length (e ∷ es));
          next_offset = u64_add s.next_offset (length (e ∷ es));
        },
        both,
        ap (λ o. write_batch E (e ∷ es) o s) ser,
        (
          All-append E bs (new ∷ []) sound (written-IsSound (e ∷ es) payload ser l, tt),
          ap (λ file. file ++ batch_bytes E payload) f ∙ file_of-before E bs (e ∷ es) payload,
          omega (arith, width-append bs (new ∷ []), length-append payload []),
          omega arith,
          omega arith,
        ),
        all,
        refl,
      )
