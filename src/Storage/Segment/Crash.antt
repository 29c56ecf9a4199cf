-- ===== src/Storage/Segment/Crash.antt =====
-- A crash in the middle of `Segment::append` of xraft-storage/src/segment.rs.
use xraft.Prelude.{
  ℕ, zero, suc, ◌+◌, ◌-◌, ◌^◌, ◌<◌, ◌≤◌, ◌≡◌, refl, ap, sym, ◌∙◌, inl, inr, Bool-cases, [], ◌∷◌,
  ◌++◌, arith, append-nil, length, length-take, take, take-append-add, ltb, List,
}
use xraft.Prelude.Exec.{err}
use xraft.Types.{Bytes, LogEntry}
use xraft.Storage.Segment.{
  Encoding, Segment, too_long, batch_bytes, to_le_bytes, open_segment, recover, recover_batch,
  recover_from,
}
use xraft.Storage.Segment.Batches.{Batch, AreSound, head_of, file_of, width, length-file_of, Keeps}
use xraft.Storage.Segment.Recovery.{recover_from-file_of}
use xraft.Storage.Segment.Reading.{open_segment-Keeps-scan, length-le-width}
use xraft.Storage.Segment.Append.{written, from_le_bytes-to_le_bytes, file_of-end}

pub length-batch_bytes :
    (E : Encoding) (payload : Bytes) → length (batch_bytes E payload) ≡ 12 + length payload
unfolding batch_bytes to_le_bytes
length-batch_bytes E payload = omega arith

pub open_segment-base_offset :
    (E : Encoding) (file : Bytes) (base_offset : ℕ)
    → (open_segment E file base_offset).base_offset ≡ base_offset
unfolding open_segment recover
open_segment-base_offset E file base = ground arith

Keeps-unique :
    (E : Encoding) (bs : List Batch) (s t : Segment)
    → Keeps E s bs
    → Keeps E t bs
    → s.base_offset ≡ t.base_offset
    → s ≡ t
Keeps-unique E bs s t (_, f, w, c, n) (_, f', w', c', n') h = grind arith

module _ (E : Encoding) where
  recover_batch-torn :
      (es : List LogEntry) (payload rest : Bytes) (pos file_size : ℕ)
      → length payload < 2 ^ 32
      → file_size < pos + 12 + length payload
      → recover_batch E pos file_size (head_of (written E es payload) rest) ≡ err too_long
  unfolding recover_batch
  recover_batch-torn es payload rest pos file_size l h =
      rw (from_le_bytes-to_le_bytes (length payload) l) (ground arith)

  take-batch_bytes :
      (es : List LogEntry) (payload : Bytes) (k : ℕ)
      → 12 ≤ k
      → take k (batch_bytes E payload) ≡ head_of (written E es payload) (take (k - 12) payload)
  unfolding batch_bytes to_le_bytes
  take-batch_bytes es payload k h =
      take-append-add k (k - 12) (head_of (written E es payload) []) payload (omega arith)

  -- a batch of which only a part was written stops the scan
  torn_batch_stops :
      (es : List LogEntry) (payload : Bytes) (k pos : ℕ)
      → length payload < 2 ^ 32
      → k < 12 + length payload
      → (n t : ℕ) → recover_from E n pos t (pos + k) (take k (batch_bytes E payload)) ≡ (pos, t)
  unfolding recover_from
  torn_batch_stops es payload k pos l h zero t = refl
  torn_batch_stops es payload k pos l h (suc n) t = elim (Bool-cases (ltb k 12)) [
    | inl few ↦ ground arith
    | inr many ↦ ground (
      arith,
      recover_batch-torn es payload (take (k - 12) payload) pos (pos + k) l (omega arith),
      take-batch_bytes es payload k (ground arith),
    )
  ]

  torn-Keeps-scan :
      (es : List LogEntry) (bs : List Batch) (payload : Bytes) (k base_offset : ℕ)
      → 0 < width bs + k
      → AreSound E bs
      → length payload < 2 ^ 32
      → k < 12 + length payload
      → Keeps E (open_segment E (file_of bs (take k (batch_bytes E payload))) base_offset) bs
  torn-Keeps-scan es bs payload k base z sound l h =
      let torn = take k (batch_bytes E payload) in
      let whole : length (file_of bs torn) ≡ width bs + k = omega (
        arith,
        length-file_of bs torn,
        length-take k (batch_bytes E payload),
        length-batch_bytes E payload,
      ) in
      open_segment-Keeps-scan E (file_of bs torn) base bs torn (omega arith) sound refl (
        recover_from-file_of E bs torn (suc (length (file_of bs torn))) 0 0
          (length (file_of bs torn)) (width bs) sound (omega arith) (omega arith)
          (omega (arith, length-le-width bs)) (omega arith)
          (rw whole (torn_batch_stops es payload k (width bs) l h))
        ∙ ground arith)

  torn-Keeps :
      (es : List LogEntry) (bs : List Batch) (payload : Bytes) (k base_offset : ℕ)
      → AreSound E bs
      → base_offset < 2 ^ 64
      → length payload < 2 ^ 32
      → k < 12 + length payload
      → Keeps E (open_segment E (file_of bs (take k (batch_bytes E payload))) base_offset) bs
  unfolding open_segment
  torn-Keeps es [] payload zero base sound b l h =
      (tt, ground arith, ground arith, ground arith, ground arith)
  torn-Keeps es [] payload (suc k) base sound b l h =
      torn-Keeps-scan es [] payload (suc k) base (omega arith) sound l h
  torn-Keeps es (x ∷ xs) payload k base sound b l h =
      torn-Keeps-scan es (x ∷ xs) payload k base (omega arith) sound l h

  -- If the machine crashes while a batch is appended to a segment whose file is a run of sound batches,
  -- so that only the first `k` bytes of the batch are on the disk, fewer than all, the payload is
  -- shorter than 2^32 bytes, and the base offset fits a `u64`, then opening the file again gives back the same segment.
  pub crash_in_append :
      (s : Segment) (bs : List Batch) (payload : Bytes) (k : ℕ)
      → Keeps E s bs
      → s.base_offset < 2 ^ 64
      → length payload < 2 ^ 32
      → k < length (batch_bytes E payload)
      → open_segment E (s.file ++ take k (batch_bytes E payload)) s.base_offset ≡ s
  crash_in_append s bs payload k keeps b l h =
      let (sound, f, w, c, n) = keeps in
      let torn = take k (batch_bytes E payload) in
      Keeps-unique E bs (open_segment E (s.file ++ torn) s.base_offset) s
        (rw (ap (λ file. file ++ torn) f ∙ file_of-end bs [] torn) (
          torn-Keeps [] bs payload k s.base_offset sound b l
            (omega (arith, length-batch_bytes E payload))))
        keeps (open_segment-base_offset E (s.file ++ torn) s.base_offset)

  -- a crash before the first byte
  pub reopened_segment :
      (s : Segment) (bs : List Batch)
      → Keeps E s bs
      → s.base_offset < 2 ^ 64
      → open_segment E s.file s.base_offset ≡ s
  reopened_segment s bs k b =
      ap (λ file. open_segment E file s.base_offset) (sym (append-nil s.file))
      ∙ crash_in_append s bs [] 0 k b (omega arith) (omega (arith, length-batch_bytes E []))
