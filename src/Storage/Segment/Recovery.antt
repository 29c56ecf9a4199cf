-- ===== src/Storage/Segment/Recovery.antt =====
-- Opening a segment of xraft-storage/src/segment.rs.
use xraft.Prelude.{
  ℕ, zero, suc, ◌+◌, ◌^◌, ◌≤◌, ◌<◌, ◌≡◌, refl, ap, sym, ◌∙◌, ◌⊎◌, inl, inr, List, [], ◌∷◌, ◌++◌,
  arith, some, length, length-append, take, drop, take-append-drop, length-take, ◌%◌,
  take-length-append, drop-length-append, Bool-cases, leb, u64_add,
}
use xraft.Prelude.Exec.{Result-cases, ok, err}
use xraft.Types.{Bytes, LogEntry}
use xraft.Storage.Segment.{
  Encoding, SegmentError, recover_batch, recover_from, from_le_bytes, read_exact,
}
use xraft.Storage.Segment.Batches.{Batch, IsSound, AreSound, before, file_of, entries_of, width}

pub read_exact-append :
    (n : ℕ) (xs ys : Bytes) → n ≡ length xs → read_exact n (xs ++ ys) ≡ ok (xs, ys)
read_exact-append n xs ys h =
    rw h (ground (arith, length-append xs ys, take-length-append xs ys, drop-length-append xs ys))

add_zero : (n : ℕ) → n + 0 ≡ n
add_zero n = omega arith

module _ (E : Encoding) where
  pub recover_batch-before :
      (b : Batch) (rest : Bytes) (pos file_size : ℕ)
      → IsSound E b
      → pos + 12 + length b.payload ≤ file_size
      → recover_batch E pos file_size (before b rest)
        ≡ ok (b.entries, pos + 12 + length b.payload, rest)
  unfolding recover_batch
  recover_batch-before b rest pos file_size (c, l, d) h =
      rw l (rw c (rw (read_exact-append (length b.payload) b.payload rest refl) (ground arith)))

  recover_batch-ok :
      (m a g i c0 c1 c2 c3 l0 l1 l2 l3 : ℕ) (after : Bytes) (pos file_size : ℕ) (es : List LogEntry)
      (p : ℕ) (rest : Bytes)
      → recover_batch E pos file_size
          (m ∷ a ∷ g ∷ i ∷ c0 ∷ c1 ∷ c2 ∷ c3 ∷ l0 ∷ l1 ∷ l2 ∷ l3 ∷ after)
        ≡ ok (es, p, rest)
      → let n = from_le_bytes l0 l1 l2 l3 in
        (m ≡ 0x58)
        × (a ≡ 0x52)
        × (g ≡ 0x41)
        × (i ≡ 0x46)
        × (pos + 12 + n ≤ file_size)
        × (n ≤ length after)
        × (E.crc32c (take n after) ≡ from_le_bytes c0 c1 c2 c3)
        × (E.deserialize (take n after) ≡ some es)
        × (p ≡ pos + 12 + n)
        × (rest ≡ drop n after)
  unfolding recover_batch
  recover_batch-ok m a g i c0 c1 c2 c3 l0 l1 l2 l3 after pos file_size es p rest h = ground arith

  -- scanning past whole batches, up to bytes where the scan stops
  pub recover_from-file_of :
      (bs : List Batch) (torn : Bytes) (fuel pos total file_size p : ℕ)
      → AreSound E bs
      → p ≡ pos + width bs
      → p ≤ file_size
      → length bs < fuel
      → total < 2 ^ 64
      → ((n t : ℕ) → recover_from E n p t file_size torn ≡ (p, t))
      → recover_from E fuel pos total file_size (file_of bs torn)
        ≡ (p, (total + length (entries_of bs)) % 2 ^ 64)
  unfolding recover_from
  recover_from-file_of [] torn fuel pos total file_size p s q w f c stops =
      let e : pos ≡ p = omega arith in rw e (stops fuel total ∙ ground arith)
  recover_from-file_of (b ∷ bs) torn zero pos total file_size p s q w f c stops =
      absurd (omega arith)
  recover_from-file_of (b ∷ bs) torn (suc fuel) pos total file_size p (s, ss) q w f c stops =
      ground (
        arith,
        recover_batch-before b (file_of bs torn) pos file_size s (omega arith),
        length-append b.entries (entries_of bs),
        recover_from-file_of bs torn fuel (pos + 12 + length b.payload)
            (u64_add total (length b.entries)) file_size p ss (omega arith) w (omega arith)
            (omega arith) stops,
      )

  -- Whatever the bytes are, a batch that recovery accepts is a sound one.
  recover_batch-cases :
      (file : Bytes) (pos file_size : ℕ)
      → ((e : SegmentError) × (recover_batch E pos file_size file ≡ err e))
        ⊎ ((b : Batch) × (rest : Bytes) × IsSound E b
            × (file ≡ before b rest)
            × (recover_batch E pos file_size file
                ≡ ok (b.entries, pos + 12 + length b.payload, rest)))
  unfolding recover_batch
  recover_batch-cases (m ∷ a ∷ g ∷ i ∷ c0 ∷ c1 ∷ c2 ∷ c3 ∷ l0 ∷ l1 ∷ l2 ∷ l3 ∷ after) pos
        file_size =
      elim (Result-cases (
        recover_batch E pos file_size
          (m ∷ a ∷ g ∷ i ∷ c0 ∷ c1 ∷ c2 ∷ c3 ∷ l0 ∷ l1 ∷ l2 ∷ l3 ∷ after))) [
            | inr (e, h) ↦ inl (e, h)
            | inl ((es, p, rest), h) ↦
                let (m', a', g', i', fits, le, crc, dec, p', rest') =
                  recover_batch-ok m a g i c0 c1 c2 c3 l0 l1 l2 l3 after pos file_size es p rest
                    h in
                let n = from_le_bytes l0 l1 l2 l3 in
                let b : Batch = record {
                  c0 = c0;
                  c1 = c1;
                  c2 = c2;
                  c3 = c3;
                  l0 = l0;
                  l1 = l1;
                  l2 = l2;
                  l3 = l3;
                  payload = take n after;
                  entries = es;
                } in
                let len : length (take n after) ≡ n = omega (arith, length-take n after) in
                inr (
                  b,
                  rest,
                  (sym crc, sym len, dec),
                  grind (arith, take-append-drop n after),
                  h ∙ ap (λ q. ok (es, q, rest)) (omega (arith, length-take n after)),
                )
          ]
  recover_batch-cases _ pos file_size = inl (SegmentError.unexpected_eof, refl)

  -- a scan ends here by its own test: too few bytes, or a batch that is not whole
  abbrev pub StopsAt : (pos file_size : ℕ) → Bytes → Type 0
  StopsAt pos file_size rest =
      (file_size < pos + 12) ⊎ ((e : SegmentError) × (recover_batch E pos file_size rest ≡ err e))

  -- what a scan of any bytes accepts
  pub recover_from-Sound :
      (fuel pos total file_size : ℕ) (file : Bytes)
      → length file < fuel
      → total < 2 ^ 64
      → pos + length file ≡ file_size
      → (bs : List Batch) × (rest : Bytes) × AreSound E bs
        × (file ≡ file_of bs rest)
        × (recover_from E fuel pos total file_size file
            ≡ (pos + width bs, (total + length (entries_of bs)) % 2 ^ 64))
        × StopsAt (pos + width bs) file_size rest
  unfolding recover_from
  recover_from-Sound zero pos total file_size file n t q = absurd (omega arith)
  recover_from-Sound (suc fuel) pos total file_size file n t q =
      elim (Bool-cases (leb (pos + 12) file_size)) [
        | inr h ↦ ([], file, tt, refl, ground arith, inl (ground arith))
        | inl fits ↦ elim (recover_batch-cases file pos file_size) [
          | inl (e, h) ↦ ([], file, tt, refl, ground arith, inr (e, rw (add_zero pos) h))
          | inr (b, rest, s, f, h) ↦
              let q' : 12 + length b.payload + length rest ≡ length file =
                omega (arith, length-append b.payload rest, ap length f) in
              let (bs, rest', ss, f', r, stops) =
                recover_from-Sound fuel (pos + 12 + length b.payload)
                  (u64_add total (length b.entries)) file_size rest (omega arith) (omega arith)
                  (omega arith) in
              let ends : pos + width (b ∷ bs) ≡ pos + 12 + length b.payload + width bs =
                omega arith in
              (
                b ∷ bs,
                rest',
                (s, ss),
                f ∙ ap (before b) f',
                ground (arith, length-append b.entries (entries_of bs)),
                rw ends stops,
              )
        ]
      ]
