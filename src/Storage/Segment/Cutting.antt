-- ===== src/Storage/Segment/Cutting.antt =====
-- What `Segment::truncate_suffix` of xraft-storage/src/segment.rs leaves of a sound segment.
use xraft.Prelude.{
  ℕ, zero, suc, ◌+◌, ◌^◌, ◌%◌, ◌≤◌, ◌<◌, ◌≡◌, refl, ap, sym, ◌∙◌, inl, inr, Bool-cases, none, some,
  List, [], ◌∷◌, ◌++◌, arith, append_assoc, append-nil, length, length-append, take, drop,
  take-length-append, take-append-add, filter-append, ltb, true, false, u64_add, if◌then◌else◌, All,
}
use xraft.Prelude.Exec.{Result, ok, err}
use xraft.Types.{Bytes, LogEntry}
use xraft.Storage.FilterLog.{AreFrom}
use xraft.Storage.Segment.{Encoding, Segment, SegmentError, batch_bytes}
use xraft.Storage.Segment.Batches.{
  Batch, IsSound, AreSound, before, file_of, entries_of, width, Keeps,
}
use xraft.Storage.Segment.Recovery.{read_exact-append}
use xraft.Storage.Segment.Reading.{length-le-width}
use xraft.Storage.Segment.Append.{written, written-IsSound, batch_bytes-before, before-end}
use xraft.Storage.Segment.Crash.{length-batch_bytes}
use xraft.Storage.Segment.Offsets.{
  kept, reaches, kept-all, reaches-append, reaches-append_true, AreFrom-drop, kept-append,
}
use xraft.Storage.Segment.Truncate.{
  Cut, parse_batch, cut_batch, cut_from, cut_at, truncate_suffix, write_at,
}

prefix-before :
    (prefix : Bytes) (b : Batch) (rest : Bytes)
    → (prefix ++ before b []) ++ rest ≡ prefix ++ before b rest
prefix-before prefix b rest =
    append_assoc prefix (before b []) rest ∙ ap (λ xs. prefix ++ xs) (before-end b [] rest)

module _ (E : Encoding) where
  parse_batch-before :
      (b : Batch) (rest : Bytes)
      → IsSound E b
      → parse_batch E (before b rest) ≡ ok (some (b.entries, length b.payload, rest))
  unfolding parse_batch
  parse_batch-before b rest (c, l, d) =
      rw l (rw (read_exact-append (length b.payload) b.payload rest refl) (ground arith))

  cut_from-before :
      (b : Batch) (rest whole : Bytes) (fuel pos remaining file_size from : ℕ)
      → IsSound E b
      → pos + 12 ≤ file_size
      → cut_from E (suc fuel) pos remaining file_size from whole (before b rest) ≡ (
          if reaches from b.entries
          then cut_batch E pos remaining (kept from b.entries) whole
          else cut_from E fuel
              (pos + 12 + length b.payload)
              (u64_add remaining (length b.entries))
              file_size
              from
              whole
              rest)
  unfolding cut_from
  cut_from-before b rest whole fuel pos remaining file_size from s h =
      ground (arith, parse_batch-before b rest s)

  -- the batches that a cut leaves
  abbrev Leaves :
      (pos remaining from : ℕ) (prefix : Bytes) (bs : List Batch) → Result SegmentError Cut → Type 0
  Leaves pos remaining from prefix bs (err e) = ⊥
  Leaves pos remaining from prefix bs (ok none) = reaches from (entries_of bs) ≡ false
  Leaves pos remaining from prefix bs (ok (some (p, file, n))) =
      (cs : List Batch) × (reaches from (entries_of bs) ≡ true)
      × AreSound E cs
      × (take p file ≡ prefix ++ file_of cs [])
      × (p ≡ pos + width cs)
      × (n ≡ (remaining + length (entries_of cs)) % 2 ^ 64)
      × (entries_of cs ≡ kept from (entries_of bs))

  -- `bincode` writes what a cut of the batch keeps
  abbrev pub IsRewritable : ℕ → Batch → Type 0
  IsRewritable from b =
      (payload : Bytes) × (E.serialize (kept from b.entries) ≡ some payload)
      × (length payload < 2 ^ 32)

  cut_from-end :
      (fuel pos remaining file_size from : ℕ) (whole : Bytes)
      → file_size < pos + 12
      → cut_from E (suc fuel) pos remaining file_size from whole [] ≡ ok none
  unfolding cut_from
  cut_from-end fuel pos remaining file_size from whole h = ground arith

  -- a whole batch before the batches that a cut leaves
  Leaves-cons :
      (b : Batch) (bs : List Batch) (pos remaining from : ℕ) (prefix : Bytes)
      (r : Result SegmentError Cut)
      → IsSound E b
      → reaches from b.entries ≡ false
      → Leaves
          (pos + 12 + length b.payload)
          (u64_add remaining (length b.entries))
          from
          (prefix ++ before b [])
          bs
          r
      → Leaves pos remaining from prefix (b ∷ bs) r
  Leaves-cons b bs pos remaining from prefix (err e) s n h = h
  Leaves-cons b bs pos remaining from prefix (ok none) s n h =
      reaches-append from b.entries (entries_of bs) n ∙ h
  Leaves-cons b bs pos remaining from prefix (ok (some (p, file, m))) s n (cs, r, ss, f, w, c, k) =
      (
        b ∷ cs,
        reaches-append from b.entries (entries_of bs) n ∙ r,
        (s, ss),
        f ∙ prefix-before prefix b (file_of cs []),
        omega arith,
        omega (arith, length-append b.entries (entries_of cs)),
        ap (λ es. b.entries ++ es) k
            ∙ ap (λ es. es ++ kept from (entries_of bs)) (sym (kept-all from b.entries n))
            ∙ sym (filter-append (λ (e : LogEntry). ltb e.offset from) b.entries (entries_of bs)),
      )

take-prefix : (n : ℕ) (xs ys : Bytes) → length xs ≡ n → take n (xs ++ ys) ≡ xs
take-prefix n xs ys h = ap (λ m. take m (xs ++ ys)) (sym h) ∙ take-length-append xs ys

take-write_at :
    (pos m : ℕ) (prefix buf rest whole : Bytes)
    → length prefix ≡ pos
    → m ≡ pos + length buf
    → whole ≡ prefix ++ rest
    → take m (write_at pos buf whole) ≡ prefix ++ buf
take-write_at pos m prefix buf rest whole h q w =
    let over = drop (pos + length buf) whole in
    ap (λ xs. take m (xs ++ (buf ++ over))) (ap (take pos) w ∙ take-prefix pos prefix rest h)
    ∙ take-append-add m (length buf) prefix (buf ++ over) (omega arith)
    ∙ ap (λ xs. prefix ++ xs) (take-length-append buf over)

module _ (E : Encoding) (crc_u32 : (b : Bytes) → E.crc32c b < 2 ^ 32)
    (round_trip : (es : List LogEntry) (b : Bytes)
      → E.serialize es ≡ some b
      → E.deserialize b ≡ some es) where
  cut_batch-Leaves :
      (ks : List LogEntry) (payload : Bytes) (pos remaining from : ℕ) (prefix rest whole : Bytes)
      (bs : List Batch)
      → remaining < 2 ^ 64
      → length prefix ≡ pos
      → whole ≡ prefix ++ rest
      → reaches from (entries_of bs) ≡ true
      → ks ≡ kept from (entries_of bs)
      → E.serialize ks ≡ some payload
      → length payload < 2 ^ 32
      → Leaves E pos remaining from prefix bs (cut_batch E pos remaining ks whole)
  cut_batch-Leaves [] payload pos remaining from prefix rest whole bs m h w r k s l = (
    [],
    r,
    tt,
    ap (take pos) w ∙ take-prefix pos prefix rest h ∙ sym (append-nil prefix),
    omega arith,
    omega arith,
    k,
  )
  cut_batch-Leaves (x ∷ xs) payload pos remaining from prefix rest whole bs m h w r k s l =
      let new = written E (x ∷ xs) payload in
      let buf = batch_bytes E payload in
      let buf' : buf ≡ before new [] =
        sym (append-nil buf) ∙ batch_bytes-before E (x ∷ xs) payload [] in
      rw s (
        new ∷ [],
        r,
        (written-IsSound E crc_u32 round_trip (x ∷ xs) payload s l, tt),
        take-write_at pos (pos + 12 + length payload) prefix buf rest whole h
              (omega (arith, length-batch_bytes E payload)) w
            ∙ ap (λ ys. prefix ++ ys) buf',
        omega (arith, length-append payload []),
        omega (arith, ap length (append-nil (x ∷ xs))),
        append-nil (x ∷ xs) ∙ k,
      )

  cut_from-Leaves :
      (bs : List Batch) (fuel pos remaining file_size from start : ℕ) (prefix whole : Bytes)
      → AreSound E bs
      → All (IsRewritable E from) bs
      → AreFrom start (entries_of bs)
      → remaining < 2 ^ 64
      → pos + width bs ≡ file_size
      → length bs < fuel
      → length prefix ≡ pos
      → whole ≡ prefix ++ file_of bs []
      → Leaves E pos remaining from prefix bs
          (cut_from E fuel pos remaining file_size from whole (file_of bs []))
  cut_from-Leaves bs zero pos remaining file_size from start prefix whole s i a m q f h w =
      absurd (omega arith)
  cut_from-Leaves [] (suc fuel) pos remaining file_size from start prefix whole s i a m q f h w =
      rw (cut_from-end E fuel pos remaining file_size from whole (omega arith)) refl
  cut_from-Leaves (b ∷ bs) (suc fuel) pos remaining file_size from start prefix whole (s, ss)
        ((payload, ser, l), is) a m q f h w =
      let step =
        cut_from-before E b (file_of bs []) whole fuel pos remaining file_size from s
          (omega arith) in
      elim (Bool-cases (reaches from b.entries)) [
        | inl r ↦ rw step (
            rw r (
              cut_batch-Leaves (kept from b.entries) payload pos remaining from prefix
                (file_of (b ∷ bs) []) whole (b ∷ bs) m h w
                (reaches-append_true from b.entries (entries_of bs) r)
                (sym (kept-append from start b.entries (entries_of bs) a r)) ser l))
        | inr r ↦ rw step (
            rw r (
              Leaves-cons E b bs pos remaining from prefix
                (cut_from E fuel (pos + 12 + length b.payload)
                  (u64_add remaining (length b.entries)) file_size from whole (file_of bs []))
                s r
                (cut_from-Leaves bs fuel (pos + 12 + length b.payload)
                  (u64_add remaining (length b.entries)) file_size from (start + length b.entries)
                  (prefix ++ before b []) whole ss is
                  (AreFrom-drop start (start + length b.entries) b.entries (entries_of bs) refl a)
                  (omega arith) (omega arith) (omega arith)
                  (omega (arith, length-append prefix (before b []), length-append b.payload []))
                  (w ∙ sym (prefix-before prefix b (file_of bs []))))))
      ]

  cut_at-Keeps :
      (s : Segment) (bs : List Batch) (from : ℕ) (r : Result SegmentError Cut)
      → Keeps E s bs
      → Leaves E 0 0 from [] bs r
      → (s' : Segment) × (bs' : List Batch) × (cut_at r s ≡ (ok (reaches from (entries_of bs)), s'))
        × Keeps E s' bs'
        × (entries_of bs' ≡ kept from (entries_of bs))
        × (s'.base_offset ≡ s.base_offset)
  cut_at-Keeps s bs from (err e) k h = absurd h
  cut_at-Keeps s bs from (ok none) k h =
      (s, bs, rw h refl, k, sym (kept-all from (entries_of bs) h), refl)
  cut_at-Keeps s bs from (ok (some (p, file, n))) k (cs, r, ss, f, w, c, e) = (
    record s {
      file = take p file;
      size = p;
      entry_count = n;
      next_offset = u64_add s.base_offset n;
    },
    cs,
    rw r refl,
    (ss, f, omega arith, omega arith, omega arith),
    e,
    refl,
  )

  -- If `crc32c` is a 32-bit number and `bincode` reads back what it wrote, then cutting a segment whose
  -- file is a run of sound batches, with consecutive offsets from its base on, succeeds wherever
  -- `bincode` writes, in less than 2^32 bytes, the part of each batch before the cut. It answers
  -- whether there was an entry at or after the offset, and what is left is such a run again, at
  -- the same base, with exactly the entries before the offset.
  pub truncate_suffix-Keeps :
      (s : Segment) (bs : List Batch) (from_offset : ℕ)
      → Keeps E s bs
      → AreFrom s.base_offset (entries_of bs)
      → All (IsRewritable E from_offset) bs
      → (s' : Segment) × (bs' : List Batch) × (truncate_suffix E from_offset s
          ≡ (ok (reaches from_offset (entries_of bs)), s'))
        × Keeps E s' bs'
        × (entries_of bs' ≡ kept from_offset (entries_of bs))
        × (s'.base_offset ≡ s.base_offset)
  unfolding truncate_suffix
  truncate_suffix-Keeps s bs from keeps a is =
      let (sound, f, w, c, n) = keeps in
      cut_at-Keeps s bs from (cut_from E (suc s.size) 0 0 s.size from s.file s.file) keeps (
        rw f (
          cut_from-Leaves bs (suc s.size) 0 0 s.size from s.base_offset [] (file_of bs []) sound is
            a (omega arith) (omega arith) (omega (arith, length-le-width bs)) refl refl))
