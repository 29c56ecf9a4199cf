-- ===== src/Storage/SnapshotStore/Transfer.antt =====
-- A snapshot sent in chunks from one store of xraft-storage/src/snapshot_store.rs to another.
use xraft.Prelude.{
  ℕ, zero, suc, ◌+◌, ◌-◌, ◌≤◌, ◌<◌, ◌≡◌, refl, sym, ap, ◌∙◌, Bool, true, false, Option, none, some,
  [], ◌∷◌, ◌++◌, arith, Bool-cases, inl, inr, leb, ◌==◌, min, length, take, drop, if◌then◌else◌,
  length-take, length-drop, append-nil, ◌⊎◌,
}
use xraft.Prelude.Exec.{Result, ok, err}
use xraft.Types.{Bytes}
use xraft.Storage.SnapshotStore.{
  SnapshotMetadata, SnapshotChunk, StorageError, Json, same, Files, file_at, put, SnapshotStore,
  write_at, opened, with_meta, load_snapshot, read_chunk, chunk_of, write_chunk,
}

file_at-put :
    (m n : SnapshotMetadata) (b : Bytes) (fs : Files)
    → file_at n (put m b fs) ≡ (if same m n then some b else file_at n fs)
unfolding file_at put
file_at-put m n b [] = refl
file_at-put m n b ((k, c) ∷ fs) = ground (arith, file_at-put m n b fs)

take-[] : (n : ℕ) → take {A = ℕ} n [] ≡ []
take-[] zero = refl
take-[] (suc n) = refl

drop-[] : (n : ℕ) → drop {A = ℕ} n [] ≡ []
drop-[] zero = refl
drop-[] (suc n) = refl

-- a write at the end of a file
write_at-end :
    (p : ℕ) (content file : Bytes) → p ≡ length file → write_at p content file ≡ file ++ content
unfolding write_at
write_at-end zero content [] h =
    ap (λ bs. content ++ bs) (drop-[] (length content)) ∙ append-nil content
write_at-end zero content (b ∷ file) h = absurd (omega arith)
write_at-end (suc p) content [] h = absurd (omega arith)
write_at-end (suc p) content (b ∷ file) h =
    ap (λ bs. b ∷ bs) (write_at-end p content file (omega arith))

take-append-take : (p n : ℕ) (xs : Bytes) → take p xs ++ take n (drop p xs) ≡ take (p + n) xs
take-append-take zero n xs = ap (λ k. take k xs) (omega arith)
take-append-take (suc p) n [] = take-[] n ∙ sym (take-[] (suc p + n))
take-append-take (suc p) n (x ∷ xs) =
    let k : suc p + n ≡ suc (p + n) = omega arith in
    ap (λ bs. x ∷ bs) (take-append-take p n xs) ∙ ap (λ k. take k (x ∷ xs)) (sym k)

take-beyond : (n : ℕ) (xs : Bytes) → length xs ≤ n → take n xs ≡ xs
take-beyond n [] h = take-[] n
take-beyond zero (x ∷ xs) h = absurd (omega arith)
take-beyond (suc n) (x ∷ xs) h = ap (λ bs. x ∷ bs) (take-beyond n xs (omega arith))

-- the files of all other names are as they were
abbrev pub SameOthers : SnapshotMetadata → Files → Files → Type 0
SameOthers m fs gs = (n : SnapshotMetadata) → same m n ≡ false → file_at n gs ≡ file_at n fs

put-SameOthers : (m : SnapshotMetadata) (b : Bytes) (fs : Files) → SameOthers m fs (put m b fs)
put-SameOthers m b fs n d = file_at-put m n b fs ∙ rw d refl

same_self : (m : SnapshotMetadata) → same m m ≡ true
same_self m = ground arith

file_at-put_self : (m : SnapshotMetadata) (b : Bytes) (fs : Files) → file_at m (put m b fs) ≡ some b
file_at-put_self m b fs = file_at-put m m b fs ∙ rw (same_self m) refl

abbrev chunk_at : (position n : ℕ) → Bytes → SnapshotChunk
chunk_at position n file = record {
  content = take n (drop position file);
  position = position;
  done = leb (length file) (position + n);
}

-- past the end of the file there is an empty chunk, the last
chunk_of-chunk_at :
    (size position : ℕ) (file : Bytes)
    → chunk_of size position file ≡ chunk_at position (min (length file - position) size) file
chunk_of-chunk_at size position file = elim (Bool-cases (leb (length file) position)) [
  | inr e ↦ rw e refl
  | inl e ↦
      let z : min (length file - position) size ≡ 0 = ground arith in rw e (rw z (ground arith))
]

module _ (J : Json) (m : SnapshotMetadata) where
  -- on with the transfer unless the chunk was the last, or could not be written
  abbrev unless_done :
      Bool
      → Result StorageError (Unit {0}) × SnapshotStore
      → (SnapshotStore → Option SnapshotStore)
      → Option SnapshotStore
  unless_done last (err e, to) rest = none
  unless_done true (ok done, to) rest = some to
  unless_done false (ok done, to) rest = rest to

  -- Chunk after chunk is read from one store and written to another, until one is the last: at most
  -- `fuel` chunks. The next position is the one behind the chunk.
  unfoldable pub transfer : ℕ → ℕ → SnapshotStore → SnapshotStore → Option SnapshotStore
  transfer zero position from to = none
  transfer (suc fuel) position from to = elim (read_chunk m position from) [
    | err e ↦ none
    | ok chunk ↦
        unless_done chunk.done (write_chunk J m chunk to)
          (transfer fuel (position + length chunk.content) from)
  ]

  -- what the receiver has before the bytes from the position on arrive
  abbrev Received : ℕ → Bytes → SnapshotStore → Type 0
  Received position file to = (position ≡ 0) ⊎ (file_at m to.snaps ≡ some (take position file))

  -- a chunk is added to what was received
  write_chunk-Received :
      (file : Bytes) (chunk : SnapshotChunk) (to : SnapshotStore)
      → chunk.position ≤ length file
      → Received chunk.position file to
      → let to' : SnapshotStore = record to {
        snaps = put m (take chunk.position file ++ chunk.content) to.snaps;
      } in
        write_chunk J m chunk to
        ≡ (if chunk.done then with_meta J (J.to_vec m) m to' else (ok tt, to'))
  unfolding write_chunk
  write_chunk-Received file chunk to le r =
      let base = take chunk.position file in
      let o : opened J chunk (file_at m to.snaps) ≡ ok base =
        elim (Bool-cases (chunk.position == 0)) [
          | inl z ↦
              let p : chunk.position ≡ 0 = ground arith in rw z (ap (λ k. ok (take k file)) (sym p))
          | inr n ↦ elim r [ inl z ↦ absurd (ground arith) | inr h ↦ rw n (rw h refl) ]
        ] in
      let w =
        write_at-end chunk.position chunk.content base
          (omega (arith, length-take chunk.position file)) in
      rw (o, write_chunk) (rw w refl)

  abbrev pub Installed : Bytes → Bytes → SnapshotStore → SnapshotStore → Type 0
  Installed file json to t =
      (load_snapshot m t ≡ ok file)
      × (file_at m t.metas ≡ some json)
      × SameOthers m to.snaps t.snaps
      × SameOthers m to.metas t.metas

  read_chunk-chunk_at :
      (from : SnapshotStore) (file : Bytes) (p : ℕ)
      → file_at m from.snaps ≡ some file
      → read_chunk m p from ≡ ok (chunk_at p (min (length file - p) from.chunk_size) file)
  unfolding read_chunk
  read_chunk-chunk_at from file p here =
      rw (here, read_chunk) (ap ok (chunk_of-chunk_at from.chunk_size p file))

  load_snapshot-ok :
      (s : SnapshotStore) (file : Bytes)
      → file_at m s.snaps ≡ some file
      → load_snapshot m s ≡ ok file
  unfolding load_snapshot
  load_snapshot-ok s file h = ground arith

  -- one round: from a position in the file, with what comes before it received
  transfer-from :
      (from : SnapshotStore) (file json : Bytes)
      → 0 < from.chunk_size
      → file_at m from.snaps ≡ some file
      → J.to_vec m ≡ some json
      → (fuel position : ℕ) (to : SnapshotStore) → position ≤ length file
      → length file - position < fuel
      → Received position file to
      → (t : SnapshotStore) × (transfer fuel position from to ≡ some t) × Installed file json to t
  unfolding transfer
  transfer-from from file json c here j zero p to le f r = absurd (omega arith)
  transfer-from from file json c here j (suc fuel) p to le f r =
      let n = min (length file - p) from.chunk_size in
      let chunk = chunk_at p n file in
      let got = read_chunk-chunk_at from file p here in
      let received : take p file ++ chunk.content ≡ take (p + n) file = take-append-take p n file in
      let wrote = write_chunk-Received file chunk to le r in
      elim (Bool-cases (leb (length file) (p + n))) [
        | inl last ↦
            let whole = received ∙ take-beyond (p + n) file (ground arith) in
            let t : SnapshotStore = record to {
              snaps = put m file to.snaps;
              metas = put m json to.metas;
            } in
            let wrote' : write_chunk J m chunk to ≡ (ok tt, t) =
              wrote ∙ rw last (rw j (rw whole refl)) in
            (
              t,
              rw (got, transfer) (rw wrote' (rw last refl)),
              (
                load_snapshot-ok t file (file_at-put_self m file to.snaps),
                file_at-put_self m json to.metas,
                put-SameOthers m file to.snaps,
                put-SameOthers m json to.metas,
              ),
            )
        | inr more ↦
            let to' : SnapshotStore = record to { snaps = put m (take (p + n) file) to.snaps } in
            let wrote' : write_chunk J m chunk to ≡ (ok tt, to') =
              wrote ∙ rw more (rw received refl) in
            let size : p + length chunk.content ≡ p + n =
              omega (arith, length-take n (drop p file), length-drop p file) in
            let (t, done, (loaded, meta, others, others')) =
              transfer-from from file json c here j fuel (p + n) to' (ground arith) (ground arith)
                (inr (file_at-put_self m (take (p + n) file) to.snaps)) in
            (
              t,
              rw (got, transfer) (rw wrote' (rw more (rw size done))),
              (
                loaded,
                meta,
                λ k d. others k d ∙ put-SameOthers m (take (p + n) file) to.snaps k d,
                others',
              ),
            )
      ]

  -- If the metadata can be written as JSON and chunks are not empty, a snapshot of one store is sent to
  -- another in as many rounds as it has bytes, and one, at most: the transfer ends with its last chunk,
  -- the receiver then loads the same bytes and has the metadata beside them, whatever it had under
  -- that name before, and no other file of it has changed.
  pub transfer_lem :
      (from to : SnapshotStore) (file json : Bytes)
      → 0 < from.chunk_size
      → load_snapshot m from ≡ ok file
      → J.to_vec m ≡ some json
      → (t : SnapshotStore) × (transfer (length file + 1) 0 from to ≡ some t)
        × Installed file json to t
  unfolding load_snapshot
  transfer_lem from to file json c here j =
      transfer-from from file json c (ground arith) j (length file + 1) 0 to (omega arith)
        (omega arith) (inl refl)
