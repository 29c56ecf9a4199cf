-- ===== src/Storage/SnapshotStore.antt =====
-- xraft-storage/src/snapshot_store.rs: the snapshots on disk, read and written in chunks. A directory is
-- a list of files by the metadata that name them, and `serde_json` a parameter. The files of other
-- names that a directory may hold, and the faults of the file system but for a missing file, are left
-- out.
pub mod Transfer
pub mod Purge
use xraft.Prelude.{
  ℕ, zero, suc, ◌+◌, ◌-◌, Bool, true, false, not, ◌&&◌, ◌||◌, Option, none, some, List, [], ◌∷◌,
  ◌++◌, ltb, leb, ◌==◌, min, length, take, drop, if◌then◌else◌,
}
use xraft.Prelude.Exec.{Result, ok, err, Exec}
use xraft.Types.{Bytes}

-- The fields of the model's types that the store uses.
pub record SnapshotMetadata : Type 0 where
  pub term : ℕ
  pub index : ℕ

pub record SnapshotChunk : Type 0 where
  pub content : Bytes
  pub position : ℕ
  pub done : Bool

pub data StorageError : Type 0 where
  not_found io serialization : StorageError

pub record Json : Type 0 where
  pub to_vec : SnapshotMetadata → Option Bytes
  pub from_slice : Bytes → Option SnapshotMetadata

-- the same path, `<term>-<index>`
abbrev pub same : SnapshotMetadata → SnapshotMetadata → Bool
same a b = a.term == b.term && a.index == b.index

abbrev pub Files : Type 0
Files = List (SnapshotMetadata × Bytes)

unfoldable pub file_at : SnapshotMetadata → Files → Option Bytes
file_at m [] = none
file_at m ((n, b) ∷ fs) = if same n m then some b else file_at m fs

-- `fs::write`: the file is made, or its contents are replaced
unfoldable pub put : SnapshotMetadata → Bytes → Files → Files
put m b [] = (m, b) ∷ []
put m b ((n, c) ∷ fs) = let rest = put m b fs in if same n m then (m, b) ∷ fs else (n, c) ∷ rest

-- `fs::remove_file`
unfoldable pub remove : SnapshotMetadata → Files → Files
remove m [] = []
remove m ((n, c) ∷ fs) = let rest = remove m fs in if same n m then rest else (n, c) ∷ rest

-- The `.snap` files and the `.meta` files.
pub record SnapshotStore : Type 0 where
  pub chunk_size : ℕ
  pub snaps : Files
  pub metas : Files

-- a write at a position of an open file; a hole reads as zeros
unfoldable pub write_at : ℕ → Bytes → Bytes → Bytes
write_at zero content file = content ++ drop (length content) file
write_at (suc p) content [] = 0 ∷ write_at p content []
write_at (suc p) content (b ∷ file) = b ∷ write_at p content file

unfoldable pub load_snapshot : SnapshotMetadata → SnapshotStore → Result StorageError Bytes
load_snapshot m s = found (file_at m s.snaps)
  where
    found : Option Bytes → Result StorageError Bytes
    found none = err not_found
    found (some b) = ok b

abbrev pub existing : Option Bytes → Result StorageError Bytes
existing none = err io
existing (some b) = ok b

unfoldable pub snapshot_size : SnapshotMetadata → SnapshotStore → Result StorageError ℕ
snapshot_size m s = elim (existing (file_at m s.snaps)) [ ok b ↦ ok (length b) | err e ↦ err e ]

abbrev pub chunk_of : ℕ → ℕ → Bytes → SnapshotChunk
chunk_of chunk_size position file =
    let to_read = min (length file - position) chunk_size in
    if leb (length file) position
    then record { content = []; position = position; done = true }
    else record {
      content = take to_read (drop position file);
      position = position;
      done = leb (length file) (position + to_read);
    }

unfoldable pub read_chunk : SnapshotMetadata → ℕ → SnapshotStore → Result StorageError SnapshotChunk
read_chunk m position s = elim (existing (file_at m s.snaps)) [
  | ok file ↦ ok (chunk_of s.chunk_size position file)
  | err e ↦ err e
]

module _ (J : Json) where
  abbrev pub with_meta :
      Option Bytes → SnapshotMetadata → Exec SnapshotStore StorageError (Unit {0})
  with_meta none m s = (err serialization, s)
  with_meta (some json) m s = (ok tt, record s { metas = put m json s.metas })

  unfoldable pub save_snapshot :
      SnapshotMetadata → Bytes → Exec SnapshotStore StorageError (Unit {0})
  save_snapshot m content s = elim (J.to_vec m) [
    | none ↦ (err serialization, s)
    | some json ↦ (ok tt, record s { snaps = put m content s.snaps; metas = put m json s.metas })
  ]

  -- the file that a chunk is written into: at position 0 a new one
  abbrev pub opened : SnapshotChunk → Option Bytes → Result StorageError Bytes
  opened chunk file = if chunk.position == 0 then ok [] else existing file

  unfoldable pub write_chunk :
      SnapshotMetadata → SnapshotChunk → Exec SnapshotStore StorageError (Unit {0})
  write_chunk m chunk s = elim (opened chunk (file_at m s.snaps)) [
    | err e ↦ (err e, s)
    | ok file ↦
        let s' : SnapshotStore = record s {
          snaps = put m (write_at chunk.position chunk.content file) s.snaps;
        } in
        if chunk.done then with_meta (J.to_vec m) m s' else (ok tt, s')
  ]

  -- every `.meta` file, in the order of the directory; one that cannot be parsed ends it
  unfoldable pub parsed : Files → Result StorageError (List SnapshotMetadata)
  parsed [] = ok []
  parsed ((m, b) ∷ fs) = elim (J.from_slice b) [
    | none ↦ err serialization
    | some meta ↦ elim (parsed fs) [ ok ms ↦ ok (meta ∷ ms) | err e ↦ err e ]
  ]

-- the order of the pairs (term, index)
abbrev pub older : SnapshotMetadata → SnapshotMetadata → Bool
older a b = ltb a.term b.term || (a.term == b.term && ltb a.index b.index)

-- `sort_by`, the newest first; equal ones stay in order
unfoldable pub insert_by : SnapshotMetadata → List SnapshotMetadata → List SnapshotMetadata
insert_by m [] = m ∷ []
insert_by m (n ∷ ns) = let rest = insert_by m ns in if older m n then n ∷ rest else m ∷ n ∷ ns

unfoldable pub sort : List SnapshotMetadata → List SnapshotMetadata
sort [] = []
sort (m ∷ ms) = insert_by m (sort ms)

-- the loop of `purge_older_than`, with how many it removed
unfoldable pub purge : SnapshotMetadata → List SnapshotMetadata → SnapshotStore → ℕ × SnapshotStore
purge keep [] s = (0, s)
purge keep (m ∷ ms) s =
    let gone = record s { snaps = remove m s.snaps; metas = remove m s.metas } in
    let (n, t) = purge keep ms (if older m keep then gone else s) in
    (if older m keep then n + 1 else n, t)

module _ (J : Json) where
  unfoldable pub list_snapshots : SnapshotStore → Result StorageError (List SnapshotMetadata)
  list_snapshots s = elim (parsed J s.metas) [ ok ms ↦ ok (sort ms) | err e ↦ err e ]

  unfoldable pub purge_older_than : SnapshotMetadata → Exec SnapshotStore StorageError ℕ
  purge_older_than keep s = elim (list_snapshots s) [
    | err e ↦ (err e, s)
    | ok all ↦ let (n, t) = purge keep all s in (ok n, t)
  ]
