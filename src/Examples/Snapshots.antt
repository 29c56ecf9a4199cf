-- ===== src/Examples/Snapshots.antt =====
-- Two snapshot stores: a snapshot of ten bytes in chunks of four, over an old one; and a purge.
use xraft.Prelude.{ℕ, ◌≡◌, refl, Option, none, some, List, [], ◌∷◌, arith, length, filter}
use xraft.Prelude.Exec.{ok}
use xraft.Types.{Bytes}
use xraft.Storage.SnapshotStore.{
  SnapshotMetadata, Json, SnapshotStore, file_at, load_snapshot, older, list_snapshots,
  purge_older_than,
}
use xraft.Storage.SnapshotStore.Transfer.{transfer, Installed, transfer_lem}
use xraft.Storage.SnapshotStore.Purge.{listed, names, IsNewestFirst, Purged, purge_older_than_lem}

abbrev meta : ℕ → ℕ → SnapshotMetadata
meta term index = record { term = term; index = index }

abbrev from_slice : Bytes → Option SnapshotMetadata
from_slice (t ∷ i ∷ []) = some (meta t i)
from_slice _ = none

abbrev json : Json
json = record { to_vec = λ m. some (m.term ∷ m.index ∷ []); from_slice = from_slice }

abbrev ten_bytes : Bytes
ten_bytes = 1 ∷ 2 ∷ 3 ∷ 4 ∷ 5 ∷ 6 ∷ 7 ∷ 8 ∷ 9 ∷ 10 ∷ []

abbrev sender : SnapshotStore
sender = record {
  chunk_size = 4;
  snaps = (meta 3 100, ten_bytes) ∷ [];
  metas = (meta 3 100, 3 ∷ 100 ∷ []) ∷ [];
}

abbrev receiver : SnapshotStore
receiver = record {
  chunk_size = 4;
  snaps = (meta 2 40, 0 ∷ []) ∷ (meta 3 100, 7 ∷ 7 ∷ []) ∷ (meta 4 7, []) ∷ [];
  metas = (meta 2 40, 2 ∷ 40 ∷ []) ∷ (meta 4 7, 4 ∷ 7 ∷ []) ∷ [];
}

holds : load_snapshot (meta 3 100) sender ≡ ok ten_bytes
unfolding load_snapshot file_at
holds = refl

transfer_lem_example :
    (t : SnapshotStore) × (transfer json (meta 3 100) 11 0 sender receiver ≡ some t)
    × Installed json (meta 3 100) ten_bytes (3 ∷ 100 ∷ []) receiver t
transfer_lem_example =
    transfer_lem json (meta 3 100) sender receiver ten_bytes (3 ∷ 100 ∷ []) (omega arith) holds refl

purge_older_than_lem_example :
    (all : List SnapshotMetadata) × (k : ℕ) × (t : SnapshotStore) × (list_snapshots json receiver
      ≡ ok all)
    × IsNewestFirst all
    × ((n : SnapshotMetadata) → listed n all ≡ listed n (names receiver.metas))
    × (purge_older_than json (meta 3 100) receiver ≡ (ok k, t))
    × Purged (meta 3 100) all receiver.snaps t.snaps
    × Purged (meta 3 100) all receiver.metas t.metas
    × (k ≡ length (filter (λ m. older m (meta 3 100)) all))
purge_older_than_lem_example = purge_older_than_lem json (meta 3 100) receiver (refl, (refl, tt))
