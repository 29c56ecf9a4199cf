-- ===== src/Storage/SnapshotStore/Purge.antt =====
-- Listing the snapshots of xraft-storage/src/snapshot_store.rs, and removing the old ones.
use xraft.Prelude.{
  ℕ, ◌+◌, ◌≡◌, refl, sym, ◌∙◌, Bool, true, false, ◌&&◌, none, some, List, [], ◌∷◌, arith,
  Bool-cases, inl, inr, any, filter, length, if◌then◌else◌, All,
}
use xraft.Prelude.Exec.{ok}
use xraft.Storage.SnapshotStore.{
  SnapshotMetadata, Json, same, Files, file_at, remove, SnapshotStore, parsed, older, insert_by,
  sort, purge, list_snapshots, purge_older_than,
}

abbrev pub listed : SnapshotMetadata → List SnapshotMetadata → Bool
listed m = any (λ n. same n m)

abbrev pub names : Files → List SnapshotMetadata
names [] = []
names ((m, b) ∷ fs) = m ∷ names fs

-- every `.meta` file parses to the metadata that it is named for
abbrev pub Parses : Json → Files → Type 0
Parses J [] = Unit
Parses J ((m, b) ∷ fs) = (J.from_slice b ≡ some m) × Parses J fs

-- no snapshot of the list is older than one behind it
abbrev pub IsNewestFirst : List SnapshotMetadata → Type 0
IsNewestFirst [] = Unit
IsNewestFirst (m ∷ ms) = All (λ n. older m n ≡ false) ms × IsNewestFirst ms

parsed-names : (J : Json) (fs : Files) → Parses J fs → parsed J fs ≡ ok (names fs)
unfolding parsed
parsed-names J [] h = refl
parsed-names J ((m, b) ∷ fs) (h, k) = rw (h, parsed) (rw (parsed-names J fs k) refl)

listed-insert_by :
    (n m : SnapshotMetadata) (ms : List SnapshotMetadata)
    → listed n (insert_by m ms) ≡ listed n (m ∷ ms)
unfolding insert_by
listed-insert_by n m [] = refl
listed-insert_by n m (k ∷ ms) = ground (arith, listed-insert_by n m ms)

listed-sort : (n : SnapshotMetadata) (ms : List SnapshotMetadata) → listed n (sort ms) ≡ listed n ms
unfolding sort
listed-sort n [] = refl
listed-sort n (m ∷ ms) = listed-insert_by n m (sort ms) ∙ ground (arith, listed-sort n ms)

insert_by-All :
    (P : SnapshotMetadata → Type 0) (m : SnapshotMetadata) (ms : List SnapshotMetadata)
    → P m
    → All P ms
    → All P (insert_by m ms)
unfolding insert_by
insert_by-All P m [] p h = (p, tt)
insert_by-All P m (n ∷ ms) p (q, h) = elim (Bool-cases (older m n)) [
  | inl e ↦ rw e (q, insert_by-All P m ms p h)
  | inr e ↦ rw e (p, (q, h))
]

-- the order is transitive in this sense
not_older_trans :
    (a b c : SnapshotMetadata) → older a b ≡ false → older b c ≡ false → older a c ≡ false
not_older_trans a b c h k = ground arith

All-not_older :
    (a b : SnapshotMetadata) (ms : List SnapshotMetadata)
    → older a b ≡ false
    → All (λ n. older b n ≡ false) ms
    → All (λ n. older a n ≡ false) ms
All-not_older a b [] h k = tt
All-not_older a b (m ∷ ms) h (p, k) = (not_older_trans a b m h p, All-not_older a b ms h k)

insert_by-IsNewestFirst :
    (m : SnapshotMetadata) (ms : List SnapshotMetadata)
    → IsNewestFirst ms
    → IsNewestFirst (insert_by m ms)
unfolding insert_by
insert_by-IsNewestFirst m [] h = (tt, tt)
insert_by-IsNewestFirst m (n ∷ ms) (p, h) = elim (Bool-cases (older m n)) [
  | inl e ↦
      rw e (
        insert_by-All (λ k. older n k ≡ false) m ms (ground arith) p,
        insert_by-IsNewestFirst m ms h,
      )
  | inr e ↦ rw e ((e, All-not_older m n ms e p), (p, h))
]

sort-IsNewestFirst : (ms : List SnapshotMetadata) → IsNewestFirst (sort ms)
unfolding sort
sort-IsNewestFirst [] = tt
sort-IsNewestFirst (m ∷ ms) = insert_by-IsNewestFirst m (sort ms) (sort-IsNewestFirst ms)

file_at-remove :
    (m n : SnapshotMetadata) (fs : Files)
    → file_at n (remove m fs) ≡ (if same m n then none else file_at n fs)
unfolding file_at remove
file_at-remove m n [] = ground arith
file_at-remove m n ((k, c) ∷ fs) = ground (arith, file_at-remove m n fs)

-- two names of one path are equally old
older-same : (m n keep : SnapshotMetadata) → same m n ≡ true → older m keep ≡ older n keep
older-same m n keep h = ground arith

abbrev pub Purged : SnapshotMetadata → List SnapshotMetadata → Files → Files → Type 0
Purged keep all fs gs =
    (n : SnapshotMetadata)
    → file_at n gs ≡ (if listed n all && older n keep then none else file_at n fs)

older-Purged :
    (keep m : SnapshotMetadata) (ms : List SnapshotMetadata) (fs gs : Files)
    → older m keep ≡ true
    → Purged keep ms (remove m fs) gs
    → Purged keep (m ∷ ms) fs gs
older-Purged keep m ms fs gs e h n = elim (Bool-cases (same m n)) [
  | inr d ↦ ground (arith, h n, file_at-remove m n fs)
  | inl q ↦
      let old : older n keep ≡ true = sym (older-same m n keep q) ∙ e in
      ground (arith, h n, file_at-remove m n fs)
]

kept-Purged :
    (keep m : SnapshotMetadata) (ms : List SnapshotMetadata) (fs gs : Files)
    → older m keep ≡ false
    → Purged keep ms fs gs
    → Purged keep (m ∷ ms) fs gs
kept-Purged keep m ms fs gs e h n = elim (Bool-cases (same m n)) [
  | inr d ↦ ground (arith, h n)
  | inl q ↦ let new : older n keep ≡ false = sym (older-same m n keep q) ∙ e in ground (arith, h n)
]

length-filter :
    (keep m : SnapshotMetadata) (ms : List SnapshotMetadata)
    → older m keep ≡ true
    → length (filter (λ n. older n keep) (m ∷ ms)) ≡ length (filter (λ n. older n keep) ms) + 1
length-filter keep m ms e = ground arith

length-filter_not :
    (keep m : SnapshotMetadata) (ms : List SnapshotMetadata)
    → older m keep ≡ false
    → length (filter (λ n. older n keep) (m ∷ ms)) ≡ length (filter (λ n. older n keep) ms)
length-filter_not keep m ms e = ground arith

purge-Purged :
    (keep : SnapshotMetadata) (all : List SnapshotMetadata) (s : SnapshotStore)
    → let (k, t) = purge keep all s in
      Purged keep all s.snaps t.snaps
      × Purged keep all s.metas t.metas
      × (k ≡ length (filter (λ m. older m keep) all))
unfolding purge
purge-Purged keep [] s = (λ n. ground arith, λ n. ground arith, refl)
purge-Purged keep (m ∷ ms) s = elim (Bool-cases (older m keep)) [
  | inl e ↦
      let gone : SnapshotStore = record s { snaps = remove m s.snaps; metas = remove m s.metas } in
      let (a, b, c) = purge-Purged keep ms gone in
      rw e (
        older-Purged keep m ms s.snaps (purge keep ms gone).1.snaps e a,
        older-Purged keep m ms s.metas (purge keep ms gone).1.metas e b,
        omega (arith, c, length-filter keep m ms e),
      )
  | inr e ↦
      let (a, b, c) = purge-Purged keep ms s in
      rw e (
        kept-Purged keep m ms s.snaps (purge keep ms s).1.snaps e a,
        kept-Purged keep m ms s.metas (purge keep ms s).1.metas e b,
        omega (arith, c, length-filter_not keep m ms e),
      )
]

-- Where every `.meta` file parses to the metadata that it is named for: the snapshots are listed, all
-- of them and no others, the newest first; and purging removes, of every one listed that is older
-- than the one to keep, both files, and leaves all other files as they were.
pub purge_older_than_lem :
    (json : Json) (keep : SnapshotMetadata) (s : SnapshotStore)
    → Parses json s.metas
    → (all : List SnapshotMetadata) × (k : ℕ) × (t : SnapshotStore) × (list_snapshots json s
        ≡ ok all)
      × IsNewestFirst all
      × ((n : SnapshotMetadata) → listed n all ≡ listed n (names s.metas))
      × (purge_older_than json keep s ≡ (ok k, t))
      × Purged keep all s.snaps t.snaps
      × Purged keep all s.metas t.metas
      × (k ≡ length (filter (λ m. older m keep) all))
unfolding list_snapshots purge_older_than
purge_older_than_lem json keep s h =
    let all = sort (names s.metas) in
    let (a, b, c) = purge-Purged keep all s in
    let found : list_snapshots json s ≡ ok all =
      rw (parsed-names json s.metas h, list_snapshots) refl in
    (
      all,
      (purge keep all s).0,
      (purge keep all s).1,
      found,
      sort-IsNewestFirst (names s.metas),
      λ n. listed-sort n (names s.metas),
      rw (found, purge_older_than) refl,
      a,
      b,
      c,
    )
