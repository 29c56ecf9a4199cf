-- ===== src/Storage/QuorumFile/Histories.antt =====
-- The saves and restarts of xraft-storage/src/quorum_state_file.rs, in any order.
use xraft.Prelude.{◌≡◌, refl, ap, Bool, true, false, Option, none, some, List, [], ◌∷◌, inl, inr}
use xraft.Prelude.Exec.{Result, ok, err, and_then, Result-cases}
use xraft.Types.{Bytes, QuorumState}
use xraft.Storage.QuorumFile.{
  Json, Fault, QuorumStateFile, write_temp, sync_temp, rename, read_file, open_file, save, load,
  FileError,
}

-- What happens to a store: a save, which the file system may fail, or a restart, which opens what is on
-- the disk.
pub data Op : Type 0 where
  saved : Option Fault → QuorumState → Op
  restarted : Op

-- the state as it should be: the last one whose save was not failed
unfoldable pub last_saved : List Op → Option QuorumState → Option QuorumState
last_saved [] a = a
last_saved (saved none state ∷ ops) a = last_saved ops (some state)
last_saved (_ ∷ ops) a = last_saved ops a

abbrev pub is_ok : {A : Type 0} → Result FileError A → Bool
is_ok (ok a) = true
is_ok (err e) = false

abbrev pub is_none : Option Fault → Bool
is_none none = true
is_none (some f) = false

-- `serde_json` reads back what it wrote.
abbrev pub IsFaithful : Json → Type 0
IsFaithful J =
    (s : QuorumState) → (b : Bytes) × (J.to_string_pretty s ≡ some b) × (J.from_str b ≡ some s)

module _ (J : Json) where
  unfoldable pub run : List Op → QuorumStateFile → Result FileError QuorumStateFile
  run [] q = ok q
  run (saved fault state ∷ ops) q = run ops (save J fault state q).1
  run (restarted ∷ ops) q = and_then (open_file J q.state_file q.temp) (run ops)

  -- The file holds what is cached.
  abbrev pub IsOnDisk : Option QuorumState → QuorumStateFile → Type 0
  IsOnDisk a q = (q.cached ≡ a) × (read_file J q.state_file ≡ ok a)

  save-failed :
      (fault : Fault) (s : QuorumState) (a : Option QuorumState) (q : QuorumStateFile)
      → IsFaithful J
      → IsOnDisk a q
      → ((e : FileError) × ((save J (some fault) s q).0 ≡ err e))
        × IsOnDisk a (save J (some fault) s q).1
  unfolding save write_temp sync_temp rename
  save-failed Fault.no_temp s a q law h = let (b, w, r) = law s in rw w ((FileError.io, refl), h)
  save-failed Fault.no_sync s a q law h = let (b, w, r) = law s in rw w ((FileError.io, refl), h)
  save-failed Fault.no_rename s a q law h = let (b, w, r) = law s in rw w ((FileError.io, refl), h)
  save-failed (Fault.short_write n) s a q law h =
      let (b, w, r) = law s in rw w ((FileError.io, refl), h)

  save-done :
      (s : QuorumState) (q : QuorumStateFile)
      → IsFaithful J
      → ((save J none s q).0 ≡ ok tt) × IsOnDisk (some s) (save J none s q).1
  unfolding save write_temp sync_temp rename
  save-done s q law = let (b, w, r) = law s in rw (w, r) (refl, (refl, refl))

  run-IsOnDisk :
      IsFaithful J
      → (ops : List Op) (a : Option QuorumState) (q : QuorumStateFile) → IsOnDisk a q
      → (q' : QuorumStateFile) × (run ops q ≡ ok q') × IsOnDisk (last_saved ops a) q'
  unfolding run last_saved open_file
  run-IsOnDisk law [] a q h = (q, refl, h)
  run-IsOnDisk law (saved none s ∷ ops) a q h =
      run-IsOnDisk law ops (some s) (save J none s q).1 (save-done s q law).1
  run-IsOnDisk law (saved (some f) s ∷ ops) a q h =
      run-IsOnDisk law ops a (save J (some f) s q).1 (save-failed f s a q law h).1
  run-IsOnDisk law (restarted ∷ ops) a q (c, o) = rw o (
      run-IsOnDisk law ops a (record { state_file = q.state_file; temp = q.temp; cached = a })
        (refl, o))

  save-is_ok :
      IsFaithful J
      → (fault : Option Fault) (s : QuorumState) (a : Option QuorumState) (q : QuorumStateFile)
      → IsOnDisk a q
      → is_ok (save J fault s q).0 ≡ is_none fault
  save-is_ok law none s a q h = ap is_ok (save-done s q law).0
  save-is_ok law (some f) s a q h = ap is_ok (save-failed f s a q law h).0.1

  opened-IsOnDisk :
      (state_file temp : Option Bytes) (q : QuorumStateFile)
      → open_file J state_file temp ≡ ok q
      → IsOnDisk q.cached q
  unfolding open_file
  opened-IsOnDisk file temp q h = elim (Result-cases (read_file J file)) [
    | inr (e, failed) ↦ cc (rw failed at h)
    | inl (c, found) ↦
        let same : ok (record { state_file = file; temp = temp; cached = c }) ≡ ok q =
          rw found at h in
        let files : q.state_file ≡ file = cc same in
        let states : q.cached ≡ c = cc same in rw (files, states) (refl, found)
  ]

  -- If `serde_json` reads back what it wrote, then for every store that could be opened and every history
  -- of saves and restarts, in which the file system may fail any save at any step, no restart fails,
  -- the store then returns the state of the last save that was not failed, or the one it was opened
  -- with if there is none, and one more save succeeds exactly if the file system does not fail it.
  pub run_lem :
      IsFaithful J
      → (state_file temp : Option Bytes) (q : QuorumStateFile) → open_file J state_file temp ≡ ok q
      → (ops : List Op) (fault : Option Fault) (s : QuorumState)
      → (q' : QuorumStateFile) × (run ops q ≡ ok q')
        × (load q' ≡ ok (last_saved ops q.cached))
        × (is_ok (save J fault s q').0 ≡ is_none fault)
  unfolding load
  run_lem law file temp q h ops fault s =
      let (q', ran, held) = run-IsOnDisk law ops q.cached q (opened-IsOnDisk file temp q h) in
      (q', ran, ap ok held.0, save-is_ok law fault s (last_saved ops q.cached) q' held)
