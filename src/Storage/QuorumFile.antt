-- ===== src/Storage/QuorumFile.antt =====
-- xraft-storage/src/quorum_state_file.rs: the quorum state in a JSON file. `serde_json` is a parameter.
-- The file system may fail at any step of a save; a process that dies in the middle of one leaves the
-- files as a failure there does. The directory is one that can be made and read, and a file that was
-- renamed stays. The process keeps its number, which is in the name of the temporary file.
pub mod Histories
use xraft.Prelude.{ℕ, Option, none, some, take}
use xraft.Prelude.Exec.{Result, ok, err, Exec, and_then, lift, ◌>>=◌, ◌>>◌}
use xraft.Types.{Bytes, QuorumState}

pub record Json : Type 0 where
  pub to_string_pretty : QuorumState → Option Bytes
  pub from_str : Bytes → Option QuorumState

pub data FileError : Type 0 where
  corruption serialization io : FileError

-- How the file system fails a save, where it does.
pub data Fault : Type 0 where
  no_temp no_sync no_rename : Fault
  short_write : ℕ → Fault

-- `state_file` and `temp` are on the disk, `cached` in memory.
pub record QuorumStateFile : Type 0 where
  pub state_file : Option Bytes
  pub temp : Option Bytes
  pub cached : Option QuorumState

abbrev pub parsed : Option QuorumState → Result FileError (Option QuorumState)
parsed none = err FileError.corruption
parsed (some state) = ok (some state)

abbrev pub json_of : Option Bytes → Result FileError Bytes
json_of none = err FileError.serialization
json_of (some json) = ok json

-- `tokio::fs::write` of the temporary file
unfoldable pub write_temp : Option Fault → Bytes → Exec QuorumStateFile FileError (Unit {0})
write_temp (some Fault.no_temp) json q = (err FileError.io, q)
write_temp (some (Fault.short_write n)) json q =
    (err FileError.io, record q { temp = some (take n json) })
write_temp _ json q = (ok tt, record q { temp = some json })

-- the temporary file is opened again and synced
unfoldable pub sync_temp : Option Fault → Exec QuorumStateFile FileError (Unit {0})
sync_temp (some Fault.no_sync) q = (err FileError.io, q)
sync_temp _ q = elim q.temp [ none ↦ (err FileError.io, q) | some bytes ↦ (ok tt, q) ]

unfoldable pub rename : Option Fault → Exec QuorumStateFile FileError (Unit {0})
rename (some Fault.no_rename) q = (err FileError.io, q)
rename _ q = elim q.temp [
  | none ↦ (err FileError.io, q)
  | some bytes ↦ (ok tt, record q { state_file = some bytes; temp = none })
]

module _ (J : Json) where
  abbrev pub read_file : Option Bytes → Result FileError (Option QuorumState)
  read_file none = ok none
  read_file (some bytes) = parsed (J.from_str bytes)

  unfoldable pub open_file : Option Bytes → Option Bytes → Result FileError QuorumStateFile
  open_file state_file temp =
      and_then (read_file state_file)
        λ cached. ok (record { state_file = state_file; temp = temp; cached = cached })

  unfoldable pub save : Option Fault → QuorumState → Exec QuorumStateFile FileError (Unit {0})
  save fault state = do
    json ← lift (json_of (J.to_string_pretty state))
    write_temp fault json
    sync_temp fault
    rename fault
    λ q. (ok tt, record q { cached = some state })

unfoldable pub load : QuorumStateFile → Result FileError (Option QuorumState)
load q = ok q.cached
