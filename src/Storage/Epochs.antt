-- ===== src/Storage/Epochs.antt =====
-- xraft-storage/src/leader_epoch_checkpoint.rs, and how `StorageEngine::open` (xraft-storage/src/lib.rs)
-- builds it from the log. A BTreeMap is a list of pairs in the order of the keys, and `bincode` a
-- parameter. Files are written and renamed without a fault.
pub mod Scan
use xraft.Prelude.{
  ℕ, Bool, true, false, Option, none, some, List, [], ◌∷◌, ltb, leb, ◌==◌, if◌then◌else◌,
}
use xraft.Prelude.Exec.{Result, ok, err, and_then}
use xraft.Types.{Bytes, LogEntry, EntryType}
use xraft.Storage.Segment.{Encoding}
use xraft.Storage.SegmentLog.{SegmentLog, LogError, read}

abbrev pub EpochMap : Type 0
EpochMap = List (ℕ × ℕ)

-- `BTreeMap::get`
unfoldable pub lookup : ℕ → EpochMap → Option ℕ
lookup epoch [] = none
lookup epoch ((e, o) ∷ m) = if e == epoch then some o else lookup epoch m

-- `BTreeMap::insert`: the new value replaces an old one.
unfoldable pub insert : ℕ → ℕ → EpochMap → EpochMap
insert epoch offset [] = (epoch, offset) ∷ []
insert epoch offset ((e, o) ∷ m) =
    let rest = insert epoch offset m in
    if e == epoch
    then (epoch, offset) ∷ m
    else if ltb epoch e
    then (epoch, offset) ∷ (e, o) ∷ m
    else (e, o) ∷ rest

abbrev pub or_last : ℕ × ℕ → Option (ℕ × ℕ) → Option (ℕ × ℕ)
or_last p none = some p
or_last p (some q) = some q

-- `range(..=epoch).next_back()`: the last pair before the first key beyond the epoch
unfoldable pub lookup_le : ℕ → EpochMap → Option (ℕ × ℕ)
lookup_le epoch [] = none
lookup_le epoch ((e, o) ∷ m) =
    let rest = lookup_le epoch m in if leb e epoch then or_last (e, o) rest else none

pub record MapEncoding : Type 0 where
  pub serialize : EpochMap → Option Bytes
  pub deserialize : Bytes → Option EpochMap

pub data EpochError : Type 0 where
  corruption serialization_error : EpochError
  in_log : LogError → EpochError

-- `file` is the file on the disk, which outlives the node; `temp` is the one beside it.
pub record LeaderEpochCheckpoint : Type 0 where
  pub file : Option Bytes
  pub temp : Option Bytes
  pub epochs : EpochMap

abbrev pub parsed : Option EpochMap → Result EpochError EpochMap
parsed none = err EpochError.corruption
parsed (some m) = ok m

abbrev pub raised : {A : Type 0} → Result LogError A → Result EpochError A
raised (ok a) = ok a
raised (err e) = err (EpochError.in_log e)

abbrev pub opened :
    Result EpochError (Unit {0}) × LeaderEpochCheckpoint → Result EpochError LeaderEpochCheckpoint
opened (ok u, c) = ok c
opened (err e, c) = err e

-- `epoch_map.entry(term).or_insert(offset)`
abbrev pub or_insert : LogEntry → Option ℕ → EpochMap → EpochMap
or_insert entry none m = insert entry.term entry.offset m
or_insert entry (some o) m = m

abbrev pub is_leader_change : EntryType → Bool
is_leader_change EntryType.leader_change_message = true
is_leader_change _ = false

-- the loop over the entries of the log
unfoldable pub scan : List LogEntry → EpochMap → EpochMap
scan [] m = m
scan (e ∷ es) m =
    if is_leader_change e.entry_type then scan es (or_insert e (lookup e.term m) m) else scan es m

module _ (C : MapEncoding) where
  -- an empty file counts as none
  abbrev pub load : Option Bytes → Result EpochError EpochMap
  load none = ok []
  load (some []) = ok []
  load (some (b ∷ bs)) = parsed (C.deserialize (b ∷ bs))

  unfoldable pub open_checkpoint :
      Option Bytes → Option Bytes → Result EpochError LeaderEpochCheckpoint
  open_checkpoint file temp =
      and_then (load file) λ m. ok (record { file = file; temp = temp; epochs = m })

  -- The temporary file is written, and renamed over the other.
  unfoldable pub persist :
      LeaderEpochCheckpoint → Result EpochError (Unit {0}) × LeaderEpochCheckpoint
  persist c = renamed (C.serialize c.epochs)
    where
      renamed : Option Bytes → Result EpochError (Unit {0}) × LeaderEpochCheckpoint
      renamed none = (err EpochError.serialization_error, c)
      renamed (some bytes) = (ok tt, record c { file = some bytes; temp = none })

  unfoldable pub append :
      ℕ → ℕ → LeaderEpochCheckpoint → Result EpochError (Unit {0}) × LeaderEpochCheckpoint
  append epoch start_offset c = persist (record c { epochs = insert epoch start_offset c.epochs })

  unfoldable pub rebuild :
      EpochMap → LeaderEpochCheckpoint → Result EpochError (Unit {0}) × LeaderEpochCheckpoint
  rebuild entries c = persist (record c { epochs = entries })

  -- the part of `StorageEngine::open` from the checkpoint on, with the log already open
  unfoldable pub open_epochs :
      Encoding → SegmentLog → Option Bytes → Option Bytes → Result EpochError LeaderEpochCheckpoint
  open_epochs E log file temp = and_then (open_checkpoint file temp) λ c.
      if ltb log.log_start_offset log.log_end_offset
      then (and_then (raised (read E log.log_start_offset log.log_end_offset log))
          λ entries. opened (rebuild (scan entries []) c))
      else opened (rebuild [] c)
