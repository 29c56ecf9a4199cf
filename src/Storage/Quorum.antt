-- ===== src/Storage/Quorum.antt =====
-- xraft-storage/src/memory_quorum_state.rs: the quorum state in memory.
use xraft.Prelude.{Option, some, ◌≡◌, refl}
use xraft.Prelude.Exec.{ok}
use xraft.Types.{QuorumState}
use xraft.Node.Traits.{QuorumStateStore, Io}

unfoldable pub load : Option QuorumState → Io (Option QuorumState)
load s = ok s

unfoldable pub save : QuorumState → Option QuorumState → Io (Unit {0}) × Option QuorumState
save state s = (ok tt, some state)

-- The trait that the node uses, implemented.
abbrev pub memory_quorum_state_store : QuorumStateStore
memory_quorum_state_store = record { Quorum = Option QuorumState; load = load; save = save }

-- what a save wrote is what a load returns
pub load-save :
    (state : QuorumState) (s : Option QuorumState) → load (save state s).1 ≡ ok (some state)
unfolding load save
load-save state s = refl
