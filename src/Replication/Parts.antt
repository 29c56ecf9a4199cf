-- ===== src/Replication/Parts.antt =====
-- What the follower's replication is given: the trait objects, and the methods of its state that keep the
-- log in memory, which the repository uses and does not define.
use xraft.Prelude.{ℕ, Bool, Option, List}
use xraft.Prelude.Exec.{Exec}
use xraft.Types.{NodeId, Term, Instant, Bytes, LogEntry, NodeState, VotersRecord, Snapshot}
use xraft.Types.Rpc.{RpcEnvelope, SnapshotId}
use xraft.Node.Traits.{Clock}
use xraft.Completion.{DeferredCompletionQueue}

-- xraft-core/src/quorum_state.rs
pub record QuorumState : Type 0 where
  pub current_term : Term
  pub voted_for : Option NodeId
  pub leader_id : Option NodeId
  pub leader_epoch : Term

-- xraft-core/src/io_action.rs
pub data IoAction : Type 0 where
  persist_quorum_state : QuorumState → IoAction
  append_log : List LogEntry → IoAction
  truncate_suffix truncate_prefix : ℕ → IoAction
  save_snapshot : Snapshot → IoAction
  send_rpc : NodeId → RpcEnvelope → IoAction

pub data InvalidResponse : Type 0 where
  stale_epoch not_follower wrong_leader conflicting_fields below_high_watermark first_offset
        not_contiguous wrong_source not_handled bad_voters_record :
      InvalidResponse

pub data ReplicationError : Type 0 where
  invalid_response : InvalidResponse → ReplicationError
  invalid_cluster_id state_machine_apply_error : ReplicationError

-- `apply` says whether it succeeded.
pub record Parts : Type 1 where
  pub Log : Type 0
  pub append_entries : List LogEntry → Log → Log
  pub truncate_log : ℕ → Log → Log
  pub entries_in_range : ℕ → ℕ → Log → List LogEntry
  pub log_end_offset : Log → ℕ
  pub last_log_term : Log → Term
  pub clocks : Clock
  pub Machine : Type 0
  pub apply : ℕ → Bytes → Machine → Bool × Machine
  pub Ear : Type 0
  pub handle_commit : List (ℕ × Bytes) → Ear → Ear
  pub begin_shutdown : Ear → Ear
  pub Coordinator : Type 0
  pub begin_snapshot_transfer :
      NodeId → SnapshotId → NodeState → Coordinator → List IoAction × Coordinator
  pub is_transfer_in_progress : Coordinator → Bool
  pub deserialize : Bytes → Option VotersRecord

-- `ReplicationManager`, and the objects that its methods are handed. The end of the log in memory is
-- the log's own; the `fetch_deadline` and the checkpoint are fields that only this code uses.
pub record Follower (P : Parts) : Type 0 where
  pub max_fetch_bytes : ℕ
  pub fetch_interval : ℕ
  pub state : NodeState
  pub log : P.Log
  pub fetch_deadline : Instant
  pub leader_epoch_checkpoint : List (Term × ℕ)
  pub state_machine : P.Machine
  pub listener : P.Ear
  pub completion_queue : DeferredCompletionQueue
  pub snapshot_coordinator : P.Coordinator
  pub clock : P.clocks.Time

pub record FetchResponseResult : Type 0 where
  pub io_batch : List IoAction
  pub snapshot_transfer_initiated : Bool

abbrev pub Handler : Parts → Type 0 → Type 0
Handler P A = Exec (Follower P) ReplicationError A
