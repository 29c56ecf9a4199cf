-- ===== src/Node/Traits.antt =====
-- What a node is given: the trait objects of xraft-core/src/traits.rs and the codec of its records.
-- They are implemented elsewhere (storage, network, clock, application), so they are parameters. A
-- trait object has a state of its own; a method that returns an error may have changed it.
use xraft.Prelude.{ℕ, Option, List}
use xraft.Prelude.Exec.{Result}
use xraft.Config.{ConfigError}
use xraft.Types.{NodeId, Term, Instant, Bytes, LogEntry, QuorumState, Snapshot, VotersRecord, Role}
use xraft.Types.Rpc.{RpcEnvelope}

-- The kinds of `std::io::Error` that the code tells apart.
pub data ErrorKind : Type 0 where
  would_block timed_out other : ErrorKind

pub data BootstrapFault : Type 0 where
  nil_cluster_id empty_voters self_missing : BootstrapFault
  duplicate_node_id : NodeId → BootstrapFault

pub data BootstrappedReason : Type 0 where
  already_done not_unattached existing_data : BootstrappedReason

-- The errors that a node raises. The texts of the messages are data here.
pub data XraftError : Type 0 where
  invalid_config : ConfigError → XraftError
  recovery_required : XraftError
  already_bootstrapped : BootstrappedReason → XraftError
  invalid_bootstrap_config : BootstrapFault → XraftError
  invalid_cluster_id : XraftError
  invalid_election_state : Role → XraftError
  transport_error : ErrorKind → XraftError
  storage_error : ErrorKind → XraftError

abbrev pub Io : Type 0 → Type 0
Io = Result ErrorKind

pub record LogStore : Type 1 where
  pub Log : Type 0
  pub append : List LogEntry → Log → Io (Unit {0}) × Log
  pub read : ℕ → ℕ → Log → Io (List LogEntry)
  pub truncate_suffix : ℕ → Log → Io (Unit {0}) × Log
  pub log_start_offset : Log → ℕ
  pub log_end_offset : Log → ℕ
  pub entry_at : ℕ → Log → Io (Option LogEntry)

pub record QuorumStateStore : Type 1 where
  pub Quorum : Type 0
  pub load : Quorum → Io (Option QuorumState)
  pub save : QuorumState → Quorum → Io (Unit {0}) × Quorum

pub record Clock : Type 1 where
  pub Time : Type 0
  pub now : Time → Instant × Time
  pub sleep_until : Instant → Time → Time
  pub random_election_timeout : Time → ℕ × Time

pub record Transport : Type 1 where
  pub Outbox : Type 0
  pub send : NodeId → RpcEnvelope → Outbox → Io (Unit {0}) × Outbox
  pub Inbox : Type 0
  pub recv : Inbox → Io RpcEnvelope × Inbox

-- The snapshot store, the state machine, the listener, and `bincode` on a `VotersRecord`.
pub record Application : Type 1 where
  pub Snapshots : Type 0
  pub load_latest : Snapshots → Io (Option Snapshot)
  pub Machine : Type 0
  pub restore : Bytes → Machine → Result XraftError (Unit {0}) × Machine
  pub Ear : Type 0
  pub handle_leader_change : NodeId → Term → Ear → Ear
  pub serialize : VotersRecord → Io Bytes
  pub deserialize : Bytes → Option VotersRecord

pub record Traits : Type 1 where
  pub logs : LogStore
  pub quorums : QuorumStateStore
  pub clocks : Clock
  pub net : Transport
  pub app : Application
