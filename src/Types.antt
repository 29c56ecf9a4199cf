-- ===== src/Types.antt =====
-- The data that the components exchange: xraft-core/src/{consensus_state,voter,log_entry,
-- follower_progress,node_state,quorum_state,snapshot,app_record,listener}.rs. `NodeId`, `Term` and
-- `Offset` are the `u64` that they wrap. `ClusterId` is the 128-bit value of its UUID. An `Instant` is
-- a number of ticks since the clock's start. Bytes are numbers.
pub mod Rpc
use xraft.Prelude.{ℕ, ◌==◌, Bool, String, Option, none, List, [], any}

abbrev pub NodeId : Type 0
NodeId = ℕ

abbrev pub Term : Type 0
Term = ℕ

abbrev pub ClusterId : Type 0
ClusterId = ℕ

abbrev pub Instant : Type 0
Instant = ℕ

abbrev pub Bytes : Type 0
Bytes = List ℕ

-- `cluster_id.0.is_nil()`
abbrev pub is_nil : ClusterId → Bool
is_nil c = c == 0

pub data Role : Type 0 where
  unattached follower candidate leader : Role

pub record VoterInfo : Type 0 where
  pub node_id : NodeId
  pub endpoint : String

pub record VotersRecord : Type 0 where
  pub version : ℕ
  pub voters : List VoterInfo

pub data EntryType : Type 0 where
  command leader_change_message voters_record : EntryType

pub record LogEntry : Type 0 where
  pub offset : ℕ
  pub term : Term
  pub entry_type : EntryType
  pub payload : Bytes

pub record FollowerProgress : Type 0 where
  pub node_id : NodeId
  pub fetch_offset : ℕ
  pub last_fetch_timestamp : Instant
  pub is_voter : Bool

pub record PendingMembershipChange : Type 0 where
  pub offset : ℕ
  pub voters : List VoterInfo

-- The vote that survives a crash, with the cluster's identity, as the node writes it.
pub record QuorumState : Type 0 where
  pub current_term : Term
  pub voted_for : Option NodeId
  pub leader_id : Option NodeId
  pub leader_epoch : Term
  pub cluster_id : ClusterId

pub record SnapshotMetadata : Type 0 where
  pub last_included_offset : ℕ
  pub last_included_term : ℕ
  pub voters : List VoterInfo
  pub leader_epoch : ℕ

pub record Snapshot : Type 0 where
  pub metadata : SnapshotMetadata
  pub app_snapshot : Bytes

-- `HashSet`s are lists without repetitions, `HashMap`s association lists.
pub record NodeState : Type 0 where
  pub node_id : NodeId
  pub cluster_id : ClusterId
  pub current_term : Term
  pub voted_for : Option NodeId
  pub role : Role
  pub leader_id : Option NodeId
  pub log_start_offset : ℕ
  pub log_end_offset : ℕ
  pub high_watermark : ℕ
  pub voter_set : List VoterInfo
  pub observers : List NodeId
  pub pending_membership_change : Option PendingMembershipChange
  pub follower_state : List (NodeId × FollowerProgress)
  pub election_deadline : Instant
  pub votes_received : List NodeId
  pub pre_votes_received : List NodeId
  pub check_quorum_deadline : Instant

-- `NodeState::new_unattached`, at the instant `now`.
abbrev pub new_unattached : NodeId → Instant → NodeState
new_unattached node_id now = record {
  node_id = node_id;
  cluster_id = 0;
  current_term = 0;
  voted_for = none;
  role = Role.unattached;
  leader_id = none;
  log_start_offset = 0;
  log_end_offset = 0;
  high_watermark = 0;
  voter_set = [];
  observers = [];
  pending_membership_change = none;
  follower_state = [];
  election_deadline = now;
  votes_received = [];
  pre_votes_received = [];
  check_quorum_deadline = now;
}

pub record ConsensusState : Type 0 where
  pub node_id : NodeId
  pub current_term : Term
  pub role : Role
  pub leader_id : Option NodeId
  pub log_end_offset : ℕ
  pub high_watermark : ℕ
  pub voter_set : List VoterInfo

-- `NodeState::project`
abbrev pub project : NodeState → ConsensusState
project s = record {
  node_id = s.node_id;
  current_term = s.current_term;
  role = s.role;
  leader_id = s.leader_id;
  log_end_offset = s.log_end_offset;
  high_watermark = s.high_watermark;
  voter_set = s.voter_set;
}

-- `voter_set.iter().any(|v| v.node_id == id)`
abbrev pub is_voter : NodeId → List VoterInfo → Bool
is_voter id = any (λ v. v.node_id == id)
