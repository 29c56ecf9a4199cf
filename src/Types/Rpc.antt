-- ===== src/Types/Rpc.antt =====
-- xraft-core/src/rpc.rs: the envelope and every message in it.
use xraft.Prelude.{ℕ, Bool, Option, List}
use xraft.Types.{NodeId, Term, ClusterId, Bytes, VoterInfo, LogEntry}

pub record VoteRequest : Type 0 where
  pub term : Term
  pub candidate_id : NodeId
  pub last_log_offset : ℕ
  pub last_log_term : Term
  pub is_pre_vote : Bool

pub record VoteResponse : Type 0 where
  pub term : Term
  pub vote_granted : Bool
  pub is_pre_vote : Bool

pub record FetchRequest : Type 0 where
  pub replica_id : NodeId
  pub fetch_offset : ℕ
  pub last_fetched_epoch : Term
  pub max_bytes : ℕ

pub record DivergingEpoch : Type 0 where
  pub epoch : Term
  pub end_offset : ℕ

pub record SnapshotId : Type 0 where
  pub end_offset : ℕ
  pub epoch : Term

pub record FetchResponse : Type 0 where
  pub leader_id : NodeId
  pub leader_epoch : Term
  pub high_watermark : ℕ
  pub log_start_offset : ℕ
  pub entries : List LogEntry
  pub diverging_epoch : Option DivergingEpoch
  pub snapshot_id : Option SnapshotId

pub record FetchSnapshotRequest : Type 0 where
  pub snapshot_id : SnapshotId
  pub position : ℕ
  pub max_bytes : ℕ

pub record FetchSnapshotResponse : Type 0 where
  pub content : Bytes
  pub position : ℕ
  pub is_last_chunk : Bool

pub data MembershipError : Type 0 where
  not_leader : Option NodeId → MembershipError
  change_in_progress node_already_voter node_not_found node_not_caught_up : MembershipError

pub data RpcPayload : Type 0 where
  vote_request : VoteRequest → RpcPayload
  vote_response : VoteResponse → RpcPayload
  fetch_request : FetchRequest → RpcPayload
  fetch_response : FetchResponse → RpcPayload
  fetch_snapshot_request : FetchSnapshotRequest → RpcPayload
  fetch_snapshot_response : FetchSnapshotResponse → RpcPayload
  add_voter_request : VoterInfo → RpcPayload
  remove_voter_request : NodeId → RpcPayload
  update_voter_request : VoterInfo → RpcPayload
  membership_change_response : Bool → Option MembershipError → RpcPayload

pub record RpcEnvelope : Type 0 where
  pub cluster_id : ClusterId
  pub leader_epoch : Term
  pub source : NodeId
  pub payload : RpcPayload
