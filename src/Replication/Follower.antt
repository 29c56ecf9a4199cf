-- ===== src/Replication/Follower.antt =====
-- The timers and the requests of xraft-core/src/replication.rs.
use xraft.Prelude.{
  ℕ, ◌+◌, ◌-◌, Bool, true, false, not, ◌&&◌, Option, none, some, List, [], ◌∷◌, leb, if◌then◌else◌,
}
use xraft.Prelude.Exec.{ok}
use xraft.Types.{NodeId, Instant, NodeState, Role}
use xraft.Types.Rpc.{RpcEnvelope, RpcPayload, FetchRequest, SnapshotId}
use xraft.Replication.Parts.{Parts, Follower, Handler, IoAction}

abbrev pub is_follower : Role → Bool
is_follower Role.follower = true
is_follower _ = false

-- `if let Some((leader_id, envelope)) = ... { batch.push(SendRpc(..)) }`
abbrev pub sends : Option (NodeId × RpcEnvelope) → List IoAction
sends none = []
sends (some (leader_id, envelope)) = IoAction.send_rpc leader_id envelope ∷ []

abbrev or_empty : Option (List IoAction) → List IoAction
or_empty none = []
or_empty (some batch) = batch

module _ {P : Parts} where
  abbrev pub modify : (NodeState → NodeState) → Handler P (Unit {0})
  modify g f = (ok tt, record f { state = g f.state })

  abbrev request_to : Option NodeId → Follower P → Option (NodeId × RpcEnvelope)
  request_to none f = none
  request_to (some leader_id) f =
      let request : FetchRequest = record {
        replica_id = f.state.node_id;
        fetch_offset = P.log_end_offset f.log;
        last_fetched_epoch = P.last_log_term f.log;
        max_bytes = f.max_fetch_bytes;
      } in
      let envelope : RpcEnvelope = record {
        cluster_id = f.state.cluster_id;
        leader_epoch = f.state.current_term;
        source = f.state.node_id;
        payload = RpcPayload.fetch_request request;
      } in
      if not (is_follower f.state.role) then none else some (leader_id, envelope)

  unfoldable pub build_fetch_request : Follower P → Option (NodeId × RpcEnvelope)
  build_fetch_request f = request_to f.state.leader_id f

  unfoldable pub on_fetch_tick : Instant → Follower P → List IoAction × Follower P
  on_fetch_tick now f =
      let f' : Follower P = record f { fetch_deadline = now + f.fetch_interval } in
      (sends (build_fetch_request f'), f')

  unfoldable pub poll_fetch : Instant → Follower P → Option (List IoAction) × Follower P
  poll_fetch now f =
      if leb f.fetch_deadline now && is_follower f.state.role
      then (some (on_fetch_tick now f).0, (on_fetch_tick now f).1)
      else (none, f)

  unfoldable pub time_until_fetch : Instant → Follower P → ℕ
  time_until_fetch now f = if leb f.fetch_deadline now then 0 else f.fetch_deadline - now

  -- `RaftNode::tick` and `FollowerEventLoop::run_tick`
  unfoldable pub run_tick : Follower P → List IoAction × Follower P
  run_tick f =
      let (now, c) = P.clocks.now f.clock in
      let (batch, f') = poll_fetch now (record f { clock = c }) in (or_empty batch, f')

  -- the election timer by the clock's random timeout, drawn after `now`
  unfoldable pub reset_timers : Handler P (Unit {0})
  reset_timers f =
      let (now, c) = P.clocks.now f.clock in
      let (timeout, c') = P.clocks.random_election_timeout c in
      (
        ok tt,
        record f {
          state = record f.state { election_deadline = now + timeout };
          fetch_deadline = now + f.fetch_interval;
          clock = c';
        },
      )

-- `DefaultSnapshotCoordinator`
pub record DefaultSnapshotCoordinator : Type 0 where
  pub in_progress : Bool
  pub max_fetch_bytes : ℕ

unfoldable pub begin_snapshot_transfer :
    NodeId
    → SnapshotId
    → NodeState
    → DefaultSnapshotCoordinator
    → List IoAction × DefaultSnapshotCoordinator
begin_snapshot_transfer leader_id snapshot_id state c =
    let envelope : RpcEnvelope = record {
      cluster_id = state.cluster_id;
      leader_epoch = state.current_term;
      source = state.node_id;
      payload =
          RpcPayload.fetch_snapshot_request
            (record { snapshot_id = snapshot_id; position = 0; max_bytes = c.max_fetch_bytes });
    } in
    (IoAction.send_rpc leader_id envelope ∷ [], record c { in_progress = true })
