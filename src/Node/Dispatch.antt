-- ===== src/Node/Dispatch.antt =====
-- The driving methods of xraft-core/src/raft_node.rs: `handle_rpc`, `tick`, `poll` and `step`.
use xraft.Prelude.{Bool, not, ◌&&◌, ◌||◌, leb, ◌==◌, if◌then◌else◌}
use xraft.Prelude.Exec.{ok, err, pure, raise, ◌>>=◌, ◌>>◌}
use xraft.Types.{NodeId, is_nil}
use xraft.Types.Rpc.{RpcEnvelope, RpcPayload, VoteResponse}
use xraft.Node.Traits.{Traits, Io, ErrorKind, transport_error, invalid_cluster_id}
use xraft.Node.State.{RaftNode, Method}
use xraft.Node.Election.{
  can_start_election, handle_vote_request, handle_vote_response, handle_election_timeout,
}

module _ {T : Traits} where
  abbrev sent : Io (Unit {0}) → Method T (Unit {0})
  sent (ok done) n = (ok done, n)
  sent (err e) n = (err (transport_error e), n)

  unfoldable pub send_reply : NodeId → VoteResponse → Method T (Unit {0})
  send_reply to response n =
      let envelope : RpcEnvelope = record {
        cluster_id = n.state.cluster_id;
        leader_epoch = 0;
        source = n.state.node_id;
        payload = RpcPayload.vote_response response;
      } in
      let (r, out) = T.net.send to envelope n.outbox in sent r (record n { outbox = out })

  unfoldable pub dispatch : NodeId → RpcPayload → Method T (Unit {0})
  dispatch source (RpcPayload.vote_request request) = do
    response ← handle_vote_request request
    send_reply source response
  dispatch source (RpcPayload.vote_response response) = handle_vote_response source response
  dispatch source _ = pure tt

  -- a message of another cluster, or of none, once the node belongs to one
  abbrev pub is_foreign : RpcEnvelope → RaftNode T → Bool
  is_foreign envelope n =
      n.bootstrapped
      && not (is_nil n.state.cluster_id)
      && (is_nil envelope.cluster_id || not (n.state.cluster_id == envelope.cluster_id))

  unfoldable pub handle_rpc : RpcEnvelope → Method T (Unit {0})
  handle_rpc envelope n =
      (if is_foreign envelope n
          then raise invalid_cluster_id
          else dispatch envelope.source envelope.payload)
        n

  unfoldable pub tick : Method T (Unit {0})
  tick n =
      let (now, c) = T.clocks.now n.clock in
      let n' : RaftNode T = record n { clock = c } in
      (if can_start_election n.state.role && leb n.state.election_deadline now
          then handle_election_timeout
          else pure tt)
        n'

  unfoldable pub poll : Method T (Unit {0})
  poll n =
      (if can_start_election n.state.role
          then (λ m.
              handle_election_timeout
                (record m { clock = T.clocks.sleep_until m.state.election_deadline m.clock }))
          else pure tt)
        n

  abbrev pub received : Io RpcEnvelope → Method T (Unit {0})
  received (ok envelope) n = handle_rpc envelope n
  received (err ErrorKind.other) n = (err (transport_error ErrorKind.other), n)
  received (err e) n = (ok tt, n)

  unfoldable pub receive : Method T (Unit {0})
  receive n = let (r, i) = T.net.recv n.inbox in received r (record n { inbox = i })

  unfoldable pub step : Method T (Unit {0})
  step = do tick; receive
