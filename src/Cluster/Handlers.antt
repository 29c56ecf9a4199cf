-- ===== src/Cluster/Handlers.antt =====
-- What a node of xraft-core/src/raft_node.rs counts and sends, event by event, for a given history of
-- who voted for whom.
use xraft.Prelude.{
  ◌≡◌, refl, sym, ◌∙◌, ap, ◌&&◌, true, false, some, List, arith, Bool-cases, inl, inr, leb,
}
use xraft.Prelude.Exec.{ok, err, Result-cases}
use xraft.Types.{NodeId, VoterInfo, NodeState}
use xraft.Types.Rpc.{VoteRequest, VoteResponse, RpcEnvelope, RpcPayload}
use xraft.Node.Traits.{Traits, Io, ErrorKind}
use xraft.Node.State.{RaftNode}
use xraft.Node.Election.{can_start_election, handle_vote_request}
use xraft.Node.Dispatch.{
  received, is_foreign, send_reply, dispatch, handle_rpc, tick, poll, receive,
}
use xraft.Node.Runs.{send_reply-state}
use xraft.Node.Ballot.{vote_request-records}
use xraft.Cluster.{Network}
use xraft.Cluster.Calm.{vote_request-Calm, vote_request-pre_vote}
use xraft.Cluster.Honest.{History, Says, IsHonest, Good, Own, send-honest}
use xraft.Cluster.Campaigns.{Calm-Good, vote_response-Good, election_timeout-Good}

module _ {T : Traits} where
  abbrev reply_to : VoteResponse → RaftNode T → RpcEnvelope
  reply_to resp n = record {
    cluster_id = n.state.cluster_id;
    leader_epoch = 0;
    source = n.state.node_id;
    payload = RpcPayload.vote_response resp;
  }

  send_reply-eq :
      (to : NodeId) (resp : VoteResponse) (n : RaftNode T)
      → (send_reply to resp n).1
        ≡ record n { outbox = (T.net.send to (reply_to resp n) n.outbox).1 }
  unfolding send_reply
  send_reply-eq to resp n = ground arith

module _ {T : Traits} {W : Network T.net} {H : History} {i : NodeId} {ws : List VoterInfo} where
  reply-Good :
      (source : NodeId) (resp : VoteResponse) (n : RaftNode T)
      → (resp.vote_granted ≡ true → resp.is_pre_vote ≡ false → H i resp.term ≡ some source)
      → Good W H i ws n
      → Good W H i ws (send_reply source resp n).1
  reply-Good source resp n h g = rw (send_reply-eq source resp n) (record {
    self = g.self;
    voters = g.voters;
    supported = g.supported;
    honest = send-honest W H source (reply_to resp n) n.outbox (rw g.self h) g.honest;
  })

  -- a request that names its sender is answered honestly
  vote_request-Good :
      (source : NodeId) (r : VoteRequest) (n : RaftNode T)
      → r.candidate_id ≡ source
      → Good W H i ws n
      → Own H i (dispatch source (RpcPayload.vote_request r) n).1
      → Good W H i ws (dispatch source (RpcPayload.vote_request r) n).1
  unfolding dispatch
  vote_request-Good source r n asks g own = elim (Result-cases (handle_vote_request r n).0) [
    | inr (e, failed) ↦ rw failed (Calm-Good n _ (vote_request-Calm r n) g)
    | inl (resp, answered) ↦
        let m = (handle_vote_request r n).1 in
        let own' = rw answered at own in
        rw answered (
          reply-Good source resp m
            (λ granted real.
              let (voted, term, same, _) =
                vote_request-records r n resp answered granted
                  (sym (vote_request-pre_vote r n resp answered) ∙ real) in
              let sent = send_reply-state source resp m in
              ap (H i) (same ∙ sym term ∙ sym (ap (λ (s : NodeState). s.current_term) sent))
              ∙ own' source (ap (λ (s : NodeState). s.voted_for) sent ∙ voted ∙ ap some asks))
            (Calm-Good n m (vote_request-Calm r n) g))
  ]

  dispatch-Good :
      (source : NodeId) (p : RpcPayload) (n : RaftNode T)
      → Says H i source p
      → Good W H i ws n
      → Own H i (dispatch source p n).1
      → Good W H i ws (dispatch source p n).1
  unfolding dispatch
  dispatch-Good source (RpcPayload.vote_request r) n h g own = vote_request-Good source r n h g own
  dispatch-Good source (RpcPayload.vote_response r) n h g own = vote_response-Good source r n h g
  dispatch-Good source _ n h g own = g

  pub rpc-Good :
      (e : RpcEnvelope) (n : RaftNode T)
      → IsHonest H i e
      → Good W H i ws n
      → Own H i (handle_rpc e n).1
      → Good W H i ws (handle_rpc e n).1
  unfolding handle_rpc
  rpc-Good e n h g own = elim (Bool-cases (is_foreign e n)) [
    | inl f ↦ rw f g
    | inr f ↦ rw f (dispatch-Good e.source e.payload n h g (rw f at own))
  ]

  with_clock-Good :
      (n : RaftNode T) (c : T.clocks.Time)
      → Good W H i ws n
      → Good W H i ws (record n { clock = c })
  with_clock-Good n c g = record {
    self = g.self;
    voters = g.voters;
    supported = g.supported;
    honest = g.honest;
  }

  pub tick-Good : (n : RaftNode T) → Good W H i ws n → Own H i (tick n).1 → Good W H i ws (tick n).1
  unfolding tick
  tick-Good n g own =
      let n' : RaftNode T = record n { clock = (T.clocks.now n.clock).1 } in
      let g' = with_clock-Good n (T.clocks.now n.clock).1 g in
      elim (Bool-cases (
        can_start_election n.state.role
        && leb n.state.election_deadline (T.clocks.now n.clock).0)) [
          | inl e ↦ rw e (election_timeout-Good n' g' (rw e at own))
          | inr e ↦ rw e g'
        ]

  pub poll-Good : (n : RaftNode T) → Good W H i ws n → Own H i (poll n).1 → Good W H i ws (poll n).1
  unfolding poll
  poll-Good n g own =
      let c = T.clocks.sleep_until n.state.election_deadline n.clock in
      elim (Bool-cases (can_start_election n.state.role)) [
        | inl e ↦
            rw e
              (election_timeout-Good (record n { clock = c }) (with_clock-Good n c g) (rw e at own))
        | inr e ↦ rw e g
      ]

  received-Good :
      (r : Io RpcEnvelope) (n : RaftNode T)
      → ((e : RpcEnvelope) → r ≡ ok e → IsHonest H i e)
      → Good W H i ws n
      → Own H i (received r n).1
      → Good W H i ws (received r n).1
  received-Good (ok e) n h g own = rpc-Good e n (h e refl) g own
  received-Good (err ErrorKind.other) n h g own = g
  received-Good (err _) n h g own = g

  pub receive-Good :
      (n : RaftNode T)
      → ((e : RpcEnvelope) → (T.net.recv n.inbox).0 ≡ ok e → IsHonest H i e)
      → Good W H i ws n
      → Own H i (receive n).1
      → Good W H i ws (receive n).1
  unfolding receive
  receive-Good n h g own =
      let (r, inbox) = T.net.recv n.inbox in
      received-Good r (record n { inbox = inbox }) h
        (record { self = g.self; voters = g.voters; supported = g.supported; honest = g.honest })
        own
