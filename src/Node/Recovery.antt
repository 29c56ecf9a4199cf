-- ===== src/Node/Recovery.antt =====
-- Restart of a node: `new` and `recover` of xraft-core/src/raft_node.rs, on the stores that it left.
use xraft.Prelude.{◌≤◌, ◌≡◌, ◌∙◌, ap, sym, true, false, none, some, [], arith, inl, inr}
use xraft.Prelude.Exec.{ok, err, Result-cases}
use xraft.Types.{Instant, Role, QuorumState, new_unattached}
use xraft.Types.Rpc.{VoteRequest, VoteResponse}
use xraft.Node.Traits.{Traits, ErrorKind, storage_error}
use xraft.Node.State.{RaftNode, reset_election_timer}
use xraft.Node.Election.{handle_vote_request}
use xraft.Node.Startup.{has_existing_data, recover, new}
use xraft.Node.Stored.{IsStored}
use xraft.Node.Ballot.{granted_vote_is_durable}

module _ {T : Traits} where
  recover-ok :
      (n : RaftNode T) (qs : QuorumState)
      → T.quorums.load n.quorum_state_store ≡ ok (some qs)
      → (recover n).0 ≡ ok tt
      → let m = (recover n).1 in
        (m.state.current_term ≡ qs.current_term)
        × (m.state.voted_for ≡ qs.voted_for)
        × (m.state.cluster_id ≡ qs.cluster_id)
        × (m.state.role ≡ Role.follower)
        × (m.bootstrapped ≡ true)
        × (T.logs.log_end_offset n.log_store ≤ m.state.log_end_offset)
        × (T.logs.log_start_offset n.log_store ≤ m.state.log_start_offset)
  unfolding recover reset_election_timer
  recover-ok n qs h k = ground arith

  -- whatever else fails in a recovery, the term and the vote are restored first
  recover-restores :
      (n : RaftNode T) (qs : QuorumState)
      → T.quorums.load n.quorum_state_store ≡ ok (some qs)
      → let m = (recover n).1 in
        (m.state.current_term ≡ qs.current_term) × (m.state.voted_for ≡ qs.voted_for)
  unfolding recover reset_election_timer
  recover-restores n qs h = ground arith

  -- A node that is made anew on a store with a quorum state has that term and that vote.
  pub new-restores :
      (now : Instant) (parts m : RaftNode T) (qs : QuorumState)
      → T.quorums.load parts.quorum_state_store ≡ ok (some qs)
      → new now parts ≡ ok m
      → (m.state.current_term ≡ qs.current_term)
        × (m.state.voted_for ≡ qs.voted_for)
        × (m.bootstrapped ≡ true)
  unfolding new has_existing_data
  new-restores now parts m qs h made =
      let fresh : RaftNode T = record parts {
        state = new_unattached parts.config.node_id now;
        bootstrapped = false;
      } in
      ground (arith, recover-restores fresh qs h, recover-ok fresh qs h)

  -- a recovery sends nothing, saves nothing and counts no vote
  recover-quiet :
      (n : RaftNode T)
      → let m = (recover n).1 in
        (m.state.node_id ≡ n.state.node_id)
        × (m.state.votes_received ≡ n.state.votes_received)
        × (m.outbox ≡ n.outbox)
        × (m.quorum_state_store ≡ n.quorum_state_store)
  unfolding recover reset_election_timer
  recover-quiet n = ground arith

  recover-none :
      (n : RaftNode T)
      → T.quorums.load n.quorum_state_store ≡ ok none
      → let m = (recover n).1 in
        (m.state.current_term ≡ n.state.current_term) × (m.state.voted_for ≡ n.state.voted_for)
  unfolding recover reset_election_timer
  recover-none n h = ground arith

  recover-err :
      (n : RaftNode T) (e : ErrorKind)
      → T.quorums.load n.quorum_state_store ≡ err e
      → (recover n).0 ≡ err (storage_error e)
  unfolding recover
  recover-err n e h = ground arith

  -- a node that is made anew has its own id, no votes, and the outbox and the store that it was given
  pub new-quiet :
      (now : Instant) (parts m : RaftNode T)
      → new now parts ≡ ok m
      → (m.state.node_id ≡ parts.config.node_id)
        × (m.state.votes_received ≡ [])
        × (m.outbox ≡ parts.outbox)
        × (m.quorum_state_store ≡ parts.quorum_state_store)
  unfolding new
  new-quiet now parts m made =
      let fresh : RaftNode T = record parts {
        state = new_unattached parts.config.node_id now;
        bootstrapped = false;
      } in
      ground (arith, recover-quiet fresh)

  new-none :
      (now : Instant) (parts m : RaftNode T)
      → T.quorums.load parts.quorum_state_store ≡ ok none
      → new now parts ≡ ok m
      → (m.state.current_term ≡ 0) × (m.state.voted_for ≡ none)
  unfolding new
  new-none now parts m h made =
      let fresh : RaftNode T = record parts {
        state = new_unattached parts.config.node_id now;
        bootstrapped = false;
      } in
      ground (arith, recover-none fresh h)

  new-err :
      (now : Instant) (parts m : RaftNode T) (e : ErrorKind)
      → T.quorums.load parts.quorum_state_store ≡ err e
      → new now parts ≡ ok m
      → ⊥
  unfolding new has_existing_data
  new-err now parts m e h made =
      let fresh : RaftNode T = record parts {
        state = new_unattached parts.config.node_id now;
        bootstrapped = false;
      } in
      ground (arith, recover-err fresh e h)

  -- its term and its vote are what is stored
  pub new-IsStored : (now : Instant) (parts m : RaftNode T) → new now parts ≡ ok m → IsStored m
  new-IsStored now parts m made =
      let (_, _, _, kept) = new-quiet now parts m made in
      (
        λ qs h.
            let (t, v, _) = new-restores now parts m qs (ap T.quorums.load (sym kept) ∙ h) made in
            (sym t, sym v),
        λ h. new-none now parts m (ap T.quorums.load (sym kept) ∙ h) made,
      )

  -- and so the node goes on in the term and with the vote of the one before it, if those were stored
  pub restart-same :
      (now : Instant) (n parts m : RaftNode T)
      → IsStored n
      → parts.quorum_state_store ≡ n.quorum_state_store
      → new now parts ≡ ok m
      → (m.state.current_term ≡ n.state.current_term) × (m.state.voted_for ≡ n.state.voted_for)
  restart-same now n parts m (found, missing) left made =
      elim (Result-cases (T.quorums.load parts.quorum_state_store)) [
        | inr (e, h) ↦ absurd (new-err now parts m e h made)
        | inl (none, h) ↦
            let (t, v) = missing (ap T.quorums.load (sym left) ∙ h) in
            let (t', v') = new-none now parts m h made in (t' ∙ sym t, v' ∙ sym v)
        | inl (some qs, h) ↦
            let (t, v) = found qs (ap T.quorums.load (sym left) ∙ h) in
            let (t', v', _) = new-restores now parts m qs h made in (t' ∙ t, v' ∙ v)
      ]

  -- If what a successful save wrote is what a load returns, then a granted, real vote survives a crash:
  -- a node that is made anew on the quorum state store that the handler left behind, with whatever log
  -- and snapshots, is in the term of the reply, has voted for the candidate, and counts as bootstrapped.
  pub granted_vote_survives_restart :
      ((qs : QuorumState) (q : T.quorums.Quorum)
        → (T.quorums.save qs q).0 ≡ ok tt
        → T.quorums.load (T.quorums.save qs q).1 ≡ ok (some qs))
      → (r : VoteRequest) (n : RaftNode T) (resp : VoteResponse)
      → (handle_vote_request r n).0 ≡ ok resp
      → resp.vote_granted ≡ true
      → r.is_pre_vote ≡ false
      → (now : Instant) (parts m : RaftNode T)
      → parts.quorum_state_store ≡ (handle_vote_request r n).1.quorum_state_store
      → new now parts ≡ ok m
      → (m.state.current_term ≡ resp.term)
        × (m.state.voted_for ≡ some r.candidate_id)
        × (m.bootstrapped ≡ true)
  granted_vote_survives_restart law r n resp h g p now parts m left made =
      let (qs, loaded, t, v) = granted_vote_is_durable law r n resp h g p in
      let (a, b, c) = new-restores now parts m qs (ap T.quorums.load left ∙ loaded) made in
      (a ∙ t, b ∙ v, c)
