-- ===== src/Node/Settled.antt =====
-- A node of xraft-core/src/raft_node.rs that is no longer unattached, over whole runs.
use xraft.Prelude.{◌≡◌, ◌≢◌, ◌∙◌, ap, sym, some, List, arith, Bool-cases, inl, inr}
use xraft.Prelude.Exec.{err, bind_moves}
use xraft.Prelude.Sets.{insert}
use xraft.Types.{NodeId, NodeState, Role, VoterInfo, ClusterId}
use xraft.Types.Rpc.{VoteRequest, VoteResponse}
use xraft.Node.Traits.{
  Traits, BootstrappedReason, already_bootstrapped, already_done, not_unattached,
}
use xraft.Node.State.{RaftNode, reset_election_timer, save_quorum_state}
use xraft.Node.Election.{
  can_start_election, to_candidate, adopt_term, grant_vote, decide_vote, handle_vote_request,
  handle_vote_response, handle_election_timeout, append_leader_change, append_voters_record,
  take_leadership, become_leader, broadcast_vote_requests, after_self_vote, record_vote,
}
use xraft.Node.Startup.{bootstrap}
use xraft.Node.Formation.{bootstrap-cases}
use xraft.Node.Runs.{Run, Run_rule}

-- an unattached node was unattached before
Stays : NodeState → NodeState → Type 0
Stays s t = t.role ≡ Role.unattached → s.role ≡ Role.unattached

module _ {T : Traits} where
  become_leader-Stays : (n : RaftNode T) → Stays n.state (become_leader n).1.state
  unfolding Stays become_leader append_leader_change append_voters_record take_leadership
  become_leader-Stays n = ground arith

  vote_request-Stays :
      (r : VoteRequest) (n : RaftNode T) → Stays n.state (handle_vote_request r n).1.state
  unfolding Stays handle_vote_request decide_vote adopt_term grant_vote save_quorum_state
      reset_election_timer
  vote_request-Stays r n = ground arith

  record_vote-Stays : (from : NodeId) (n : RaftNode T) → Stays n.state (record_vote from n).1.state
  unfolding Stays record_vote
  record_vote-Stays from n = ground (
    arith,
    become_leader-Stays (record n {
      state = record n.state { votes_received = insert from n.state.votes_received };
    }),
  )

  vote_response-Stays :
      (from : NodeId) (r : VoteResponse) (n : RaftNode T)
      → Stays n.state (handle_vote_response from r n).1.state
  unfolding Stays handle_vote_response adopt_term save_quorum_state reset_election_timer
  vote_response-Stays from r n = ground (arith, record_vote-Stays from n)

  after_self_vote-Stays : (n : RaftNode T) → Stays n.state (after_self_vote n).1.state
  unfolding Stays after_self_vote broadcast_vote_requests reset_election_timer
  after_self_vote-Stays n = ground (arith, become_leader-Stays n)

  election_timeout-Stays : (n : RaftNode T) → Stays n.state (handle_election_timeout n).1.state
  unfolding Stays handle_election_timeout save_quorum_state
  election_timeout-Stays n h = elim (Bool-cases (can_start_election n.state.role)) [
    | inr e ↦ rw e at h
    | inl e ↦
        let c : RaftNode T = record n { state = to_candidate n.state } in
        let k = rw e at h in
        let candidate : c.state.role ≡ Role.unattached =
          bind_moves (λ a b. Stays a.state b.state) (λ a b d p q u. p (q u))
            (save_quorum_state (some n.state.node_id)) (λ _. after_self_vote) c (λ u. u)
            (λ _ _. after_self_vote-Stays (save_quorum_state (some n.state.node_id) c).1) k in
        absurd (cc candidate)
  ]

  bootstrap-Stays :
      (c : ClusterId) (vs : List VoterInfo) (n : RaftNode T)
      → Stays n.state (bootstrap c vs n).1.state
  unfolding Stays
  bootstrap-Stays c vs n h = elim (bootstrap-cases c vs n) [
    | inl (same, _) ↦ ap (λ (k : RaftNode T). k.state.role) (sym same) ∙ h
    | inr (d, e, was, _, _, _, _, _) ↦ was
  ]

  -- a node that left the unattached role never comes back to it
  Run-Stays : {n m : RaftNode T} → Run n m → Stays n.state m.state
  unfolding Stays
  Run-Stays run =
      Run_rule Stays (λ s h. h) (λ s t u p q h. p (q h)) vote_request-Stays vote_response-Stays
        (λ n _. election_timeout-Stays n) bootstrap-Stays run

  refused :
      (c : ClusterId) (vs : List VoterInfo) (n : RaftNode T)
      → n.state.role ≢ Role.unattached
      → (reason : BootstrappedReason) × (bootstrap c vs n ≡ (err (already_bootstrapped reason), n))
  unfolding bootstrap
  refused c vs n h = elim (Bool-cases n.bootstrapped) [
    | inl b ↦ (already_done, ground arith)
    | inr b ↦ (not_unattached, ground arith)
  ]

  -- and from then on every bootstrap is refused and changes nothing
  pub Run-refused :
      {n m : RaftNode T}
      → Run n m
      → n.state.role ≢ Role.unattached
      → (c : ClusterId) (vs : List VoterInfo)
      → (reason : BootstrappedReason) × (bootstrap c vs m ≡ (err (already_bootstrapped reason), m))
  unfolding Stays
  Run-refused {n} {m} run h c vs = refused c vs m (λ u. h (Run-Stays run u))
