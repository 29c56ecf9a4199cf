-- ===== src/EventLoop/Outcomes.antt =====
-- What the handlers of xraft-core/src/event_loop.rs leave behind, branch by branch.
use xraft.Prelude.{
  ◌+◌, ◌≡◌, refl, ◌⊎◌, ◌≢◌, ==_iff, inl, inr, Bool, true, false, Bool-cases, none, some, List, [],
  ◌∷◌, arith, ◌==◌, last?, last?-end,
}
use xraft.Prelude.Exec.{ok}
use xraft.Types.{NodeId, project}
use xraft.Types.Rpc.{
  RpcEnvelope, RpcPayload, vote_request, vote_response, VoteRequest, VoteResponse,
}
use xraft.Replication.Parts.{IoAction, persist_quorum_state}
use xraft.Election.{Methods, leaderless}
use xraft.EventLoop.{EventLoop, publish, execute, handle_check_quorum}
use xraft.EventLoop.Rpc.{
  step_down, on_vote_request, on_vote_response, on_payload, handle_rpc, message_is_pre_vote,
}

module _ {M : Methods} where
  -- what a pre-vote message may not touch
  abbrev SameButPreVotes : EventLoop M → EventLoop M → Type 0
  SameButPreVotes l m =
      (m.state.node ≡ record l.state.node { pre_votes_received = m.state.node.pre_votes_received })
      × (m.state.last_log_term ≡ l.state.last_log_term)
      × (m.listener ≡ l.listener)
      × (m.clock ≡ l.clock)

  step_down-pre_vote :
      (e : RpcEnvelope) (l : EventLoop M)
      → message_is_pre_vote e.payload ≡ true
      → step_down e l ≡ (false, l, [])
  unfolding step_down
  step_down-pre_vote e l h = ground arith

  on_vote_request-pre_vote :
      (req : VoteRequest) (l : EventLoop M) (batch : List IoAction)
      → req.is_pre_vote ≡ true
      → SameButPreVotes l (on_vote_request req l batch).0
  unfolding on_vote_request
  on_vote_request-pre_vote req l batch h = ground arith

  on_vote_response-pre_vote :
      (source : NodeId) (down : Bool) (resp : VoteResponse) (l : EventLoop M)
      (batch : List IoAction)
      → resp.is_pre_vote ≡ true
      → SameButPreVotes l (on_vote_response source down resp l batch).0
  unfolding on_vote_response
  on_vote_response-pre_vote source down resp l batch h = ground arith

  on_payload-pre_vote :
      (source : NodeId) (p : RpcPayload) (down : Bool) (l : EventLoop M) (batch : List IoAction)
      → message_is_pre_vote p ≡ true
      → SameButPreVotes l (on_payload source p down l batch).0
  unfolding on_payload
  on_payload-pre_vote source (vote_request req) down l batch h =
      on_vote_request-pre_vote req l batch h
  on_payload-pre_vote source (vote_response r) down l batch h =
      on_vote_response-pre_vote source down r l batch h
  on_payload-pre_vote source _ down l batch h = absurd (ground arith)

  -- A pre-vote message, request or reply, whatever term it carries, changes neither the term, the vote, the
  -- role, the votes counted nor the rest of the node's state, except for the pre-votes received, and
  -- reaches neither the listener nor the clock.
  pub pre_vote_changes_nothing :
      (e : RpcEnvelope) (l : EventLoop M)
      → message_is_pre_vote e.payload ≡ true
      → SameButPreVotes l (handle_rpc e l).1
  unfolding handle_rpc execute publish
  pre_vote_changes_nothing e l h = elim (Bool-cases (e.cluster_id == l.state.node.cluster_id)) [
    | inr c ↦ rw c (refl, refl, refl, refl)
    | inl c ↦
        rw c (rw (step_down-pre_vote e l h) (on_payload-pre_vote e.source e.payload false l [] h))
  ]

  -- The check of the quorum, whether its I/O fails or not: where a majority fetched in the interval,
  -- the deadline moves to one interval from now and nothing else of the state changes; where not,
  -- the node follows no leader in its term, its vote stands, and the quorum state persisted, the only
  -- action, has that term and vote.
  pub handle_check_quorum_lem :
      (l : EventLoop M)
      → let now = (M.clocks.now l.clock).0 in
        let timeout = (M.clocks.random_election_timeout (M.clocks.now l.clock).1).0 in
        let s = M.become_follower l.state.node.current_term none (now + timeout) l.state in
        ((M.check_quorum now l.state.check_quorum_interval l.state ≡ true)
          × ((handle_check_quorum l).0 ≡ ok tt)
          × ((handle_check_quorum l).1.state.node
              ≡ record l.state.node { check_quorum_deadline = now + l.state.check_quorum_interval })
          × ((handle_check_quorum l).1.io_stage ≡ l.io_stage))
        ⊎ ((M.check_quorum now l.state.check_quorum_interval l.state ≡ false)
            × ((handle_check_quorum l).1.state.node
                ≡ record s.node { voted_for = l.state.node.voted_for })
            × (((handle_check_quorum l).0, (handle_check_quorum l).1.io_stage)
                ≡ M.execute
                    (persist_quorum_state (leaderless s.node.current_term l.state.node.voted_for)
                      ∷ [])
                    l.io_stage))
  unfolding handle_check_quorum execute publish
  handle_check_quorum_lem l =
      elim (Bool-cases
        (M.check_quorum (M.clocks.now l.clock).0 l.state.check_quorum_interval l.state)) [
          | inl h ↦ inl (h, ground arith, ground arith, ground arith)
          | inr h ↦ inr (h, ground arith, rw h refl)
        ]

  -- A message of another cluster is dropped: nothing changes. For any other message, the state that the
  -- handler leaves is the last one published, also where the I/O that follows fails.
  pub handle_rpc_publishes :
      (e : RpcEnvelope) (l : EventLoop M)
      → ((e.cluster_id ≢ l.state.node.cluster_id) × (handle_rpc e l ≡ (ok tt, l)))
        ⊎ ((e.cluster_id ≡ l.state.node.cluster_id)
            × (last? (handle_rpc e l).1.published ≡ some (project (handle_rpc e l).1.state.node)))
  unfolding handle_rpc execute publish
  handle_rpc_publishes e l =
      let (down, l1, batch1) = step_down e l in
      let (l2, batch2) = on_payload e.source e.payload down l1 batch1 in
      elim (Bool-cases (e.cluster_id == l.state.node.cluster_id)) [
        | inr c ↦ inl (λ q. ground arith, rw c refl)
        | inl c ↦ inr ((==_iff _ _).0 c, rw c (last?-end l2.published (project l2.state.node)))
      ]
