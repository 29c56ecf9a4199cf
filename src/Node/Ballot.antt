-- ===== src/Node/Ballot.antt =====
-- Granting a vote, in `handle_vote_request` of xraft-core/src/raft_node.rs.
use xraft.Prelude.{
  ◌∙◌, sym, ◌≤◌, ◌<◌, ◌≡◌, ◌↔◌, ◌⊎◌, ℕ, refl, true, false, none, some, arith, Bool-cases, inl, inr,
  ltb, ltb→le,
}
use xraft.Prelude.Exec.{bind_ok, ok}
use xraft.Types.{Term, NodeState, is_voter, QuorumState}
use xraft.Types.Rpc.{VoteRequest, VoteResponse}
use xraft.Node.Traits.{Traits}
use xraft.Node.State.{
  RaftNode, reset_election_timer, save_quorum_state, last_log_info, quorum_state,
}
use xraft.Node.Election.{can_vote, adopt_term, grant_vote, decide_vote, handle_vote_request}
use xraft.Node.VoteOnce.{Keeps-trans, IsFresh, vote_request-Keeps}
use xraft.Node.Runs.{Run}
use xraft.Node.Terms.{Run-Keeps}

-- Raft's order on log ends: the later term, and in one term the longer log.
abbrev pub UpToDate : VoteRequest → ℕ × Term → Type 0
UpToDate r last =
    (last.1 < r.last_log_term) ⊎ ((r.last_log_term ≡ last.1) × (last.0 ≤ r.last_log_offset))

-- The vote is free in the request's term: the term is new to the node, or it is the node's own and
-- the node has voted for nobody else.
abbrev pub IsFree : VoteRequest → NodeState → Type 0
IsFree r s =
    (s.current_term < r.term)
    ⊎ ((r.term ≡ s.current_term) × (can_vote s.voted_for r.candidate_id ≡ true))

module _ {T : Traits} where
  -- what a successful decision says, and leaves behind
  decide_vote-ok :
      (r : VoteRequest) (n : RaftNode T) (resp : VoteResponse)
      → (decide_vote r n).0 ≡ ok resp
      → (resp.vote_granted ≡ true) ↔ (
          (n.state.current_term ≤ r.term)
          × (can_vote n.state.voted_for r.candidate_id ≡ true)
          × UpToDate r (last_log_info n))
  unfolding decide_vote grant_vote reset_election_timer save_quorum_state
  decide_vote-ok r n resp h = ground arith

  adopt_term-log : (t : Term) (n : RaftNode T) → last_log_info (adopt_term t n).1 ≡ last_log_info n
  unfolding last_log_info adopt_term reset_election_timer save_quorum_state
  adopt_term-log t n = refl

  adopt_term-term :
      (t : Term) (n : RaftNode T)
      → ((adopt_term t n).1.state.current_term ≡ t) × ((adopt_term t n).1.state.voted_for ≡ none)
  unfolding adopt_term reset_election_timer save_quorum_state
  adopt_term-term t n = (refl, refl)

  -- Whenever `handle_vote_request` returns a reply, the vote is granted exactly when the candidate is
  -- a voter, the vote is free in the request's term, and the candidate's log is up to date.
  pub vote_granted_iff :
      (r : VoteRequest) (n : RaftNode T) (resp : VoteResponse)
      → (handle_vote_request r n).0 ≡ ok resp
      → (resp.vote_granted ≡ true) ↔ (
          (is_voter r.candidate_id n.state.voter_set ≡ true)
          × IsFree r n.state
          × UpToDate r (last_log_info n))
  unfolding handle_vote_request
  vote_granted_iff r n resp h = elim (Bool-cases (is_voter r.candidate_id n.state.voter_set)) [
    | inr v ↦ let h' = rw v at h in ground arith
    | inl v ↦ elim (Bool-cases (ltb n.state.current_term r.term)) [
      | inl newer ↦
          let h' = rw (v, newer) at h in
          let (u, _, decided, _) = bind_ok (adopt_term r.term) (λ _. decide_vote r) n h' in
          ground (
            arith,
            decide_vote-ok r (adopt_term r.term n).1 resp decided,
            adopt_term-term r.term n,
            adopt_term-log r.term n,
          )
      | inr same ↦ let h' = rw (v, same) at h in ground (arith, decide_vote-ok r n resp h')
    ]
  ]

  -- a granted, real vote is recorded, and stored if storing works
  decide_vote-records :
      (r : VoteRequest) (n : RaftNode T) (resp : VoteResponse)
      → (decide_vote r n).0 ≡ ok resp
      → resp.vote_granted ≡ true
      → r.is_pre_vote ≡ false
      → ((decide_vote r n).1.state.voted_for ≡ some r.candidate_id)
        × ((decide_vote r n).1.state.current_term ≡ n.state.current_term)
        × (resp.term ≡ n.state.current_term)
        × ((T.quorums.save (quorum_state (some r.candidate_id) n.state) n.quorum_state_store).0
            ≡ ok tt)
        × ((decide_vote r n).1.quorum_state_store
            ≡ (T.quorums.save (quorum_state (some r.candidate_id) n.state) n.quorum_state_store).1)
  unfolding decide_vote grant_vote reset_election_timer save_quorum_state
  decide_vote-records r n resp h g p = ground arith

  -- the node at which the decision is taken: the term is settled, and nothing else happens after
  settles :
      (r : VoteRequest) (n : RaftNode T) (resp : VoteResponse)
      → (handle_vote_request r n).0 ≡ ok resp
      → resp.vote_granted ≡ true
      → (m : RaftNode T) × ((decide_vote r m).0 ≡ ok resp)
        × (r.term ≤ m.state.current_term)
        × ((handle_vote_request r n).1 ≡ (decide_vote r m).1)
  unfolding handle_vote_request
  settles r n resp h g = elim (Bool-cases (is_voter r.candidate_id n.state.voter_set)) [
    | inr v ↦ let h' = rw v at h in absurd (ground arith)
    | inl v ↦ elim (Bool-cases (ltb n.state.current_term r.term)) [
      | inl newer ↦
          let h' = rw (v, newer) at h in
          let (_, _, decided, after) = bind_ok (adopt_term r.term) (λ _. decide_vote r) n h' in
          (
            (adopt_term r.term n).1,
            decided,
            omega (arith, adopt_term-term r.term n),
            rw (v, newer) after,
          )
      | inr same ↦
          let h' = rw (v, same) at h in
          (n, h', ltb→le n.state.current_term r.term same, rw (v, same))
    ]
  ]

  -- the same for the whole handler: the node's vote and its term, and the write behind them
  pub vote_request-records :
      (r : VoteRequest) (n : RaftNode T) (resp : VoteResponse)
      → (handle_vote_request r n).0 ≡ ok resp
      → resp.vote_granted ≡ true
      → r.is_pre_vote ≡ false
      → ((handle_vote_request r n).1.state.voted_for ≡ some r.candidate_id)
        × ((handle_vote_request r n).1.state.current_term ≡ r.term)
        × (resp.term ≡ r.term)
        × ((qs : QuorumState) × (q : T.quorums.Quorum) × (qs.current_term ≡ r.term)
            × (qs.voted_for ≡ some r.candidate_id)
            × ((T.quorums.save qs q).0 ≡ ok tt)
            × ((handle_vote_request r n).1.quorum_state_store ≡ (T.quorums.save qs q).1))
  vote_request-records r n resp h g p =
      let (m, decided, le, after) = settles r n resp h g in
      let (a, b, c, d, e) = decide_vote-records r m resp decided g p in
      let allowed = (decide_vote-ok r m resp decided).0 g in
      rw after (
        a,
        omega arith,
        omega arith,
        (quorum_state (some r.candidate_id) m.state, m.quorum_state_store, omega arith, refl, d, e),
      )

  -- If what a successful save wrote is what a load returns, then a granted, real vote is on disk when
  -- the reply is returned: the store holds the request's term and the candidate.
  pub granted_vote_is_durable :
      ((qs : QuorumState) (q : T.quorums.Quorum)
        → (T.quorums.save qs q).0 ≡ ok tt
        → T.quorums.load (T.quorums.save qs q).1 ≡ ok (some qs))
      → (r : VoteRequest) (n : RaftNode T) (resp : VoteResponse)
      → (handle_vote_request r n).0 ≡ ok resp
      → resp.vote_granted ≡ true
      → r.is_pre_vote ≡ false
      → (qs : QuorumState) × (T.quorums.load (handle_vote_request r n).1.quorum_state_store
          ≡ ok (some qs))
        × (qs.current_term ≡ resp.term)
        × (qs.voted_for ≡ some r.candidate_id)
  granted_vote_is_durable law r n resp h g p =
      let (_, _, t, (qs, q, a, b, saved, e)) = vote_request-records r n resp h g p in
      (qs, rw e (law qs q saved), a ∙ sym t, b)

  -- A run never grants two candidates one term: if a node, which has term 0, no vote and no voters as
  -- long as it is unattached, grants a real vote, and after any further steps (elections only with room
  -- for one more term) grants a real vote whose reply carries the same term, then both requests name one
  -- candidate.
  pub one_vote_per_term :
      (r r' : VoteRequest) (resp resp' : VoteResponse) (n m : RaftNode T)
      → IsFresh n.state
      → (handle_vote_request r n).0 ≡ ok resp
      → resp.vote_granted ≡ true
      → r.is_pre_vote ≡ false
      → Run (handle_vote_request r n).1 m
      → (handle_vote_request r' m).0 ≡ ok resp'
      → resp'.vote_granted ≡ true
      → r'.is_pre_vote ≡ false
      → resp'.term ≡ resp.term
      → r'.candidate_id ≡ r.candidate_id
  one_vote_per_term r r' resp resp' n m fresh h g p run h' g' p' same =
      let (a, b, t, _) = vote_request-records r n resp h g p in
      let (a', b', t', _) = vote_request-records r' m resp' h' g' p' in
      let (kept, f) = Run-Keeps run ((vote_request-Keeps r n).stays_fresh fresh) in
      let all = Keeps-trans kept (vote_request-Keeps r' m) in
      let stands = all.vote_stands r.candidate_id (b' ∙ sym t' ∙ same ∙ t ∙ sym b) a in
      cc (stands, a')
