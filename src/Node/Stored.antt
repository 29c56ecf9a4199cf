-- ===== src/Node/Stored.antt =====
-- The term and the vote on disk against those in memory, over whole runs of a node of
-- xraft-core/src/raft_node.rs.
use xraft.Prelude.{
  not, ◌&&◌, ◌≡◌, ◌⊎◌, refl, sym, ap, ◌∙◌, Option, none, some, List, arith, Bool-cases, inl, inr,
  ltb,
}
use xraft.Prelude.Exec.{bind_moves, ok}
use xraft.Types.{NodeId, Term, NodeState, QuorumState, VoterInfo, ClusterId, is_voter}
use xraft.Types.Rpc.{VoteRequest, VoteResponse}
use xraft.Node.Traits.{Traits}
use xraft.Node.State.{RaftNode, reset_election_timer, save_quorum_state, has_quorum, last_log_info}
use xraft.Prelude.Sets.{insert}
use xraft.Node.Election.{
  counts, can_start_election, to_candidate, adopt_term, grant_vote, decide_vote, can_vote, log_ok,
  handle_vote_request, handle_vote_response, handle_election_timeout, append_leader_change,
  append_voters_record, take_leadership, become_leader, broadcast_vote_requests, after_self_vote,
  record_vote,
}
use xraft.Node.Startup.{bootstrap}
use xraft.Node.Formation.{bootstrap-cases}
use xraft.Node.VoteOnce.{IsFresh, vote_request-Keeps, vote_response-Keeps, election_timeout-Keeps}
use xraft.Node.Terms.{bootstrap-Follows}
use xraft.Node.Runs.{Run, View, view, Run_view_rule}

module _ (T : Traits) where
  -- Either the store, the term and the vote are as they were, or the store was last given this term and
  -- this vote.
  abbrev Ledger : View T → View T → Type 0
  Ledger (s, q) (t, q') =
      ((q' ≡ q) × (t.current_term ≡ s.current_term) × (t.voted_for ≡ s.voted_for))
      ⊎ ((qs : QuorumState) × (r : T.quorums.Quorum) × (q' ≡ (T.quorums.save qs r).1)
          × (qs.current_term ≡ t.current_term)
          × (qs.voted_for ≡ t.voted_for))

  Ledger-refl : (s : View T) → Ledger s s
  Ledger-refl (s, q) = inl (refl, refl, refl)

  Ledger-trans : (s t u : View T) → Ledger s t → Ledger t u → Ledger s u
  Ledger-trans (s, q) (t, q') (u, q'') h (inr k) = inr k
  Ledger-trans (s, q) (t, q') (u, q'') (inl (a, b, c)) (inl (d, e, f)) = inl (d ∙ a, e ∙ b, f ∙ c)
  Ledger-trans (s, q) (t, q') (u, q'') (inr (qs, r, a, b, c)) (inl (d, e, f)) =
      inr (qs, r, d ∙ a, b ∙ sym e, c ∙ sym f)

  -- what `bootstrap` does takes a fresh node
  abbrev Follows : View T → View T → Type 0
  Follows s t = IsFresh s.0 → Ledger s t × IsFresh t.0

  Follows-trans : (s t u : View T) → Follows s t → Follows t u → Follows s u
  Follows-trans s t u p q f =
      let (k, g) = p f in let (k', g') = q g in (Ledger-trans s t u k k', g')

module _ {T : Traits} where
  abbrev Moves : RaftNode T → RaftNode T → Type 0
  Moves n m = Ledger T (view n) (view m)

  Moves-trans : (n m k : RaftNode T) → Moves n m → Moves m k → Moves n k
  Moves-trans n m k = Ledger-trans T (view n) (view m) (view k)

  adopt_term-Moves : (t : Term) (n : RaftNode T) → Moves n (adopt_term t n).1
  unfolding adopt_term reset_election_timer save_quorum_state
  adopt_term-Moves t n = inr (_, _, refl, refl, refl)

  save-Moves :
      (v : Option NodeId) (n m : RaftNode T)
      → m.state.voted_for ≡ v
      → Moves n (save_quorum_state v m).1
  unfolding save_quorum_state
  save-Moves v n m h = inr (_, _, refl, refl, sym h)

  timer-Moves : (n : RaftNode T) → Moves n (reset_election_timer n).1
  unfolding reset_election_timer
  timer-Moves n = inl (refl, refl, refl)

  grant_vote-Moves : (c : NodeId) (n : RaftNode T) → Moves n (grant_vote c n).1
  unfolding grant_vote
  grant_vote-Moves c n =
      let m : RaftNode T = record n { state = record n.state { voted_for = some c } } in
      let saved = save-Moves (some c) n m refl in
      bind_moves (λ _ k. Moves n k) (λ _ _ _ _ q. q) (save_quorum_state (some c))
        (λ _. reset_election_timer) m saved
        (λ _ _.
          Moves-trans n (save_quorum_state (some c) m).1
            (reset_election_timer (save_quorum_state (some c) m).1).1 saved
            (timer-Moves (save_quorum_state (some c) m).1))

  decide_vote-Moves : (r : VoteRequest) (n : RaftNode T) → Moves n (decide_vote r n).1
  unfolding decide_vote
  decide_vote-Moves r n = elim (Bool-cases (ltb r.term n.state.current_term)) [
    | inl e ↦ rw e (Ledger-refl T (view n))
    | inr e ↦
        let grants =
          (can_vote n.state.voted_for r.candidate_id && log_ok r (last_log_info n))
          && not r.is_pre_vote in
        elim (Bool-cases grants) [
          | inr f ↦ rw (e, f) (Ledger-refl T (view n))
          | inl f ↦
              rw (e, f)
                (bind_moves Moves Moves-trans (grant_vote r.candidate_id) _ n
                  (grant_vote-Moves r.candidate_id n)
                  (λ _ _. Ledger-refl T (view (grant_vote r.candidate_id n).1)))
        ]
  ]

  vote_request-Moves : (r : VoteRequest) (n : RaftNode T) → Moves n (handle_vote_request r n).1
  unfolding handle_vote_request
  vote_request-Moves r n = elim (Bool-cases (is_voter r.candidate_id n.state.voter_set)) [
    | inr e ↦ rw e (Ledger-refl T (view n))
    | inl e ↦ rw e (elim (Bool-cases (ltb n.state.current_term r.term)) [
      | inr f ↦ rw f (decide_vote-Moves r n)
      | inl f ↦ rw f (
          bind_moves Moves Moves-trans (adopt_term r.term) (λ _. decide_vote r) n
            (adopt_term-Moves r.term n) (λ _ _. decide_vote-Moves r (adopt_term r.term n).1))
    ])
  ]

  become_leader-Moves : (n : RaftNode T) → Moves n (become_leader n).1
  unfolding become_leader take_leadership append_leader_change append_voters_record
  become_leader-Moves n = inl (ground arith, ground arith, ground arith)

  vote_response-Moves :
      (from : NodeId) (r : VoteResponse) (n : RaftNode T)
      → Moves n (handle_vote_response from r n).1
  unfolding handle_vote_response record_vote
  vote_response-Moves from r n = elim (Bool-cases (ltb n.state.current_term r.term)) [
    | inl e ↦ rw e (adopt_term-Moves r.term n)
    | inr e ↦ rw e (elim (Bool-cases (counts from r n.state)) [
      | inr f ↦ rw f (Ledger-refl T (view n))
      | inl f ↦
          let n' : RaftNode T = record n {
            state = record n.state { votes_received = insert from n.state.votes_received };
          } in
          rw f (elim (Bool-cases (has_quorum n'.state)) [
            | inl q ↦ rw q (become_leader-Moves n')
            | inr q ↦ rw q (Ledger-refl T (view n))
          ])
    ])
  ]

  after_self_vote-Moves : (n : RaftNode T) → Moves n (after_self_vote n).1
  unfolding after_self_vote broadcast_vote_requests reset_election_timer
  after_self_vote-Moves n = elim (Bool-cases (has_quorum n.state)) [
    | inl q ↦ rw q (become_leader-Moves n)
    | inr q ↦ rw q (inl (refl, refl, refl))
  ]

  election_timeout-Moves : (n : RaftNode T) → Moves n (handle_election_timeout n).1
  unfolding handle_election_timeout
  election_timeout-Moves n = elim (Bool-cases (can_start_election n.state.role)) [
    | inr e ↦ rw e (Ledger-refl T (view n))
    | inl e ↦
        let c : RaftNode T = record n { state = to_candidate n.state } in
        let self = some n.state.node_id in
        let saved = save-Moves self n c refl in
        rw e (
          bind_moves (λ _ k. Moves n k) (λ _ _ _ _ q. q) (save_quorum_state self)
            (λ _. after_self_vote) c saved
            (λ _ _.
              Moves-trans n (save_quorum_state self c).1
                (after_self_vote (save_quorum_state self c).1).1 saved
                (after_self_vote-Moves (save_quorum_state self c).1)))
  ]

  bootstrap-store :
      (c : ClusterId) (vs : List VoterInfo) (n : RaftNode T)
      → (bootstrap c vs n).1.quorum_state_store ≡ n.quorum_state_store
  unfolding bootstrap reset_election_timer
  bootstrap-store c vs n = ground arith

  bootstrap-Moves :
      (c : ClusterId) (vs : List VoterInfo) (n : RaftNode T)
      → IsFresh n.state
      → Moves n (bootstrap c vs n).1
  bootstrap-Moves c vs n fresh = elim (bootstrap-cases c vs n) [
    | inl (same, _) ↦ rw same (Ledger-refl T (view n))
    | inr (d, e, was, _, _, _, _, _) ↦
        let (a, b, _) = fresh was in
        inl (
          bootstrap-store c vs n,
          ap (λ (s : NodeState). s.current_term) e ∙ sym a,
          ap (λ (s : NodeState). s.voted_for) e ∙ sym b,
        )
  ]

module _ {T : Traits} where
  Run-Follows : {n m : RaftNode T} → Run n m → Follows T (view n) (view m)
  Run-Follows run =
      Run_view_rule (Follows T) (λ s f. (Ledger-refl T s, f)) (Follows-trans T)
        (λ r n f. (vote_request-Moves r n, (vote_request-Keeps r n).stays_fresh f))
        (λ from r n f. (vote_response-Moves from r n, (vote_response-Keeps from r n).stays_fresh f))
        (λ n h f. (election_timeout-Moves n, (election_timeout-Keeps n h).stays_fresh f))
        (λ c vs n f. (bootstrap-Moves c vs n f, (bootstrap-Follows c vs n f).1)) run

  -- What a load would return: the term and the vote, or nothing as long as there are none.
  abbrev pub IsStored : RaftNode T → Type 0
  IsStored n =
      ((qs : QuorumState)
        → T.quorums.load n.quorum_state_store ≡ ok (some qs)
        → (qs.current_term ≡ n.state.current_term) × (qs.voted_for ≡ n.state.voted_for))
      × (T.quorums.load n.quorum_state_store ≡ ok none
          → (n.state.current_term ≡ 0) × (n.state.voted_for ≡ none))

  -- If every save is done, a load returning what was saved, then along every run of a node that started
  -- fresh, with elections only while there is room for one more term, the term and the vote on disk are
  -- those in memory, whichever handler ran last: a load returns them, or nothing as long as the
  -- term is 0 and no vote was cast, or an error.
  pub Run-IsStored :
      ((qs : QuorumState) (q : T.quorums.Quorum)
        → T.quorums.load (T.quorums.save qs q).1 ≡ ok (some qs))
      → (n m : RaftNode T) → Run n m
      → IsFresh n.state
      → IsStored n
      → IsStored m
  Run-IsStored law n m run fresh (found, missing) = elim (Run-Follows run fresh).0 [
    | inl (a, b, c) ↦ (
      λ qs h. let (t, v) = found qs (rw a at h) in (t ∙ sym b, v ∙ sym c),
      λ h. let (t, v) = missing (rw a at h) in (b ∙ t, c ∙ v),
    )
    | inr (qs, q, a, b, c) ↦ (
      λ ps h. let same : ps ≡ qs = cc (law qs q, rw a at h) in rw same (b, c),
      λ h. absurd (cc (law qs q, rw a at h)),
    )
  ]
