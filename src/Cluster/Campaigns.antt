-- ===== src/Cluster/Campaigns.antt =====
-- The candidate of xraft-core/src/raft_node.rs: handle_election_timeout and handle_vote_response, for a
-- given history of who voted for whom.
use xraft.Prelude.{
  ◌≡◌, refl, sym, ◌∙◌, ap, true, false, Option, some, List, arith, Bool-cases, inl, inr, ltb,
}
use xraft.Prelude.Sets.{insert}
use xraft.Prelude.Exec.{bind_moves}
use xraft.Types.{NodeId, VoterInfo}
use xraft.Types.Rpc.{VoteResponse}
use xraft.Node.Traits.{Traits}
use xraft.Node.State.{RaftNode, reset_election_timer, save_quorum_state, has_quorum}
use xraft.Node.Election.{
  counts, can_start_election, to_candidate, adopt_term, handle_vote_response,
  handle_election_timeout, become_leader, broadcast_vote_requests, after_self_vote, record_vote,
}
use xraft.Node.Majority.{insert-All}
use xraft.Node.VoteOnce.{after_self_vote-Same}
use xraft.Cluster.{Network}
use xraft.Cluster.Calm.{Calm, become_leader-Calm, adopt_term-Calm}
use xraft.Cluster.Honest.{History, Good, Own, send_all-honest}

module _ {T : Traits} {W : Network T.net} {H : History} {i : NodeId} {ws : List VoterInfo} where
  pub Calm-Good : (n m : RaftNode T) → Calm n m → Good W H i ws n → Good W H i ws m
  Calm-Good n m (a, b, c, inl d) g = record {
    self = a ∙ g.self;
    voters = b ∙ g.voters;
    supported = rw d tt;
    honest = rw c g.honest;
  }
  Calm-Good n m (a, b, c, inr (d, e)) g = record {
    self = a ∙ g.self;
    voters = b ∙ g.voters;
    supported = rw (d, e) g.supported;
    honest = rw c g.honest;
  }

  record_vote-Good :
      (from : NodeId) (n : RaftNode T)
      → H from n.state.current_term ≡ some i
      → Good W H i ws n
      → Good W H i ws (record_vote from n).1
  unfolding record_vote
  record_vote-Good from n h g =
      let n' : RaftNode T = record n {
        state = record n.state { votes_received = insert from n.state.votes_received };
      } in
      let g' : Good W H i ws n' = record {
        self = g.self;
        voters = g.voters;
        supported =
            insert-All (λ v. H v n.state.current_term ≡ some i) from n.state.votes_received h
              g.supported;
        honest = g.honest;
      } in
      elim (Bool-cases (has_quorum n'.state)) [
        | inl q ↦ rw q (Calm-Good n' (become_leader n').1 (become_leader-Calm n') g')
        | inr q ↦ rw q g'
      ]

  -- A response that is believed is one that was honestly sent here.
  pub vote_response-Good :
      (from : NodeId) (r : VoteResponse) (n : RaftNode T)
      → (r.vote_granted ≡ true → r.is_pre_vote ≡ false → H from r.term ≡ some i)
      → Good W H i ws n
      → Good W H i ws (handle_vote_response from r n).1
  unfolding handle_vote_response
  vote_response-Good from r n h g = elim (Bool-cases (ltb n.state.current_term r.term)) [
    | inl e ↦ rw e (Calm-Good n (adopt_term r.term n).1 (adopt_term-Calm r.term n) g)
    | inr e ↦ rw e (elim (Bool-cases (counts from r n.state)) [
      | inr f ↦ rw f g
      | inl f ↦
          let t : r.term ≡ n.state.current_term = ground arith in
          rw f (record_vote-Good from n (rw (← t) (h (ground arith) (ground arith))) g)
    ])
  ]

  broadcast-Good : (n : RaftNode T) → Good W H i ws n → Good W H i ws (broadcast_vote_requests n).1
  unfolding broadcast_vote_requests
  broadcast-Good n g = record {
    self = g.self;
    voters = g.voters;
    supported = g.supported;
    honest = send_all-honest W H n.state.node_id _ n.state.voter_set n.outbox (λ to. refl) g.honest;
  }

  after_self_vote-Good : (n : RaftNode T) → Good W H i ws n → Good W H i ws (after_self_vote n).1
  unfolding after_self_vote broadcast_vote_requests reset_election_timer
  after_self_vote-Good n g = elim (Bool-cases (has_quorum n.state)) [
    | inl q ↦ rw q (Calm-Good n (become_leader n).1 (become_leader-Calm n) g)
    | inr q ↦
        let b = broadcast-Good n g in
        rw q
          (record { self = b.self; voters = b.voters; supported = b.supported; honest = b.honest })
  ]

  campaign-Good :
      (n : RaftNode T)
      → Good W H i ws n
      → H i (to_candidate n.state).current_term ≡ some i
      → Good W H i ws (record n { state = to_candidate n.state })
  campaign-Good n g h = record {
    self = g.self;
    voters = g.voters;
    supported = rw g.self (h, tt);
    honest = g.honest;
  }

  save-Good :
      (v : Option NodeId) (n : RaftNode T)
      → Good W H i ws n
      → Good W H i ws (save_quorum_state v n).1
  unfolding save_quorum_state
  save-Good v n g = record {
    self = g.self;
    voters = g.voters;
    supported = g.supported;
    honest = g.honest;
  }

module _ {T : Traits} where
  abbrev SameBallot : RaftNode T → RaftNode T → Type 0
  SameBallot n m =
      (m.state.current_term ≡ n.state.current_term) × (m.state.voted_for ≡ n.state.voted_for)

  save-SameBallot : (v : Option NodeId) (n : RaftNode T) → SameBallot n (save_quorum_state v n).1
  unfolding save_quorum_state
  save-SameBallot v n = (refl, refl)

  SameBallot-trans : (n m k : RaftNode T) → SameBallot n m → SameBallot m k → SameBallot n k
  SameBallot-trans n m k p q = ground arith

  -- a timeout that starts an election leaves the ballot that it starts with
  election_timeout-SameBallot :
      (n : RaftNode T)
      → can_start_election n.state.role ≡ true
      → SameBallot (record n { state = to_candidate n.state }) (handle_election_timeout n).1
  unfolding handle_election_timeout
  election_timeout-SameBallot n e =
      let c : RaftNode T = record n { state = to_candidate n.state } in
      rw e (
        bind_moves SameBallot SameBallot-trans (save_quorum_state (some n.state.node_id))
          (λ _. after_self_vote) c (save-SameBallot (some n.state.node_id) c)
          (λ _ _.
            let s = after_self_vote-Same (save_quorum_state (some n.state.node_id) c).1 in
            (s.0, s.1)))

module _ {T : Traits} {W : Network T.net} {H : History} {i : NodeId} {ws : List VoterInfo} where
  pub election_timeout-Good :
      (n : RaftNode T)
      → Good W H i ws n
      → Own H i (handle_election_timeout n).1
      → Good W H i ws (handle_election_timeout n).1
  unfolding handle_election_timeout
  election_timeout-Good n g own = elim (Bool-cases (can_start_election n.state.role)) [
    | inr e ↦ rw e g
    | inl e ↦
        let c : RaftNode T = record n { state = to_candidate n.state } in
        let same = election_timeout-SameBallot n e in
        let h : H i c.state.current_term ≡ some i =
          ap (H i) (sym same.0) ∙ own i (same.1 ∙ ap some g.self) in
        let g' = campaign-Good n g h in
        rw e (
          bind_moves (λ _ k. Good W H i ws k) (λ _ _ _ _ q. q)
            (save_quorum_state (some n.state.node_id)) (λ _. after_self_vote) c
            (save-Good (some n.state.node_id) c g')
            (λ _ _.
              after_self_vote-Good (save_quorum_state (some n.state.node_id) c).1
                (save-Good (some n.state.node_id) c g')))
  ]
