-- ===== src/Node/VoteOnce.antt =====
-- The term and the vote of xraft-core/src/raft_node.rs, handler by handler: what a handler keeps of them.
use xraft.Prelude.{
  sym, ap, none, [], true, ◌∙◌, ltb, ltb→lt, ◌+◌, ◌≤◌, ◌<◌, ◌^◌, ◌≡◌, refl, some, arith, Bool-cases,
  inl, inr,
}
use xraft.Types.{is_voter, NodeId, Term, NodeState, Role}
use xraft.Types.Rpc.{VoteRequest, VoteResponse}
use xraft.Prelude.Sets.{insert}
use xraft.Prelude.Exec.{bind_moves}
use xraft.Node.Traits.{Traits}
use xraft.Node.State.{RaftNode, reset_election_timer, save_quorum_state}
use xraft.Node.Election.{
  counts, can_start_election, to_candidate, adopt_term, grant_vote, decide_vote,
  handle_vote_request, handle_vote_response, handle_election_timeout, append_leader_change,
  append_voters_record, take_leadership, become_leader, broadcast_vote_requests, after_self_vote,
  record_vote,
}

-- A node that is unattached has seen no term, cast no vote and knows no voter.
abbrev pub IsFresh : NodeState → Type 0
IsFresh s =
    s.role ≡ Role.unattached → (s.current_term ≡ 0) × (s.voted_for ≡ none) × (s.voter_set ≡ [])

-- From `s` to `t` the term did not fall, and if it is the same, a vote once given stands.
pub record Keeps (s t : NodeState) : Type 0 where
  pub term_grows : s.current_term ≤ t.current_term
  pub vote_stands :
      (c : NodeId) → t.current_term ≡ s.current_term → s.voted_for ≡ some c → t.voted_for ≡ some c
  pub stays_fresh : IsFresh s → IsFresh t

pub Keeps-refl : (s : NodeState) → Keeps s s
Keeps-refl s = record { term_grows = omega arith; vote_stands = λ c e h. h; stays_fresh = λ f. f }

pub Keeps-trans : {s t u : NodeState} → Keeps s t → Keeps t u → Keeps s u
Keeps-trans {s} {t} {u} p q = record {
  term_grows = omega (arith, p.term_grows, q.term_grows);
  vote_stands = λ c e h.
      let e₁ : t.current_term ≡ s.current_term = omega (arith, p.term_grows, q.term_grows) in
      q.vote_stands c (omega arith) (p.vote_stands c e₁ h);
  stays_fresh = λ f. q.stays_fresh (p.stays_fresh f);
}

module _ {T : Traits} where
  -- the term and the vote are untouched, and the role is not newly unattached
  abbrev pub Same : RaftNode T → RaftNode T → Type 0
  Same m n =
      (n.state.current_term ≡ m.state.current_term)
      × (n.state.voted_for ≡ m.state.voted_for)
      × (n.state.role ≡ Role.unattached → m.state.role ≡ Role.unattached)
      × (n.state.voter_set ≡ m.state.voter_set)

  take_leadership-Same : (n : RaftNode T) → Same n (take_leadership n).1
  unfolding take_leadership
  take_leadership-Same n = ground arith

  pub become_leader-Same : (n : RaftNode T) → Same n (become_leader n).1
  unfolding become_leader take_leadership append_leader_change append_voters_record
  become_leader-Same n = ground arith

  pub after_self_vote-Same : (n : RaftNode T) → Same n (after_self_vote n).1
  unfolding after_self_vote broadcast_vote_requests reset_election_timer
  after_self_vote-Same n = ground (arith, become_leader-Same n)

  adopt_term-Keeps :
      (t : Term) (n : RaftNode T)
      → n.state.current_term < t
      → Keeps n.state (adopt_term t n).1.state
  unfolding adopt_term reset_election_timer save_quorum_state
  adopt_term-Keeps t n h = record {
    term_grows = omega arith;
    vote_stands = λ c e v. absurd (omega arith);
    stays_fresh = λ f w. cc;
  }

  decide_vote-role :
      (r : VoteRequest) (n : RaftNode T) → (decide_vote r n).1.state.role ≡ n.state.role
  unfolding decide_vote grant_vote reset_election_timer save_quorum_state
  decide_vote-role r n = ground arith

  decide_vote-IsFresh :
      (r : VoteRequest) (n : RaftNode T)
      → is_voter r.candidate_id n.state.voter_set ≡ true
      → IsFresh n.state
      → IsFresh (decide_vote r n).1.state
  decide_vote-IsFresh r n v f w =
      let (a, b, c) = f (sym (decide_vote-role r n) ∙ w) in
      absurd (cc (ap (is_voter r.candidate_id) c))

  adopt_term-voters :
      (t : Term) (n : RaftNode T) → (adopt_term t n).1.state.voter_set ≡ n.state.voter_set
  unfolding adopt_term reset_election_timer save_quorum_state
  adopt_term-voters t n = refl

  decide_vote-Keeps :
      (r : VoteRequest) (n : RaftNode T)
      → is_voter r.candidate_id n.state.voter_set ≡ true
      → Keeps n.state (decide_vote r n).1.state
  unfolding decide_vote grant_vote reset_election_timer save_quorum_state
  decide_vote-Keeps r n v = record {
    term_grows = ground arith;
    vote_stands = λ c e h. ground arith;
    stays_fresh = decide_vote-IsFresh r n v;
  }

  Moves-trans :
      (m n k : RaftNode T) → Keeps m.state n.state → Keeps n.state k.state → Keeps m.state k.state
  Moves-trans m n k p q = Keeps-trans p q

  pub vote_request-Keeps :
      (r : VoteRequest) (n : RaftNode T) → Keeps n.state (handle_vote_request r n).1.state
  unfolding handle_vote_request
  vote_request-Keeps r n = elim (Bool-cases (is_voter r.candidate_id n.state.voter_set)) [
    | inr e ↦ rw e (Keeps-refl n.state)
    | inl e ↦ rw e (elim (Bool-cases (ltb n.state.current_term r.term)) [
      | inr f ↦ rw f (decide_vote-Keeps r n e)
      | inl f ↦ rw f (
          bind_moves (λ m k. Keeps m.state k.state) Moves-trans (adopt_term r.term)
            (λ _. decide_vote r) n (adopt_term-Keeps r.term n (ltb→lt _ _ f))
            (λ _ _.
              decide_vote-Keeps r (adopt_term r.term n).1
                (ap (is_voter r.candidate_id) (adopt_term-voters r.term n) ∙ e)))
    ])
  ]

  Same-Keeps : (m n : RaftNode T) → Same m n → Keeps m.state n.state
  Same-Keeps m n h = record {
    term_grows = omega arith;
    vote_stands = λ c e v. h.1 ∙ v;
    stays_fresh = λ f w. let (a, b, c) = f (h.2 w) in (h.0 ∙ a, h.1 ∙ b, h.3 ∙ c);
  }

  record_vote-Same : (c : NodeId) (n : RaftNode T) → Same n (record_vote c n).1
  unfolding record_vote
  record_vote-Same c n = ground (
    arith,
    become_leader-Same
        (record n { state = record n.state { votes_received = insert c n.state.votes_received } }),
  )

  record_vote-Keeps : (c : NodeId) (n : RaftNode T) → Keeps n.state (record_vote c n).1.state
  record_vote-Keeps c n = Same-Keeps n (record_vote c n).1 (record_vote-Same c n)

  pub vote_response-Keeps :
      (from : NodeId) (r : VoteResponse) (n : RaftNode T)
      → Keeps n.state (handle_vote_response from r n).1.state
  unfolding handle_vote_response
  vote_response-Keeps from r n = elim (Bool-cases (ltb n.state.current_term r.term)) [
    | inl e ↦ rw e (adopt_term-Keeps r.term n (ltb→lt _ _ e))
    | inr e ↦ rw e (elim (Bool-cases (counts from r n.state)) [
      | inl f ↦ rw f (record_vote-Keeps from n)
      | inr f ↦ rw f (Keeps-refl n.state)
    ])
  ]

  -- the node after an election timeout's own writes
  abbrev campaigning : RaftNode T → RaftNode T
  campaigning n =
      (save_quorum_state (some n.state.node_id) (record n { state = to_candidate n.state })).1

  campaigning-Keeps :
      (n : RaftNode T) → n.state.current_term + 1 < 2 ^ 64 → Keeps n.state (campaigning n).state
  unfolding save_quorum_state
  campaigning-Keeps n h = record {
    term_grows = omega arith;
    vote_stands = λ c e v. absurd (omega arith);
    stays_fresh = λ f w. cc;
  }

  pub election_timeout-Keeps :
      (n : RaftNode T)
      → n.state.current_term + 1 < 2 ^ 64
      → Keeps n.state (handle_election_timeout n).1.state
  unfolding handle_election_timeout
  election_timeout-Keeps n h = elim (Bool-cases (can_start_election n.state.role)) [
    | inr e ↦ rw e (Keeps-refl n.state)
    | inl e ↦ rw e (
        bind_moves (λ m k. Keeps n.state k.state) (λ _ _ _ p q. q)
          (save_quorum_state (some n.state.node_id)) (λ _. after_self_vote)
          (record n { state = to_candidate n.state }) (campaigning-Keeps n h)
          (λ _ _. Keeps-trans (campaigning-Keeps n h) (
            Same-Keeps (campaigning n) (after_self_vote (campaigning n)).1
              (after_self_vote-Same (campaigning n)))))
  ]
