-- ===== src/Node/Majority.antt =====
-- The votes that a node of xraft-core/src/raft_node.rs counts, over whole runs.
use xraft.Prelude.{
  ◌*◌, ◌<◌, ◌≡◌, refl, Bool, true, List, some, arith, Bool-cases, inl, inr, ltb, ◌||◌, ◌==◌, length,
  All,
}
use xraft.Prelude.Sets.{IsDistinct, contains, insert}
use xraft.Prelude.Exec.{bind_moves, ok, err, Result}
use xraft.Types.{NodeId, Term, NodeState, Role, VoterInfo, ClusterId, is_voter}
use xraft.Types.Rpc.{VoteRequest, VoteResponse}
use xraft.Node.Traits.{Traits, XraftError}
use xraft.Node.State.{RaftNode, reset_election_timer, save_quorum_state, has_quorum}
use xraft.Node.Election.{
  is_candidate, can_start_election, to_candidate, counts, adopt_term, grant_vote, decide_vote,
  handle_vote_request, handle_vote_response, handle_election_timeout, become_leader,
  broadcast_vote_requests, after_self_vote, record_vote,
}
use xraft.Node.Startup.{bootstrap}
use xraft.Node.Runs.{Run, Run_rule}
use xraft.Node.Formation.{bootstrap-cases}
use xraft.Node.Leadership.{Outcome, become_leader-Outcome}

-- A vote counts if it is the node's own or comes from a voter.
abbrev pub counted : NodeState → NodeId → Bool
counted s v = v == s.node_id || is_voter v s.voter_set

pub record IsElected (s : NodeState) : Type 0 where
  pub majority :
      s.role ≡ Role.leader
      → (0 < length s.voter_set) × (length s.voter_set < 2 * length s.votes_received)
  pub distinct : IsDistinct s.votes_received
  pub votes_count : All (λ v. counted s v ≡ true) s.votes_received

-- The votes and what they are judged by are the same, and the role is not newly a leader's.
pub record SameVotes (s t : NodeState) : Type 0 where
  pub votes : t.votes_received ≡ s.votes_received
  pub voters : t.voter_set ≡ s.voter_set
  pub self : t.node_id ≡ s.node_id
  pub role : t.role ≡ Role.leader → s.role ≡ Role.leader

abbrev CountedIn : NodeId → List VoterInfo → List NodeId → Type 0
CountedIn self voters votes = All (λ v. (v == self || is_voter v voters) ≡ true) votes

SameVotes-IsElected : {s t : NodeState} → SameVotes s t → IsElected s → IsElected t
SameVotes-IsElected {s} {t} e h = record {
  majority = λ l. rw (e.votes, e.voters) (h.majority (e.role l));
  distinct = rw e.votes h.distinct;
  votes_count = rw (e.votes, e.voters, e.self) h.votes_count;
}

has_quorum_majority :
    (s : NodeState)
    → has_quorum s ≡ true
    → (0 < length s.voter_set) × (length s.voter_set < 2 * length s.votes_received)
unfolding has_quorum
has_quorum_majority s h = ground arith

insert-IsDistinct : (a : NodeId) (xs : List NodeId) → IsDistinct xs → IsDistinct (insert a xs)
insert-IsDistinct a xs h = elim (Bool-cases (contains a xs)) [
  | inl e ↦ rw e h
  | inr e ↦ rw e (e, h)
]

pub insert-All :
    (P : NodeId → Type 0) (a : NodeId) (xs : List NodeId) → P a → All P xs → All P (insert a xs)
insert-All P a xs p h = elim (Bool-cases (contains a xs)) [ inl e ↦ rw e h | inr e ↦ rw e (p, h) ]

-- the candidate's own vote
campaign-IsElected : (s : NodeState) → IsElected (to_candidate s)
campaign-IsElected s = record {
  majority = λ l. cc;
  distinct = (refl, tt);
  votes_count = (ground arith, tt);
}

module _ {T : Traits} where
  -- from votes that are a majority, both outcomes of `become_leader` are elected
  Outcome-IsElected :
      (r : Result XraftError (Unit {0})) (n m : RaftNode T)
      → Outcome r n m
      → has_quorum n.state ≡ true
      → IsElected n.state
      → IsElected m.state
  Outcome-IsElected (ok _) n m (e, _) q h = rw e (record {
    majority = λ _. has_quorum_majority n.state q;
    distinct = h.distinct;
    votes_count = h.votes_count;
  })
  Outcome-IsElected (err _) n m (e, _) q h = rw e h

  become_leader-IsElected :
      (n : RaftNode T)
      → has_quorum n.state ≡ true
      → IsElected n.state
      → IsElected (become_leader n).1.state
  become_leader-IsElected n =
      Outcome-IsElected (become_leader n).0 n (become_leader n).1 (become_leader-Outcome n)

  decide_vote-SameVotes :
      (r : VoteRequest) (n : RaftNode T) → SameVotes n.state (decide_vote r n).1.state
  unfolding decide_vote grant_vote reset_election_timer save_quorum_state
  decide_vote-SameVotes r n = ground arith

  adopt_term-IsElected : (t : Term) (n : RaftNode T) → IsElected (adopt_term t n).1.state
  unfolding adopt_term reset_election_timer save_quorum_state
  adopt_term-IsElected t n = record { majority = λ h. cc; distinct = tt; votes_count = tt }

  decide_vote-IsElected :
      (r : VoteRequest) (n : RaftNode T) → IsElected n.state → IsElected (decide_vote r n).1.state
  decide_vote-IsElected r n = SameVotes-IsElected (decide_vote-SameVotes r n)

  pub vote_request-IsElected :
      (r : VoteRequest) (n : RaftNode T)
      → IsElected n.state
      → IsElected (handle_vote_request r n).1.state
  unfolding handle_vote_request
  vote_request-IsElected r n h = elim (Bool-cases (is_voter r.candidate_id n.state.voter_set)) [
    | inr e ↦ rw e h
    | inl e ↦ rw e (elim (Bool-cases (ltb n.state.current_term r.term)) [
      | inr f ↦ rw f (decide_vote-IsElected r n h)
      | inl f ↦ rw f (
          bind_moves (λ _ k. IsElected k.state) (λ _ _ _ _ q. q) (adopt_term r.term)
            (λ _. decide_vote r) n (adopt_term-IsElected r.term n)
            (λ _ _.
              decide_vote-IsElected r (adopt_term r.term n).1 (adopt_term-IsElected r.term n)))
    ])
  ]

  record_vote-IsElected :
      (c : NodeId) (n : RaftNode T)
      → counted n.state c ≡ true
      → is_candidate n.state.role ≡ true
      → IsElected n.state
      → IsElected (record_vote c n).1.state
  unfolding record_vote
  record_vote-IsElected c n v k h =
      let n' : RaftNode T = record n {
        state = record n.state { votes_received = insert c n.state.votes_received };
      } in
      let h' : IsElected n'.state = record {
        majority = λ l. absurd (ground arith);
        distinct = insert-IsDistinct c n.state.votes_received h.distinct;
        votes_count =
            insert-All (λ x. counted n.state x ≡ true) c n.state.votes_received v h.votes_count;
      } in
      elim (Bool-cases (has_quorum n'.state)) [
        | inl q ↦ rw q (become_leader-IsElected n' q h')
        | inr q ↦ rw q h'
      ]

  pub vote_response-IsElected :
      (from : NodeId) (r : VoteResponse) (n : RaftNode T)
      → IsElected n.state
      → IsElected (handle_vote_response from r n).1.state
  unfolding handle_vote_response
  vote_response-IsElected from r n h = elim (Bool-cases (ltb n.state.current_term r.term)) [
    | inl e ↦ rw e (adopt_term-IsElected r.term n)
    | inr e ↦ rw e (elim (Bool-cases (counts from r n.state)) [
      | inl f ↦ rw f (record_vote-IsElected from n (ground arith) (ground arith) h)
      | inr f ↦ rw f h
    ])
  ]

  after_self_vote-IsElected :
      (n : RaftNode T) → IsElected n.state → IsElected (after_self_vote n).1.state
  unfolding after_self_vote broadcast_vote_requests reset_election_timer
  after_self_vote-IsElected n h = elim (Bool-cases (has_quorum n.state)) [
    | inl q ↦ rw q (become_leader-IsElected n q h)
    | inr q ↦
        rw q (record { majority = h.majority; distinct = h.distinct; votes_count = h.votes_count })
  ]

  pub election_timeout-IsElected :
      (n : RaftNode T) → IsElected n.state → IsElected (handle_election_timeout n).1.state
  unfolding handle_election_timeout save_quorum_state
  election_timeout-IsElected n h = elim (Bool-cases (can_start_election n.state.role)) [
    | inr e ↦ rw e h
    | inl e ↦ rw e (
        bind_moves (λ _ k. IsElected k.state) (λ _ _ _ _ q. q)
          (save_quorum_state (some n.state.node_id)) (λ _. after_self_vote)
          (record n { state = to_candidate n.state }) (campaign-IsElected n.state)
          (λ _ _. after_self_vote-IsElected _ (campaign-IsElected n.state)))
  ]

  bootstrap-IsElected :
      (c : ClusterId) (vs : List VoterInfo) (n : RaftNode T)
      → IsElected n.state
      → IsElected (bootstrap c vs n).1.state
  bootstrap-IsElected c vs n h = elim (bootstrap-cases c vs n) [
    | inl (same, _) ↦ rw same h
    | inr (d, e, _, _, _, _, _, _) ↦
        rw e (record { majority = λ l. cc; distinct = tt; votes_count = tt })
  ]

  -- Invariant of every run of a node, from a state that has it: if the node leads, the votes that it
  -- counts are more than half of its voter set, which is not empty; and in any role those votes are from
  -- distinct nodes, each of them itself or a voter.
  pub Run-IsElected : {n m : RaftNode T} → Run n m → IsElected n.state → IsElected m.state
  Run-IsElected run =
      Run_rule (λ s t. IsElected s → IsElected t) (λ s h. h) (λ s t u f g h. g (f h))
        vote_request-IsElected vote_response-IsElected (λ n _. election_timeout-IsElected n)
        bootstrap-IsElected run
