-- ===== src/Cluster/Calm.antt =====
-- What the handlers of a node do to its votes and to what it sends, whatever it then makes of it.
use xraft.Prelude.{◌≡◌, ◌⊎◌, refl, List, [], arith, Bool-cases, inl, inr, ltb}
use xraft.Prelude.Exec.{bind_moves, ok}
use xraft.Types.{Term, VoterInfo, ClusterId, is_voter}
use xraft.Types.Rpc.{VoteRequest, VoteResponse}
use xraft.Node.Traits.{Traits}
use xraft.Node.State.{RaftNode, reset_election_timer, save_quorum_state}
use xraft.Node.Election.{
  adopt_term, grant_vote, decide_vote, handle_vote_request, append_leader_change,
  append_voters_record, take_leadership, become_leader,
}
use xraft.Node.Startup.{bootstrap}

module _ {T : Traits} where
  -- Nothing is sent, the voters are the same, and the votes received are forgotten or are the same, for
  -- the same term.
  abbrev pub Calm : RaftNode T → RaftNode T → Type 0
  Calm n m =
      (m.state.node_id ≡ n.state.node_id)
      × (m.state.voter_set ≡ n.state.voter_set)
      × (m.outbox ≡ n.outbox)
      × ((m.state.votes_received ≡ [])
          ⊎ ((m.state.votes_received ≡ n.state.votes_received)
              × (m.state.current_term ≡ n.state.current_term)))

  Calm-trans : (n m k : RaftNode T) → Calm n m → Calm m k → Calm n k
  Calm-trans n m k p q = ground arith

  pub become_leader-Calm : (n : RaftNode T) → Calm n (become_leader n).1
  unfolding become_leader take_leadership append_leader_change append_voters_record
  become_leader-Calm n = ground arith

  pub adopt_term-Calm : (t : Term) (n : RaftNode T) → Calm n (adopt_term t n).1
  unfolding adopt_term reset_election_timer save_quorum_state
  adopt_term-Calm t n = (refl, refl, refl, inl refl)

  decide_vote-Calm : (r : VoteRequest) (n : RaftNode T) → Calm n (decide_vote r n).1
  unfolding decide_vote grant_vote reset_election_timer save_quorum_state
  decide_vote-Calm r n = ground arith

  pub vote_request-Calm : (r : VoteRequest) (n : RaftNode T) → Calm n (handle_vote_request r n).1
  unfolding handle_vote_request
  vote_request-Calm r n = elim (Bool-cases (is_voter r.candidate_id n.state.voter_set)) [
    | inr e ↦ rw e (refl, refl, refl, inr (refl, refl))
    | inl e ↦ rw e (elim (Bool-cases (ltb n.state.current_term r.term)) [
      | inr f ↦ rw f (decide_vote-Calm r n)
      | inl f ↦ rw f (
          bind_moves Calm Calm-trans (adopt_term r.term) (λ _. decide_vote r) n
            (adopt_term-Calm r.term n) (λ _ _. decide_vote-Calm r (adopt_term r.term n).1))
    ])
  ]

  -- a reply is for a pre-vote if the request was
  pub vote_request-pre_vote :
      (r : VoteRequest) (n : RaftNode T) (resp : VoteResponse)
      → (handle_vote_request r n).0 ≡ ok resp
      → resp.is_pre_vote ≡ r.is_pre_vote
  unfolding handle_vote_request adopt_term decide_vote grant_vote reset_election_timer
      save_quorum_state
  vote_request-pre_vote r n resp h = ground arith

  pub bootstrap-outbox :
      (c : ClusterId) (vs : List VoterInfo) (n : RaftNode T)
      → (bootstrap c vs n).1.outbox ≡ n.outbox
  unfolding bootstrap reset_election_timer
  bootstrap-outbox c vs n = ground arith
