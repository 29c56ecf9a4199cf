-- ===== src/Election/Votes.antt =====
-- The term and the vote in the handlers of xraft-core/src/election.rs.
use xraft.Prelude.{
  ℕ, ◌+◌, ◌≤◌, ◌≡◌, refl, ◌∙◌, ◌⊎◌, inl, inr, Bool, true, false, Bool-cases, Option, none, some,
  List, [], ◌∷◌, ◌++◌, arith, ltb, ltb→lt, ap, last?, last?-end, append_assoc,
}
use xraft.Types.{NodeId, Term, Instant, NodeState}
use xraft.Types.Rpc.{RpcEnvelope, vote_response, VoteRequest, VoteResponse}
use xraft.Replication.Parts.{QuorumState, IoAction, persist_quorum_state, send_rpc}
use xraft.Election.{
  Methods, ElectionState, refuses, log_ok, later, maybe_step_down_on_higher_term, start_election,
  decide, vote_reply, envelope, handle_vote_request, handle_vote_response, record_vote,
  append_leader_change_message,
}

-- From `s` to `t` the term did not fall, and if it is the same, a vote once given stands.
pub record KeepsVote (s t : NodeState) : Type 0 where
  pub term_grows : s.current_term ≤ t.current_term
  pub vote_stands :
      (c : NodeId) → t.current_term ≡ s.current_term → s.voted_for ≡ some c → t.voted_for ≡ some c

pub KeepsVote-refl : (s : NodeState) → KeepsVote s s
KeepsVote-refl s = record { term_grows = omega arith; vote_stands = λ c e h. h }

pub KeepsVote-trans : {s t u : NodeState} → KeepsVote s t → KeepsVote t u → KeepsVote s u
KeepsVote-trans {s} {t} {u} p q = record {
  term_grows = omega (arith, p.term_grows, q.term_grows);
  vote_stands = λ c e h.
      let e₁ : t.current_term ≡ s.current_term = omega (arith, p.term_grows, q.term_grows) in
      q.vote_stands c (omega arith) (p.vote_stands c e₁ h);
}

-- the same term and the same vote
pub KeepsVote-same :
    (s t : NodeState) → t.current_term ≡ s.current_term → t.voted_for ≡ s.voted_for → KeepsVote s t
KeepsVote-same s t h v = record { term_grows = omega arith; vote_stands = λ c e w. v ∙ w }

-- a later term
pub KeepsVote-later : (s t : NodeState) → s.current_term + 1 ≤ t.current_term → KeepsVote s t
KeepsVote-later s t h = record {
  term_grows = omega arith;
  vote_stands = λ c e w. absurd (omega arith);
}

-- What the names of the state's methods and the comments at their calls say of the term and the vote.
pub record Documented (M : Methods) : Type 0 where
  pub follower_term :
      (t : Term) (l : Option NodeId) (d : Instant) (s : ElectionState)
      → (M.become_follower t l d s).node.current_term ≡ t
  pub candidate_term :
      (d : Instant) (s : ElectionState)
      → (M.become_candidate d s).node.current_term ≡ s.node.current_term + 1
  pub leader_term :
      (d : Instant) (n : ℕ) (s : ElectionState)
      → (M.become_leader d n s).node.current_term ≡ s.node.current_term
  pub leader_vote :
      (d : Instant) (n : ℕ) (s : ElectionState)
      → (M.become_leader d n s).node.voted_for ≡ s.node.voted_for
  pub fetch_term :
      (id : NodeId) (o : ℕ) (d : Instant) (s : ElectionState)
      → (M.record_fetch id o d s).node.current_term ≡ s.node.current_term
  pub fetch_vote :
      (id : NodeId) (o : ℕ) (d : Instant) (s : ElectionState)
      → (M.record_fetch id o d s).node.voted_for ≡ s.node.voted_for
  pub log_term_term :
      (t : Term) (s : ElectionState)
      → (M.update_last_log_term t s).node.current_term ≡ s.node.current_term
  pub log_term_vote :
      (t : Term) (s : ElectionState)
      → (M.update_last_log_term t s).node.voted_for ≡ s.node.voted_for

module _ {M : Methods} (doc : Documented M) where
  pub step_down-KeepsVote :
      (t : Term) (s : ElectionState) (c : M.clocks.Time)
      → KeepsVote s.node (maybe_step_down_on_higher_term M t s c).1.node
  unfolding maybe_step_down_on_higher_term
  step_down-KeepsVote t s c = elim (Bool-cases (ltb s.node.current_term t)) [
    | inl h ↦ rw h (
        KeepsVote-later s.node (M.become_follower t none (later M c).0 s).node
          (omega (arith, ltb→lt _ _ h, doc.follower_term t none (later M c).0 s)))
    | inr h ↦ rw h (KeepsVote-refl s.node)
  ]

  pub handle_vote_response-KeepsVote :
      (r : VoteResponse) (s : ElectionState) (c : M.clocks.Time)
      → KeepsVote s.node (handle_vote_response M r s c).1.node
  unfolding handle_vote_response
  handle_vote_response-KeepsVote r s c = elim (Bool-cases (ltb s.node.current_term r.term)) [
    | inl h ↦ rw h (
        KeepsVote-later s.node (M.become_follower r.term none (later M c).0 s).node
          (omega (arith, ltb→lt _ _ h, doc.follower_term r.term none (later M c).0 s)))
    | inr h ↦ rw h (KeepsVote-refl s.node)
  ]

  pub start_election-KeepsVote :
      (s : ElectionState) (c : M.clocks.Time) (batch : List IoAction)
      → KeepsVote s.node (start_election M s c batch).0.node
  unfolding start_election
  start_election-KeepsVote s c batch =
      KeepsVote-later s.node (M.become_candidate (later M c).0 s).node
        (omega (arith, doc.candidate_term (later M c).0 s))

  pub record_vote-KeepsVote :
      (id : NodeId) (s : ElectionState) → KeepsVote s.node (record_vote M id s).1.node
  unfolding record_vote
  record_vote-KeepsVote id s =
      KeepsVote-same s.node (record_vote M id s).1.node (ground arith) (ground arith)

  pub append_leader_change-KeepsVote :
      (s : ElectionState) (batch : List IoAction)
      → KeepsVote s.node (append_leader_change_message M s batch).1.node
  unfolding append_leader_change_message
  append_leader_change-KeepsVote s batch =
      KeepsVote-same s.node (append_leader_change_message M s batch).1.node (doc.log_term_term _ _)
        (doc.log_term_vote _ _)

-- the decision on a vote: nothing happens, or it is given to the candidate, and to no other before
abbrev Decided : VoteRequest → ElectionState → Bool → ElectionState → Type 0
Decided req s granted s' =
    ((granted ≡ false) × (s' ≡ s))
    ⊎ ((granted ≡ true)
        × (s'.node.voted_for ≡ some req.candidate_id)
        × (s'.node.current_term ≡ s.node.current_term)
        × ((c : NodeId) → s.node.voted_for ≡ some c → some req.candidate_id ≡ some c))

voted_same :
    (req : VoteRequest) (s : NodeState) (c : NodeId)
    → refuses req s ≡ false
    → s.voted_for ≡ some c
    → some req.candidate_id ≡ some c
voted_same req s c h v = ground arith

decide-Decided :
    (M : Methods) (req : VoteRequest) (s : ElectionState) (c : M.clocks.Time)
    → Decided req s (decide M req s c).0 (decide M req s c).1
decide-Decided M req s c = elim (Bool-cases (refuses req s.node)) [
  | inl h ↦ rw h (inl (refl, refl))
  | inr h ↦ elim (Bool-cases (log_ok req s)) [
    | inl k ↦ rw h (rw k (inr (refl, refl, refl, λ v. voted_same req s.node v h)))
    | inr k ↦ rw h (rw k (inl (refl, refl)))
  ]
]

Decided-KeepsVote :
    (req : VoteRequest) (s s' : ElectionState) (granted : Bool)
    → Decided req s granted s'
    → KeepsVote s.node s'.node
Decided-KeepsVote req s s' granted (inl (_, e)) = rw e (KeepsVote-refl s.node)
Decided-KeepsVote req s s' granted (inr (_, v, t, r)) = record {
  term_grows = omega arith;
  vote_stands = λ c e h. v ∙ r c h;
}

module _ {M : Methods} (doc : Documented M) where
  pub handle_vote_request-KeepsVote :
      (req : VoteRequest) (s : ElectionState) (c : M.clocks.Time) (batch : List IoAction)
      → KeepsVote s.node (handle_vote_request M req s c batch).0.node
  unfolding handle_vote_request
  handle_vote_request-KeepsVote req s c batch =
      let (_, s1, c1) = maybe_step_down_on_higher_term M req.term s c in
      KeepsVote-trans (step_down-KeepsVote doc req.term s c) (
        Decided-KeepsVote req s1 (decide M req s1 c1).1 (decide M req s1 c1).0
          (decide-Decided M req s1 c1))

-- the last action of a reply
abbrev reply_of : VoteRequest → Bool → NodeState → IoAction
reply_of req granted s = send_rpc req.candidate_id (
    envelope s (
      vote_response
        (record { term = s.current_term; vote_granted = granted; is_pre_vote = false })))

granted_reply :
    (req : VoteRequest) (granted : Bool) (s s' : ElectionState) (batch : List IoAction)
    (env : RpcEnvelope) (resp : VoteResponse)
    → Decided req s granted s'
    → last? (batch ++ vote_reply req granted s'.node) ≡ some (send_rpc req.candidate_id env)
    → env.payload ≡ vote_response resp
    → resp.vote_granted ≡ true
    → (qs : QuorumState) × (batch ++ vote_reply req granted s'.node
        ≡ batch ++ (persist_quorum_state qs ∷ send_rpc req.candidate_id env ∷ []))
      × (qs.voted_for ≡ some req.candidate_id)
      × (qs.current_term ≡ resp.term)
      × (s'.node.voted_for ≡ some req.candidate_id)
      × (s'.node.current_term ≡ resp.term)
granted_reply req false s s' batch env resp d h p g =
    absurd (ground (arith, last?-end batch (reply_of req false s'.node)))
granted_reply req true s s' batch env resp (inl (n, _)) h p g = absurd (ground arith)
granted_reply req true s s' batch env resp (inr (_, v, t, _)) h p g =
    let qs : QuorumState = record {
      current_term = s'.node.current_term;
      voted_for = s'.node.voted_for;
      leader_id = s'.node.leader_id;
      leader_epoch = 0;
    } in
    let reply = reply_of req true s'.node in
    let same : reply ≡ send_rpc req.candidate_id env = ground (
      arith,
      last?-end (batch ++ (persist_quorum_state qs ∷ [])) reply,
      append_assoc batch (persist_quorum_state qs ∷ []) (reply ∷ []),
    ) in
    let term : s'.node.current_term ≡ resp.term = ground arith in
    (qs, ap (λ a. batch ++ (persist_quorum_state qs ∷ a ∷ [])) same, v, term, v, term)

-- A batch that ends in a granted reply persists the vote before it.
pub granted_batch :
    (M : Methods) (req : VoteRequest) (s : ElectionState) (c : M.clocks.Time)
    (batch : List IoAction) (env : RpcEnvelope) (resp : VoteResponse)
    → last? (handle_vote_request M req s c batch).2 ≡ some (send_rpc req.candidate_id env)
    → env.payload ≡ vote_response resp
    → resp.vote_granted ≡ true
    → (qs : QuorumState) × ((handle_vote_request M req s c batch).2
        ≡ batch ++ (persist_quorum_state qs ∷ send_rpc req.candidate_id env ∷ []))
      × (qs.voted_for ≡ some req.candidate_id)
      × (qs.current_term ≡ resp.term)
      × ((handle_vote_request M req s c batch).0.node.voted_for ≡ some req.candidate_id)
      × ((handle_vote_request M req s c batch).0.node.current_term ≡ resp.term)
unfolding handle_vote_request
granted_batch M req s c batch env resp h p g =
    let (_, s1, c1) = maybe_step_down_on_higher_term M req.term s c in
    let (granted, s2, c2) = decide M req s1 c1 in
    granted_reply req granted s1 s2 batch env resp (decide-Decided M req s1 c1) h p g

-- what a vote request adds to the batch, by whether it is granted
vote_reply-cases :
    (req : VoteRequest) (granted : Bool) (s s' : ElectionState) (batch : List IoAction)
    → Decided req s granted s'
    → ((qs : QuorumState) × (env : RpcEnvelope) × (resp : VoteResponse) × (batch
            ++ vote_reply req granted s'.node
          ≡ batch ++ (persist_quorum_state qs ∷ send_rpc req.candidate_id env ∷ []))
        × (env.payload ≡ vote_response resp)
        × (resp.vote_granted ≡ true)
        × (resp.term ≡ s'.node.current_term)
        × (qs.voted_for ≡ some req.candidate_id)
        × (qs.current_term ≡ s'.node.current_term)
        × (s'.node.voted_for ≡ some req.candidate_id))
      ⊎ ((env : RpcEnvelope) × (resp : VoteResponse) × (batch ++ vote_reply req granted s'.node
            ≡ batch ++ (send_rpc req.candidate_id env ∷ []))
          × (env.payload ≡ vote_response resp)
          × (resp.vote_granted ≡ false)
          × (resp.term ≡ s'.node.current_term)
          × (s' ≡ s))
vote_reply-cases req false s s' batch (inl (_, same)) = inr (_, _, refl, refl, refl, refl, same)
vote_reply-cases req false s s' batch (inr (g, _, _, _)) = absurd (ground arith)
vote_reply-cases req true s s' batch (inl (g, _)) = absurd (ground arith)
vote_reply-cases req true s s' batch (inr (_, v, t, _)) =
    inl (_, _, _, refl, refl, refl, refl, v, refl, v)

-- A real vote request adds its actions behind the batch, and one reply to the candidate is the last. If
-- the reply grants the vote, exactly one action comes before it, which persists a vote for the candidate
-- at the node's term, and the node has voted so; if it does not, nothing is persisted and the node
-- has at most stepped down to the request's term. The reply is at the node's term.
pub persisted_before_granted :
    (M : Methods) (req : VoteRequest) (s : ElectionState) (c : M.clocks.Time)
    (batch : List IoAction)
    → let (s', _, batch') = handle_vote_request M req s c batch in
      ((qs : QuorumState) × (env : RpcEnvelope) × (resp : VoteResponse) × (batch'
          ≡ batch ++ (persist_quorum_state qs ∷ send_rpc req.candidate_id env ∷ []))
        × (env.payload ≡ vote_response resp)
        × (resp.vote_granted ≡ true)
        × (resp.term ≡ s'.node.current_term)
        × (qs.voted_for ≡ some req.candidate_id)
        × (qs.current_term ≡ s'.node.current_term)
        × (s'.node.voted_for ≡ some req.candidate_id))
      ⊎ ((env : RpcEnvelope) × (resp : VoteResponse) × (batch'
            ≡ batch ++ (send_rpc req.candidate_id env ∷ []))
          × (env.payload ≡ vote_response resp)
          × (resp.vote_granted ≡ false)
          × (resp.term ≡ s'.node.current_term)
          × (s' ≡ (maybe_step_down_on_higher_term M req.term s c).1))
unfolding handle_vote_request
persisted_before_granted M req s c batch =
    let (_, s1, c1) = maybe_step_down_on_higher_term M req.term s c in
    let (granted, s2, c2) = decide M req s1 c1 in
    vote_reply-cases req granted s1 s2 batch (decide-Decided M req s1 c1)
