-- ===== src/Node/Lone.antt =====
-- Clusters of one voter, in `handle_election_timeout` of xraft-core/src/raft_node.rs.
use xraft.Prelude.{
  ◌≡◌, ◌∙◌, ap, sym, refl, Bool-cases, inl, inr, u64_add, true, some, arith, length,
}
use xraft.Prelude.Exec.{bind_ok, ok, err, Result}
use xraft.Types.{Role}
use xraft.Node.Traits.{Traits, XraftError}
use xraft.Node.State.{RaftNode, save_quorum_state, has_quorum}
use xraft.Node.Election.{
  can_start_election, to_candidate, lead, become_leader, after_self_vote, handle_election_timeout,
}
use xraft.Node.Leadership.{Outcome, become_leader-Outcome}

module _ {T : Traits} where
  -- the node after it voted for itself
  abbrev voted : RaftNode T → RaftNode T
  voted n = (save_quorum_state (some n.state.node_id) (record n { state = to_candidate n.state })).1

  voted-state : (n : RaftNode T) → (voted n).state ≡ to_candidate n.state
  unfolding save_quorum_state
  voted-state n = refl

  Outcome-ok :
      (r : Result XraftError (Unit {0})) (n m : RaftNode T)
      → Outcome r n m
      → r ≡ ok tt
      → m.state ≡ lead (T.logs.log_end_offset m.log_store) n.state
  Outcome-ok (ok _) n m (s, _) h = s
  Outcome-ok (err e) n m o h = cc

  after_quorum : (m : RaftNode T) → has_quorum m.state ≡ true → after_self_vote m ≡ become_leader m
  unfolding after_self_vote
  after_quorum m q = rw q refl

  lone_quorum : (n : RaftNode T) → length n.state.voter_set ≡ 1 → has_quorum (voted n).state ≡ true
  unfolding has_quorum save_quorum_state
  lone_quorum n one = ground arith

  lone-after :
      (n m : RaftNode T)
      → (m ≡ voted n)
      → length n.state.voter_set ≡ 1
      → (after_self_vote m).0 ≡ ok tt
      → (after_self_vote m).1.state
        ≡ lead (T.logs.log_end_offset (after_self_vote m).1.log_store) m.state
  lone-after n m is one h =
      let q = ap (λ k. has_quorum k.state) is ∙ lone_quorum n one in
      let same = after_quorum m q in
      let s =
        Outcome-ok (become_leader m).0 m (become_leader m).1 (become_leader-Outcome m)
          (sym (ap (λ r. r.0) same) ∙ h) in
      ap (λ r. r.1.state) same
      ∙ s
      ∙ ap (λ r. lead (T.logs.log_end_offset r.1.log_store) m.state) (sym same)

  -- what a lone voter's election leaves in a node
  abbrev Won : RaftNode T → RaftNode T → Type 0
  Won n k =
      (k.state.role ≡ Role.leader)
      × (k.state.current_term ≡ u64_add n.state.current_term 1)
      × (k.state.voted_for ≡ some n.state.node_id)
      × (k.state.leader_id ≡ some n.state.node_id)
      × (k.state.high_watermark ≡ T.logs.log_end_offset k.log_store)

  lead-Won :
      (n k : RaftNode T)
      → length n.state.voter_set ≡ 1
      → k.state ≡ lead (T.logs.log_end_offset k.log_store) (to_candidate n.state)
      → Won n k
  lead-Won n k one s = (
    ap (λ t. t.role) s,
    ap (λ t. t.current_term) s,
    ap (λ t. t.voted_for) s,
    ap (λ t. t.leader_id) s,
    ap (λ t. t.high_watermark) s ∙ ground arith,
  )

  -- With one voter in the set, an election timeout that succeeds makes the node the leader of the next
  -- term with its own vote and the whole log committed; the voter need not be the node.
  pub lone_voter_wins :
      (n : RaftNode T)
      → length n.state.voter_set ≡ 1
      → (handle_election_timeout n).0 ≡ ok tt
      → let after = (handle_election_timeout n).1 in
        (after.state.role ≡ Role.leader)
        × (after.state.current_term ≡ u64_add n.state.current_term 1)
        × (after.state.voted_for ≡ some n.state.node_id)
        × (after.state.leader_id ≡ some n.state.node_id)
        × (after.state.high_watermark ≡ T.logs.log_end_offset after.log_store)
  unfolding handle_election_timeout
  lone_voter_wins n one h = elim (Bool-cases (can_start_election n.state.role)) [
    | inr e ↦ let h' = rw e at h in absurd (ground arith)
    | inl e ↦
        let h' = rw e at h in
        let (_, _, won, same) =
          bind_ok (save_quorum_state (some n.state.node_id)) (λ _. after_self_vote)
            (record n { state = to_candidate n.state }) h' in
        let k = (after_self_vote (voted n)).1 in
        let s = lone-after n (voted n) refl one won in
        let won_k =
          lead-Won n k one (s ∙ ap (lead (T.logs.log_end_offset k.log_store)) (voted-state n)) in
        rw (e, same) won_k
  ]
