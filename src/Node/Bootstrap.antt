-- ===== src/Node/Bootstrap.antt =====
-- `bootstrap` of xraft-core/src/raft_node.rs: the calls that succeed and those that fail.
use xraft.Prelude.{
  ◌≡◌, ◌≢◌, ◌↔◌, ◌<◌, ℕ, refl, true, false, none, List, [], ◌∷◌, map, arith, Bool-cases, inl, inr,
  ◌==◌, All,
}
use xraft.Prelude.Sets.{IsDistinct, contains, insert}
use xraft.Prelude.Exec.{ok, err}
use xraft.Types.{Role, NodeId, VoterInfo, ClusterId, is_voter, is_nil}
use xraft.Node.Traits.{Traits, BootstrappedReason, already_bootstrapped}
use xraft.Types.Rpc.{RpcEnvelope, RpcPayload, VoteResponse}
use xraft.Node.State.{RaftNode, reset_election_timer, save_quorum_state}
use xraft.Node.Election.{adopt_term, handle_vote_response}
use xraft.Node.Dispatch.{handle_rpc, dispatch}
use xraft.Node.Startup.{has_existing_data, first_duplicate, validate_bootstrap_config, bootstrap}
use xraft.Node.Formation.{bootstrap-cases}
use xraft.Node.Runs.{Run}
use xraft.Node.Settled.{Run-refused}

abbrev ids : List VoterInfo → List NodeId
ids vs = map (λ v. v.node_id) vs

-- no voter's id is in `seen`
abbrev Unseen : List NodeId → List VoterInfo → Type 0
Unseen seen vs = All (λ v. contains v.node_id seen ≡ false) vs

contains-other :
    (a b : ℕ) (xs : List ℕ) → contains b xs ≡ true → contains a xs ≡ false → (b == a) ≡ false
contains-other a b [] e h = cc
contains-other a b (x ∷ xs) e h = elim (Bool-cases (x == b)) [
  | inl f ↦ ground arith
  | inr f ↦ contains-other a b xs (ground arith) (ground arith)
]

contains-insert :
    (a b : ℕ) (xs : List ℕ)
    → (contains a (insert b xs) ≡ false) ↔ (((b == a) ≡ false) × (contains a xs ≡ false))
contains-insert a b xs = elim (Bool-cases (contains b xs)) [
  | inr e ↦ rw e (ground arith)
  | inl e ↦ rw e (λ h. (contains-other a b xs e h, h), λ h. h.1)
]

Unseen-insert :
    (a : NodeId) (seen : List NodeId) (vs : List VoterInfo)
    → Unseen (insert a seen) vs ↔ (Unseen seen vs × (contains a (ids vs) ≡ false))
Unseen-insert a seen [] = (λ h. (tt, refl), λ h. tt)
Unseen-insert a seen (v ∷ vs) =
    ground (arith, contains-insert v.node_id a seen, Unseen-insert a seen vs)

first_duplicate-none :
    (seen : List NodeId) (vs : List VoterInfo)
    → (first_duplicate seen vs ≡ none) ↔ (Unseen seen vs × IsDistinct (ids vs))
unfolding first_duplicate
first_duplicate-none seen [] = (λ h. (tt, tt), λ h. refl)
first_duplicate-none seen (v ∷ vs) =
    ground (arith, Unseen-insert v.node_id seen vs, first_duplicate-none (insert v.node_id seen) vs)

Unseen-[] : (vs : List VoterInfo) → Unseen [] vs
Unseen-[] [] = tt
Unseen-[] (v ∷ vs) = (refl, Unseen-[] vs)

-- `validate_bootstrap_config` accepts exactly the configurations with a cluster id that is not nil and
-- voters that include the node and have distinct ids.
pub validate_bootstrap_config-ok_iff :
    (self : NodeId) (c : ClusterId) (vs : List VoterInfo)
    → (validate_bootstrap_config self c vs ≡ ok tt)
      ↔ ((is_nil c ≡ false) × IsDistinct (ids vs) × (is_voter self vs ≡ true))
unfolding validate_bootstrap_config
validate_bootstrap_config-ok_iff self c [] = ground arith
validate_bootstrap_config-ok_iff self c (v ∷ vs) =
    ground (arith, first_duplicate-none [] (v ∷ vs), Unseen-[] (v ∷ vs))

module _ {T : Traits} where
  -- A `bootstrap` that fails, for whatever reason, changes nothing.
  failed_bootstrap_lem :
      (c : ClusterId) (vs : List VoterInfo) (n : RaftNode T)
      → (bootstrap c vs n).0 ≢ ok tt
      → (bootstrap c vs n).1 ≡ n
  failed_bootstrap_lem c vs n failed = elim (bootstrap-cases c vs n) [
    | inl (same, _) ↦ same
    | inr (t, e, was, done, b, fresh, empty, valid) ↦ absurd (failed done)
  ]

  -- A `bootstrap` that succeeds was called on a node that was never bootstrapped, is unattached and has
  -- no data, with a valid configuration; then the node is a follower in term 0 of that cluster, with no
  -- vote; and after any further messages, timers and bootstraps, with elections only while there is room
  -- for one more term, a `bootstrap` answers that the node is bootstrapped and changes nothing.
  pub bootstrap-ok :
      (c d : ClusterId) (vs ws : List VoterInfo) (n m : RaftNode T)
      → (bootstrap c vs n).0 ≡ ok tt
      → Run (bootstrap c vs n).1 m
      → let after = (bootstrap c vs n).1 in
        (n.bootstrapped ≡ false)
        × (n.state.role ≡ Role.unattached)
        × (has_existing_data n ≡ ok false)
        × (is_nil c ≡ false)
        × IsDistinct (ids vs)
        × (is_voter n.state.node_id vs ≡ true)
        × (after.state.role ≡ Role.follower)
        × (after.state.current_term ≡ 0)
        × (after.state.voted_for ≡ none)
        × (after.state.cluster_id ≡ c)
        × (after.state.voter_set ≡ vs)
        × ((reason : BootstrappedReason) × (bootstrap d ws m
              ≡ (err (already_bootstrapped reason), m)))
  bootstrap-ok c d vs ws n m h run = elim (bootstrap-cases c vs n) [
    | inl (same, failed) ↦ absurd (failed h)
    | inr (t, e, was, done, b, fresh, empty, valid) ↦
        let (x, y, z) = (validate_bootstrap_config-ok_iff n.state.node_id c vs).0 valid in
        let follows : (bootstrap c vs n).1.state.role ≡ Role.follower = cc in
        (
          fresh,
          was,
          empty,
          x,
          y,
          z,
          follows,
          cc,
          cc,
          cc,
          cc,
          Run-refused run (λ u. cc (u, follows)) d ws,
        )
  ]

  stray_response_moves :
      (e : RpcEnvelope) (r : VoteResponse) (n : RaftNode T)
      → n.bootstrapped ≡ false
      → e.payload ≡ RpcPayload.vote_response r
      → n.state.current_term < r.term
      → (handle_rpc e n).1.state.role ≡ Role.follower
  unfolding handle_rpc dispatch handle_vote_response adopt_term reset_election_timer
      save_quorum_state
  stray_response_moves e r n b p lt = rw (p, b) (ground arith)

  -- A node that was never bootstrapped and gets a VoteResponse of a higher term, from anybody and for any
  -- cluster, becomes a follower and can no longer be bootstrapped: after any further messages, timers and
  -- bootstraps, with elections only while there is room for one more term, a `bootstrap` answers that
  -- the node is bootstrapped and changes nothing.
  pub stray_response_blocks_bootstrap :
      (e : RpcEnvelope) (r : VoteResponse) (c : ClusterId) (vs : List VoterInfo) (n m : RaftNode T)
      → n.bootstrapped ≡ false
      → e.payload ≡ RpcPayload.vote_response r
      → n.state.current_term < r.term
      → Run (handle_rpc e n).1 m
      → ((handle_rpc e n).1.state.role ≡ Role.follower)
        × ((reason : BootstrappedReason) × (bootstrap c vs m
              ≡ (err (already_bootstrapped reason), m)))
  stray_response_blocks_bootstrap e r c vs n m b p lt run =
      let follows = stray_response_moves e r n b p lt in
      (follows, Run-refused run (λ u. cc (u, follows)) c vs)
