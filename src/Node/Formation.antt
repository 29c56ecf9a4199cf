-- ===== src/Node/Formation.antt =====
-- Cluster formation: the cases of `bootstrap` of xraft-core/src/raft_node.rs.
use xraft.Prelude.{◌≡◌, ◌≢◌, ◌⊎◌, refl, true, false, List, Bool-cases, inl, inr}
use xraft.Prelude.Exec.{ok, Result-cases}
use xraft.Types.{Instant, Role, VoterInfo, ClusterId}
use xraft.Node.Traits.{Traits}
use xraft.Node.State.{RaftNode, reset_election_timer}
use xraft.Node.Startup.{
  is_unattached, has_existing_data, validate_bootstrap_config, form_cluster, bootstrap,
}

Role-cases : (r : Role) → (r ≡ Role.unattached) ⊎ (is_unattached r ≡ false)
Role-cases Role.unattached = inl refl
Role-cases Role.follower = inr refl
Role-cases Role.candidate = inr refl
Role-cases Role.leader = inr refl

module _ {T : Traits} where
  -- Either nothing at all changed and the call failed, or the cluster is formed from an unattached
  -- node.
  abbrev Formed : ClusterId → List VoterInfo → RaftNode T → Type 0
  Formed c vs n =
      (((bootstrap c vs n).1 ≡ n) × ((bootstrap c vs n).0 ≢ ok tt))
      ⊎ ((d : Instant) × ((bootstrap c vs n).1.state
            ≡ record (form_cluster c vs n.state) { election_deadline = d })
          × (n.state.role ≡ Role.unattached)
          × ((bootstrap c vs n).0 ≡ ok tt)
          × ((bootstrap c vs n).1.bootstrapped ≡ true)
          × (n.bootstrapped ≡ false)
          × (has_existing_data n ≡ ok false)
          × (validate_bootstrap_config n.state.node_id c vs ≡ ok tt))

  pub bootstrap-cases : (c : ClusterId) (vs : List VoterInfo) (n : RaftNode T) → Formed c vs n
  unfolding bootstrap reset_election_timer has_existing_data validate_bootstrap_config
  bootstrap-cases c vs n = elim (Bool-cases n.bootstrapped) [
    | inl b ↦ rw b (inl (refl, λ h. cc))
    | inr b ↦ elim (Role-cases n.state.role) [
      | inr w ↦ rw (b, w) (inl (refl, λ h. cc))
      | inl u ↦ elim (Result-cases (has_existing_data n)) [
        | inr (e, h) ↦ rw (b, u, h) (inl (refl, λ h. cc))
        | inl (true, h) ↦ rw (b, u, h) (inl (refl, λ h. cc))
        | inl (false, h) ↦ elim (Result-cases (validate_bootstrap_config n.state.node_id c vs)) [
          | inr (e, v) ↦ rw (b, u, h, v) (inl (refl, λ h. cc))
          | inl (done, v) ↦ rw (b, u, h, v) (inr (_, refl, refl, refl, refl, refl, refl, refl))
        ]
      ]
    ]
  ]
