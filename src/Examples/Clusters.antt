-- ===== src/Examples/Clusters.antt =====
-- A cluster of three nodes in the small world, in which one is elected.
use xraft.Prelude.{ℕ, ◌≡◌, refl, ap, true, false, List, [], ◌∷◌, ◌++◌, ◌⊎◌, inl, inr, arith}
use mathlib.Core.List.{Memᴰ}
use mathlib.Core.List.Memᴰ
use xraft.Config.{with_node_id}
use xraft.Types.{NodeId, Role, new_unattached}
use xraft.Types.Rpc.{RpcEnvelope, RpcPayload}
use xraft.Storage.Quorum.{load, save, load-save}
use xraft.Storage.MemoryLog
use xraft.Node.State.{
  RaftNode, reset_election_timer, save_quorum_state, has_quorum, last_log_info,
  log_has_voters_record,
}
use xraft.Node.Election.{
  send_all, adopt_term, grant_vote, decide_vote, handle_vote_request, handle_vote_response,
  handle_election_timeout, append_leader_change, append_voters_record, take_leadership,
  become_leader, broadcast_vote_requests, after_self_vote, record_vote,
}
use xraft.Node.Startup.{bootstrap, has_existing_data, first_duplicate, validate_bootstrap_config}
use xraft.Node.Dispatch.{send_reply, dispatch, handle_rpc, poll}
use xraft.Node.Stored.{IsStored, Run-IsStored}
use xraft.Node.Runs
use xraft.Node.Runs.{HasRoom, here, next}
use xraft.Cluster.{
  Network, Cluster, Delivered, IsNew, Reach, start, later, acts, rpc, polled, formed, update,
}
use xraft.Cluster.Agreement.{Saves}
use xraft.Cluster.Safety.{election_safety}
use xraft.Examples.World.{world, new_node, three_voters}

sent :
    (to id : NodeId) (e f : RpcEnvelope) (out : List (NodeId × RpcEnvelope))
    → Memᴰ (id, f) (out ++ ((to, e) ∷ []))
    → Memᴰ (id, f) out ⊎ ((id ≡ to) × (f ≡ e))
sent to id e f out m = elim (Memᴰ.append_cases out m) [
  | inl old ↦ inl old
  | inr last ↦
      let q = Memᴰ.eq_of_singleton last in
      inr (ap (λ (p : NodeId × RpcEnvelope). p.0) q, ap (λ (p : NodeId × RpcEnvelope). p.1) q)
]

-- what is in a mailbox was sent
abbrev network : Network world.net
network = record { Sent = λ out to e. Memᴰ (to, e) out; send_adds = sent }

abbrev node : NodeId → RaftNode world
node i = record new_node { state = new_unattached i 0; config = with_node_id i }

node-IsNew : IsNew network node
unfolding load
node-IsNew i = ((0, refl), refl, λ to e h. Memᴰ.not-nil h)

saves : Saves world
saves qs q = load-save qs q

abbrev request : RpcEnvelope
request = record {
  cluster_id = 7;
  leader_epoch = 0;
  source = 1;
  payload = RpcPayload.vote_request (record {
    term = 1;
    candidate_id = 1;
    last_log_offset = 0;
    last_log_term = 0;
    is_pre_vote = false;
  });
}

abbrev granted : RpcEnvelope
granted = record {
  cluster_id = 7;
  leader_epoch = 0;
  source = 2;
  payload =
      RpcPayload.vote_response (record { term = 1; vote_granted = true; is_pre_vote = false });
}

-- nodes 1 and 2 are formed, 1 asks for votes, 2 grants its own, and 1 counts it
abbrev half_formed : Cluster world
half_formed = update node 1 (bootstrap 7 three_voters (node 1)).1

abbrev formed_two : Cluster world
formed_two = update half_formed 2 (bootstrap 7 three_voters (half_formed 2)).1

abbrev asked : Cluster world
asked = update formed_two 1 (poll (formed_two 1)).1

abbrev answered : Cluster world
answered = update asked 2 (handle_rpc request (asked 2)).1

abbrev elected : Cluster world
elected = update answered 1 (handle_rpc granted (answered 1)).1

asked_2 : Delivered network asked 2 request
unfolding bootstrap poll handle_election_timeout save_quorum_state after_self_vote has_quorum
    broadcast_vote_requests reset_election_timer last_log_info send_all MemoryLog.log_end_offset
    has_existing_data load save validate_bootstrap_config first_duplicate
asked_2 = (1, Memᴰ.head refl)

answered_1 : Delivered network answered 1 granted
unfolding bootstrap poll handle_election_timeout save_quorum_state after_self_vote has_quorum
    broadcast_vote_requests reset_election_timer last_log_info send_all MemoryLog.log_end_offset
    has_existing_data load save validate_bootstrap_config first_duplicate handle_rpc dispatch
    handle_vote_request adopt_term decide_vote grant_vote send_reply
answered_1 = (2, Memᴰ.head refl)

room : HasRoom (formed_two 1)
unfolding bootstrap has_existing_data load validate_bootstrap_config first_duplicate
    reset_election_timer MemoryLog.log_end_offset
room = omega arith

elected-Reach : Reach network three_voters elected
elected-Reach =
    let r0 = start node node-IsNew in
    let r1 = later r0 (acts 1 (formed 7)) in
    let r2 = later r1 (acts 2 (formed 7)) in
    let r3 = later r2 (acts 1 (polled room)) in
    let r4 = later r3 (acts 2 (rpc request asked_2)) in later r4 (acts 1 (rpc granted answered_1))

leads : (elected 1).state.role ≡ Role.leader
unfolding bootstrap poll handle_election_timeout save_quorum_state after_self_vote has_quorum
    broadcast_vote_requests reset_election_timer last_log_info send_all MemoryLog.log_end_offset
    has_existing_data load save validate_bootstrap_config first_duplicate handle_rpc dispatch
    handle_vote_response record_vote become_leader append_leader_change append_voters_record
    take_leadership log_has_voters_record MemoryLog.append
leads = refl

election_safety_example : ◌≡◌ {A = ℕ} 1 1
election_safety_example =
    election_safety saves three_voters elected 1 1 elected-Reach leads leads refl

Run-IsStored_example : IsStored (poll (formed_two 1)).1
unfolding load
Run-IsStored_example =
    Run-IsStored saves (node 1) (poll (formed_two 1)).1
      (next (next here (Runs.formed 7 three_voters (node 1))) (Runs.polled (formed_two 1) room))
      (λ _. (refl, refl, refl)) ((λ qs h. absurd (cc h)), λ h. (refl, refl))
