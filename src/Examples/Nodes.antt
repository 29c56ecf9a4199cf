-- ===== src/Examples/Nodes.antt =====
-- The node's theorems, in the small world.
use xraft.Prelude.{◌≡◌, ◌≢◌, ◌↔◌, refl, true, false, none, some, [], ◌∷◌, arith}
use xraft.Prelude.Exec.{ok, err}
use xraft.Config.{validate}
use xraft.Types.{Role, is_voter, is_nil}
use xraft.Types.Rpc.{VoteResponse, RpcEnvelope, RpcPayload}
use xraft.Storage.Quorum.{load, save, load-save}
use xraft.Storage.MemoryLog
use xraft.Node.Traits.{already_bootstrapped, BootstrappedReason}
use xraft.Node.State.{
  RaftNode, last_log_info, log_has_voters_record, reset_election_timer, save_quorum_state,
  has_quorum,
}
use xraft.Node.Election.{
  handle_vote_request, decide_vote, adopt_term, grant_vote, handle_election_timeout,
  append_leader_change, append_voters_record, take_leadership, become_leader, after_self_vote,
}
use xraft.Node.Dispatch.{tick, handle_rpc}
use xraft.Node.VoteOnce.{IsFresh}
use xraft.Node.Runs.{Run, here, next, ticked, rpc, HasRoom}
use xraft.Node.Majority.{IsElected}
use xraft.Node.Leadership.{Led, become_leader_lem}
use xraft.Node.Startup.{bootstrap, has_existing_data, first_duplicate, validate_bootstrap_config}
use xraft.Node.Bootstrap.{bootstrap-ok, stray_response_blocks_bootstrap}
use xraft.Node.Recovery.{granted_vote_survives_restart}
use xraft.Node.Startup.{new, recover}
use xraft.Types.{new_unattached, NodeState}
use xraft.Node.Lone.{lone_voter_wins}
use xraft.Prelude.Sets.{IsDistinct}
use xraft.Node.Ballot.{IsFree, UpToDate, one_vote_per_term, vote_granted_iff}
use xraft.Examples.World.{world, follower_of, three_voters, candidate_2, new_node, voter}

abbrev voter_node : RaftNode world
voter_node = follower_of three_voters

abbrev granted : VoteResponse
granted = record { term = 1; vote_granted = true; is_pre_vote = false }

abbrev after_vote : RaftNode world
after_vote = (handle_vote_request candidate_2 voter_node).1

abbrev later : RaftNode world
later = (tick after_vote).1

grants : (handle_vote_request candidate_2 voter_node).0 ≡ ok granted
unfolding handle_vote_request decide_vote adopt_term grant_vote reset_election_timer
    save_quorum_state last_log_info save MemoryLog.log_end_offset
grants = refl

grants_again : (handle_vote_request candidate_2 later).0 ≡ ok granted
unfolding tick handle_vote_request decide_vote adopt_term grant_vote reset_election_timer
    save_quorum_state last_log_info save MemoryLog.log_end_offset
grants_again = refl

has_room : HasRoom after_vote
unfolding handle_vote_request decide_vote adopt_term grant_vote reset_election_timer
    save_quorum_state last_log_info save MemoryLog.log_end_offset
has_room = omega arith

voter_node-IsFresh : IsFresh voter_node.state
voter_node-IsFresh h = absurd (cc h)

one_vote_per_term_example : candidate_2.candidate_id ≡ candidate_2.candidate_id
one_vote_per_term_example =
    one_vote_per_term candidate_2 candidate_2 granted granted voter_node later voter_node-IsFresh
      grants refl refl (next here (ticked after_vote has_room)) grants_again refl refl refl

abbrev campaigning : RaftNode world
campaigning = (tick voter_node).1

abbrev vote_of_2 : RpcEnvelope
vote_of_2 = record {
  cluster_id = 7;
  leader_epoch = 0;
  source = 2;
  payload = RpcPayload.vote_response granted;
}

voter_node-HasRoom : HasRoom voter_node
voter_node-HasRoom = omega arith

-- an election that is won
election-Run : Run voter_node (handle_rpc vote_of_2 campaigning).1
election-Run = next (next here (ticked voter_node voter_node-HasRoom)) (rpc vote_of_2 campaigning)

voter_node-IsElected : IsElected voter_node.state
voter_node-IsElected = record { majority = λ h. absurd (cc h); distinct = tt; votes_count = tt }

vote_granted_iff_example : (true ≡ true) ↔ (
    (is_voter 2 three_voters ≡ true)
    × IsFree candidate_2 voter_node.state
    × UpToDate candidate_2 (last_log_info voter_node))
vote_granted_iff_example = vote_granted_iff candidate_2 voter_node granted grants

become_leader_lem_example :
    Led (become_leader campaigning).0 campaigning (become_leader campaigning).1
become_leader_lem_example = become_leader_lem campaigning

forms : (bootstrap 7 three_voters new_node).0 ≡ ok tt
unfolding bootstrap has_existing_data validate_bootstrap_config first_duplicate reset_election_timer
    load MemoryLog.log_end_offset
forms = refl

bootstrap-ok_example :
    let after = (bootstrap 7 three_voters new_node).1 in
    (false ≡ false)
    × (Role.unattached ≡ Role.unattached)
    × (has_existing_data new_node ≡ ok false)
    × (is_nil 7 ≡ false)
    × IsDistinct (1 ∷ 2 ∷ 3 ∷ [])
    × (is_voter 1 three_voters ≡ true)
    × (after.state.role ≡ Role.follower)
    × (after.state.current_term ≡ 0)
    × (after.state.voted_for ≡ none)
    × (after.state.cluster_id ≡ 7)
    × (after.state.voter_set ≡ three_voters)
    × ((reason : BootstrappedReason) × (bootstrap 8 [] (handle_rpc vote_of_2 after).1
          ≡ (err (already_bootstrapped reason), (handle_rpc vote_of_2 after).1)))
bootstrap-ok_example =
    bootstrap-ok 7 8 three_voters [] new_node _ forms (next here (rpc vote_of_2 _))

-- node 1 is not among the voters
fails : (bootstrap 7 (voter 2 ∷ []) new_node).0 ≢ ok tt
unfolding bootstrap has_existing_data validate_bootstrap_config first_duplicate reset_election_timer
    load MemoryLog.log_end_offset
fails h = cc

stray_response_blocks_bootstrap_example :
    let after = (handle_rpc vote_of_2 new_node).1 in
    (after.state.role ≡ Role.follower)
    × ((reason : BootstrappedReason) × (bootstrap 7 three_voters (handle_rpc vote_of_2 after).1
          ≡ (err (already_bootstrapped reason), (handle_rpc vote_of_2 after).1)))
stray_response_blocks_bootstrap_example =
    stray_response_blocks_bootstrap vote_of_2 granted 7 three_voters new_node _ refl refl
      (omega arith) (next here (rpc vote_of_2 _))

-- the only voter is another node
abbrev outsider : RaftNode world
outsider = follower_of (voter 2 ∷ [])

outsider_times_out : (handle_election_timeout outsider).0 ≡ ok tt
unfolding handle_election_timeout save_quorum_state save after_self_vote has_quorum become_leader
    append_leader_change append_voters_record take_leadership log_has_voters_record
    MemoryLog.log_end_offset MemoryLog.append
outsider_times_out = refl

lone_voter_wins_example :
    let after = (handle_election_timeout outsider).1 in
    (after.state.role ≡ Role.leader)
    × (after.state.current_term ≡ 1)
    × (after.state.voted_for ≡ some 1)
    × (after.state.leader_id ≡ some 1)
    × (after.state.high_watermark ≡ MemoryLog.log_end_offset after.log_store)
lone_voter_wins_example = lone_voter_wins outsider refl outsider_times_out

-- the node after a crash: only the quorum state store is left
abbrev crashed : RaftNode world
crashed = record new_node { quorum_state_store = after_vote.quorum_state_store }

abbrev restarted_state : NodeState
restarted_state = record (new_unattached 1 40) {
  cluster_id = 7;
  current_term = 1;
  voted_for = some 2;
  role = Role.follower;
  election_deadline = 151;
}

abbrev restarted : RaftNode world
restarted = record crashed { state = restarted_state; clock = 1; bootstrapped = true }

restarts : new 40 crashed ≡ ok restarted
unfolding new validate has_existing_data recover load save handle_vote_request decide_vote
    adopt_term grant_vote reset_election_timer save_quorum_state last_log_info
    MemoryLog.log_end_offset
restarts = refl

granted_vote_survives_restart_example :
    (restarted.state.current_term ≡ 1) × (restarted.state.voted_for ≡ some 2) × (true ≡ true)
granted_vote_survives_restart_example =
    granted_vote_survives_restart (λ qs q _. load-save qs q) candidate_2 voter_node granted grants
      refl refl 40 crashed restarted refl restarts
