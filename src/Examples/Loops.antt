-- ===== src/Examples/Loops.antt =====
-- The event loop and its I/O stage in a small world, and the theorems on them at concrete inputs.
use xraft.Prelude.{
  ◌⊎◌, ◌+◌, ◌≡◌, refl, Bool, true, false, none, some, List, [], ◌∷◌, ◌++◌, length, last?, ◌/◌,
}
use xraft.Prelude.Exec.{Result, ok, err}
use xraft.Types.{NodeId, Term, Role, NodeState, is_voter, LogEntry, Snapshot}
use xraft.Types.Rpc.{RpcEnvelope, RpcPayload, VoteResponse}
use xraft.Node.Traits.{ErrorKind}
use xraft.Replication.Parts.{QuorumState, IoAction}
use xraft.Election.{
  Methods, ElectionState, handle_vote_request, maybe_step_down_on_higher_term, leaderless,
}
use xraft.Election.Votes.{Documented, persisted_before_granted}
use xraft.EventLoop.{EventLoop}
use xraft.EventLoop.Rpc.{on_vote_request, handle_rpc, run, turn, woken, check_timers, Wake}
use xraft.EventLoop.Votes.{loop_votes_once}
use xraft.EventLoop.Outcomes.{pre_vote_changes_nothing}
use xraft.IoStage
use xraft.IoStage.{
  take_turns, Progress, Stores, Disk, IoStage, Turn, in_order, store, transmit, storage_actions,
  network_actions,
}
use xraft.IoStage.Turns.{storage_left_after, network_left_after}
use xraft.IoStage.Schedules.{one_by_one, at_start, execute_any_order, reply_sent_before_vote_saved}
use xraft.Examples.World.{counting_clock, follower_state, three_voters, candidate_2}

abbrev with_node : (NodeState → NodeState) → ElectionState → ElectionState
with_node f s = record s { node = f s.node }

-- methods that do what their names say
abbrev methods : Methods
methods = record {
  become_follower = λ term leader deadline. with_node (λ s. record s {
    current_term = term;
    voted_for = none;
    role = Role.follower;
    leader_id = leader;
    election_deadline = deadline;
  });
  become_candidate = λ deadline. with_node (λ s. record s {
    current_term = s.current_term + 1;
    voted_for = some s.node_id;
    role = Role.candidate;
    votes_received = s.node_id ∷ [];
    election_deadline = deadline;
  });
  become_leader = λ now timeout. with_node (λ s. record s {
    role = Role.leader;
    leader_id = some s.node_id;
    check_quorum_deadline = now + timeout;
  });
  majority = λ s. length s.node.voter_set / 2 + 1;
  voter_count = λ s. length s.node.voter_set;
  is_voter = λ s. is_voter s.node.node_id s.node.voter_set;
  is_in_voter_set = λ id s. is_voter id s.node.voter_set;
  check_quorum = λ now interval s. true;
  record_fetch = λ id offset now s. s;
  update_last_log_term = λ term s. record s { last_log_term = term };
  clocks = counting_clock;
  Ear = List (NodeId × Term);
  handle_leader_change = λ id term heard. heard ++ ((id, term) ∷ []);
  begin_shutdown = λ heard. heard;
  Stage = List (List IoAction);
  execute = λ batch done. (ok tt, done ++ (batch ∷ []));
}

documented : Documented methods
documented = record {
  follower_term = λ t l d s. refl;
  candidate_term = λ d s. refl;
  leader_term = λ d n s. refl;
  leader_vote = λ d n s. refl;
  fetch_term = λ id o d s. refl;
  fetch_vote = λ id o d s. refl;
  log_term_term = λ t s. refl;
  log_term_vote = λ t s. refl;
}

abbrev voter_state : ElectionState
voter_state = record {
  node = record (follower_state three_voters) { election_deadline = 1000 };
  last_log_term = 0;
  check_quorum_interval = 150;
}

abbrev loop : EventLoop methods
loop = record { state = voter_state; clock = 0; io_stage = []; listener = []; published = [] }

abbrev granted : VoteResponse
granted = record { term = 1; vote_granted = true; is_pre_vote = false }

abbrev reply : RpcEnvelope
reply = record {
  cluster_id = 7;
  leader_epoch = 0;
  source = 1;
  payload = RpcPayload.vote_response granted;
}

replies :
    last? (handle_vote_request methods candidate_2 voter_state 0 []).2
    ≡ some (IoAction.send_rpc 2 reply)
unfolding handle_vote_request maybe_step_down_on_higher_term
replies = refl

persisted_before_granted_example :
    let (s', _, batch') = handle_vote_request methods candidate_2 voter_state 0 [] in
    ((qs : QuorumState) × (env : RpcEnvelope) × (resp : VoteResponse) × (batch'
        ≡ IoAction.persist_quorum_state qs ∷ IoAction.send_rpc 2 env ∷ [])
      × (env.payload ≡ RpcPayload.vote_response resp)
      × (resp.vote_granted ≡ true)
      × (resp.term ≡ s'.node.current_term)
      × (qs.voted_for ≡ some 2)
      × (qs.current_term ≡ s'.node.current_term)
      × (s'.node.voted_for ≡ some 2))
    ⊎ ((env : RpcEnvelope) × (resp : VoteResponse) × (batch' ≡ IoAction.send_rpc 2 env ∷ [])
        × (env.payload ≡ RpcPayload.vote_response resp)
        × (resp.vote_granted ≡ false)
        × (resp.term ≡ s'.node.current_term)
        × (s' ≡ (maybe_step_down_on_higher_term methods candidate_2.term voter_state 0).1))
persisted_before_granted_example = persisted_before_granted methods candidate_2 voter_state 0 []

grants : last? (on_vote_request candidate_2 loop []).1 ≡ some (IoAction.send_rpc 2 reply)
unfolding on_vote_request handle_vote_request maybe_step_down_on_higher_term
grants = refl

grants_again :
    last?
      (on_vote_request candidate_2
        (run (Wake.timer ∷ []) (on_vote_request candidate_2 loop []).0).1
        []).1
    ≡ some (IoAction.send_rpc 2 reply)
unfolding on_vote_request handle_vote_request maybe_step_down_on_higher_term run turn woken
    check_timers
grants_again = refl

loop_votes_once_example : candidate_2.candidate_id ≡ candidate_2.candidate_id
loop_votes_once_example =
    loop_votes_once documented candidate_2 candidate_2 loop [] [] reply reply granted granted
      (Wake.timer ∷ []) refl grants refl refl refl grants_again refl refl refl

abbrev pre_vote : RpcEnvelope
pre_vote = record {
  cluster_id = 7;
  leader_epoch = 0;
  source = 2;
  payload = RpcPayload.vote_request (record candidate_2 { term = 9; is_pre_vote = true });
}

pre_vote_changes_nothing_example :
    let l = (handle_rpc pre_vote loop).1 in
    (l.state.node
      ≡ record voter_state.node { pre_votes_received = l.state.node.pre_votes_received })
    × (l.state.last_log_term ≡ 0)
    × (l.listener ≡ [])
    × (l.clock ≡ 0)
pre_vote_changes_nothing_example = pre_vote_changes_nothing pre_vote loop refl

-- stores that keep what they are given; a quorum store that is `false` fails
abbrev save :
    QuorumState → Bool × List QuorumState → Result ErrorKind (Unit {0}) × (Bool × List QuorumState)
save q (true, qs) = (ok tt, (true, qs ++ (q ∷ [])))
save q (false, qs) = (err ErrorKind.other, (false, qs))

abbrev stores : Stores
stores = record {
  Log = List LogEntry;
  append = λ es log. (ok tt, log ++ es);
  truncate_suffix = λ from log. (ok tt, log);
  truncate_prefix = λ up_to log. (ok tt, log);
  Quorum = Bool × List QuorumState;
  save = save;
  Snapshots = List Snapshot;
  save_snapshot = λ s ss. (ok tt, ss ++ (s ∷ []));
  Outbox = List (NodeId × RpcEnvelope);
  send = λ id e out. (ok tt, out ++ ((id, e) ∷ []));
}

abbrev disk : Bool → List QuorumState → Disk stores
disk works saved = record { log_store = []; quorum_store = (works, saved); snapshot_io = [] }

abbrev vote_for_2 : QuorumState
vote_for_2 = leaderless 1 (some 2)

execute_any_order_example :
    ((p : Progress stores) × (take_turns (Turn.network ∷ Turn.network ∷ []) (
          at_start
            (IoAction.persist_quorum_state vote_for_2 ∷ IoAction.send_rpc 2 reply ∷ [])
            (record { disk = disk true []; transport = [] }))
        ≡ (ok tt, p))
      × (p.storage_left ≡ IoAction.persist_quorum_state vote_for_2 ∷ [])
      × (p.network_left ≡ []))
    × (IoStage.execute
          (Turn.network ∷ Turn.network ∷ [])
          (IoAction.persist_quorum_state vote_for_2 ∷ IoAction.send_rpc 2 reply ∷ [])
          (record { disk = disk true []; transport = [] })
        ≡ (ok tt, record { disk = disk true (vote_for_2 ∷ []); transport = (2, reply) ∷ [] }))
unfolding one_by_one store storage_left_after network_left_after storage_actions network_actions
execute_any_order_example =
    execute_any_order (Turn.network ∷ Turn.network ∷ [])
      (IoAction.persist_quorum_state vote_for_2 ∷ IoAction.send_rpc 2 reply ∷ [])
      (record { disk = disk true []; transport = [] })
      (record { disk = disk true (vote_for_2 ∷ []); transport = (2, reply) ∷ [] }) refl

reply_sent_before_vote_saved_example :
    (turns : List Turn) × (qs : QuorumState) × (qs.voted_for ≡ some 2)
    × (take_turns turns (
          at_start
            (handle_vote_request methods candidate_2 voter_state 0 []).2
            (record { disk = disk false []; transport = [] }))
        ≡ (
          ok tt,
          record {
            storage_left = IoAction.persist_quorum_state qs ∷ [];
            network_left = [];
            stage = record { disk = disk false []; transport = (2, reply) ∷ [] };
          },
        ))
    × (IoStage.execute turns
          (handle_vote_request methods candidate_2 voter_state 0 []).2
          (record { disk = disk false []; transport = [] })
        ≡ (err ErrorKind.other, record { disk = disk false []; transport = (2, reply) ∷ [] }))
reply_sent_before_vote_saved_example =
    reply_sent_before_vote_saved methods candidate_2 voter_state 0 reply granted (disk false []) []
      ((2, reply) ∷ []) replies refl refl refl
