-- ===== src/Node/Election.antt =====
-- The election handlers of xraft-core/src/raft_node.rs.
use xraft.Prelude.{
  ℕ, ◌-◌, Bool, true, false, not, ◌&&◌, ◌||◌, Option, none, some, List, [], ◌∷◌, ltb, leb, ◌==◌,
  length, if◌then◌else◌, u64_add,
}
use xraft.Prelude.Sets.{insert}
use xraft.Prelude.Exec.{ok, err, pure, raise, gets, ◌>>◌}
use xraft.Types.{NodeId, Term, NodeState, Role, LogEntry, EntryType, VoterInfo, is_voter}
use xraft.Types.Rpc.{VoteRequest, VoteResponse, RpcEnvelope, RpcPayload}
use xraft.Node.Traits.{Traits, Transport, Io, storage_error, invalid_election_state}
use xraft.Node.State.{
  RaftNode, Method, storage, modify, reset_election_timer, save_quorum_state, has_quorum,
  last_log_info, log_has_voters_record,
}

abbrev pub is_candidate : Role → Bool
is_candidate Role.candidate = true
is_candidate _ = false

-- `role == Follower || role == Candidate`
abbrev pub can_start_election : Role → Bool
can_start_election Role.follower = true
can_start_election Role.candidate = true
can_start_election _ = false

abbrev pub reply : VoteRequest → Bool → NodeState → VoteResponse
reply request granted s = record {
  term = s.current_term;
  vote_granted = granted;
  is_pre_vote = request.is_pre_vote;
}

-- `log_ok`: the candidate's log is at least as up to date as a log that ends at `last`.
abbrev pub log_ok : VoteRequest → ℕ × Term → Bool
log_ok request last =
    ltb last.1 request.last_log_term
    || (request.last_log_term == last.1 && leb last.0 request.last_log_offset)

abbrev pub can_vote : Option NodeId → NodeId → Bool
can_vote none candidate = true
can_vote (some voted) candidate = voted == candidate

-- The fields that a message of a higher term resets.
abbrev pub to_follower : Term → NodeState → NodeState
to_follower term s = record s {
  current_term = term;
  voted_for = none;
  role = Role.follower;
  leader_id = none;
  votes_received = [];
}

-- The fields that an election timeout sets.
abbrev pub to_candidate : NodeState → NodeState
to_candidate s = record s {
  current_term = u64_add s.current_term 1;
  voted_for = some s.node_id;
  role = Role.candidate;
  leader_id = none;
  votes_received = insert s.node_id [];
}

-- The fields that a won election sets, with the log's end.
abbrev pub lead : ℕ → NodeState → NodeState
lead end s = record s {
  role = Role.leader;
  leader_id = some s.node_id;
  log_end_offset = end;
  high_watermark = if length s.voter_set == 1 then end else s.high_watermark;
}

-- To every other voter; a failed send is logged and forgotten
unfoldable pub send_all :
    (N : Transport) → NodeId → RpcEnvelope → List VoterInfo → N.Outbox → N.Outbox
send_all N self envelope [] out = out
send_all N self envelope (v ∷ vs) out =
    send_all N self envelope vs
      (if v.node_id == self then out else (N.send v.node_id envelope out).1)

-- a granted, real vote of this term, from a voter, while still a candidate
abbrev pub counts : NodeId → VoteResponse → NodeState → Bool
counts from response s =
    is_candidate s.role
    && (response.term == s.current_term)
    && not response.is_pre_vote
    && is_voter from s.voter_set
    && response.vote_granted

module _ {T : Traits} where
  -- on a message of a higher term: follow it, restart the timer, make the term durable
  unfoldable pub adopt_term : Term → Method T (Unit {0})
  adopt_term term = do modify (to_follower term); reset_election_timer; save_quorum_state none

  unfoldable pub grant_vote : NodeId → Method T (Unit {0})
  grant_vote candidate = do
    modify (λ s. record s { voted_for = some candidate })
    save_quorum_state (some candidate)
    reset_election_timer

  -- `handle_vote_request` once the term is settled
  unfoldable pub decide_vote : VoteRequest → Method T VoteResponse
  decide_vote request n =
      let granted =
        can_vote n.state.voted_for request.candidate_id && log_ok request (last_log_info n) in
      (if ltb request.term n.state.current_term
          then gets (λ m. reply request false m.state)
          else if granted && not request.is_pre_vote
          then (do grant_vote request.candidate_id; gets (λ m. reply request granted m.state))
          else gets (λ m. reply request granted m.state))
        n

  unfoldable pub handle_vote_request : VoteRequest → Method T VoteResponse
  handle_vote_request request n =
      (if is_voter request.candidate_id n.state.voter_set
          then (if ltb n.state.current_term request.term
              then (do adopt_term request.term; decide_vote request)
              else decide_vote request)
          else gets (λ m. reply request false m.state))
        n

  -- the two appends of `become_leader`
  unfoldable pub append_leader_change : Method T (Unit {0})
  append_leader_change n =
      let entry : LogEntry = record {
        offset = T.logs.log_end_offset n.log_store;
        term = n.state.current_term;
        entry_type = EntryType.leader_change_message;
        payload = [];
      } in
      let (r, l) = T.logs.append (entry ∷ []) n.log_store in (storage r, record n { log_store = l })

  -- a failed append takes the entry before it back
  abbrev undo_on_error : Io (Unit {0}) → Method T (Unit {0})
  undo_on_error (ok done) n = (ok done, n)
  undo_on_error (err e) n =
      let (r, l) = T.logs.truncate_suffix (T.logs.log_end_offset n.log_store - 1) n.log_store in
      (err (storage_error e), record n { log_store = l })

  abbrev append_payload : Io (List ℕ) → Method T (Unit {0})
  append_payload (err e) n = (err (storage_error e), n)
  append_payload (ok payload) n =
      let entry : LogEntry = record {
        offset = T.logs.log_end_offset n.log_store;
        term = n.state.current_term;
        entry_type = EntryType.voters_record;
        payload = payload;
      } in
      let (r, l) = T.logs.append (entry ∷ []) n.log_store in
      undo_on_error r (record n { log_store = l })

  unfoldable pub append_voters_record : Method T (Unit {0})
  append_voters_record n =
      append_payload (T.app.serialize (record { version = 1; voters = n.state.voter_set })) n

  -- the role changes only after every append succeeded
  unfoldable pub take_leadership : Method T (Unit {0})
  take_leadership n = (
    ok tt,
    record n {
      state = lead (T.logs.log_end_offset n.log_store) n.state;
      listener = T.app.handle_leader_change n.state.node_id n.state.current_term n.listener;
    },
  )

  unfoldable pub become_leader : Method T (Unit {0})
  become_leader n =
      (if log_has_voters_record n
          then (do append_leader_change; take_leadership)
          else (do append_leader_change; append_voters_record; take_leadership))
        n

  unfoldable pub broadcast_vote_requests : Method T (Unit {0})
  broadcast_vote_requests n =
      let (last_log_offset, last_log_term) = last_log_info n in
      let request : VoteRequest = record {
        term = n.state.current_term;
        candidate_id = n.state.node_id;
        last_log_offset = last_log_offset;
        last_log_term = last_log_term;
        is_pre_vote = false;
      } in
      let envelope : RpcEnvelope = record {
        cluster_id = n.state.cluster_id;
        leader_epoch = 0;
        source = n.state.node_id;
        payload = RpcPayload.vote_request request;
      } in
      (
        ok tt,
        record n { outbox = send_all T.net n.state.node_id envelope n.state.voter_set n.outbox },
      )

  unfoldable pub after_self_vote : Method T (Unit {0})
  after_self_vote n =
      (if has_quorum n.state
          then become_leader
          else (do broadcast_vote_requests; reset_election_timer))
        n

  unfoldable pub handle_election_timeout : Method T (Unit {0})
  handle_election_timeout n =
      (if can_start_election n.state.role
          then (do modify to_candidate; save_quorum_state (some n.state.node_id); after_self_vote)
          else raise (invalid_election_state n.state.role))
        n

  unfoldable pub record_vote : NodeId → Method T (Unit {0})
  record_vote from n =
      let n' : RaftNode T = record n {
        state = record n.state { votes_received = insert from n.state.votes_received };
      } in
      (if has_quorum n'.state then become_leader else pure tt) n'

  unfoldable pub handle_vote_response : NodeId → VoteResponse → Method T (Unit {0})
  handle_vote_response from response n =
      (if ltb n.state.current_term response.term
          then adopt_term response.term
          else if counts from response n.state
          then record_vote from
          else pure tt)
        n
