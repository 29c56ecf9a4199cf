-- ===== src/Election.antt =====
-- xraft-core/src/election.rs: the election manager of the event loop. The methods that it calls on its
-- state, and two of the fields, are not in the repository's `NodeState`: the methods are parameters, and
-- the fields stand beside that record.
pub mod Votes
use xraft.Prelude.{
  ℕ, ◌+◌, ◌-◌, Bool, true, false, not, ◌&&◌, ◌||◌, Option, none, some, List, [], ◌∷◌, ◌++◌, ltb,
  leb, ◌==◌, length, u64_add, if◌then◌else◌,
}
use xraft.Prelude.Sets.{insert}
use xraft.Types.{
  NodeId, Term, Instant, NodeState, Role, VoterInfo, LogEntry, EntryType, ConsensusState,
}
use xraft.Types.Rpc.{
  RpcEnvelope, RpcPayload, vote_request, vote_response, VoteRequest, VoteResponse,
}
use xraft.Node.Traits.{Clock, ErrorKind}
use xraft.Prelude.Exec.{Result}
use xraft.Replication.Parts.{QuorumState, IoAction, persist_quorum_state, append_log, send_rpc}

pub record ElectionState : Type 0 where
  pub node : NodeState
  pub last_log_term : Term
  pub check_quorum_interval : ℕ

pub record Methods : Type 1 where
  pub become_follower : Term → Option NodeId → Instant → ElectionState → ElectionState
  pub become_candidate : Instant → ElectionState → ElectionState
  pub become_leader : Instant → ℕ → ElectionState → ElectionState
  pub majority : ElectionState → ℕ
  pub voter_count : ElectionState → ℕ
  pub is_voter : ElectionState → Bool
  pub is_in_voter_set : NodeId → ElectionState → Bool
  pub check_quorum : Instant → ℕ → ElectionState → Bool
  pub record_fetch : NodeId → ℕ → Instant → ElectionState → ElectionState
  pub update_last_log_term : Term → ElectionState → ElectionState
  pub clocks : Clock
  pub Ear : Type 0
  pub handle_leader_change : NodeId → Term → Ear → Ear
  pub begin_shutdown : Ear → Ear
  pub Stage : Type 0
  pub execute : List IoAction → Stage → Result ErrorKind (Unit {0}) × Stage

abbrev pub is_leader : Role → Bool
is_leader Role.leader = true
is_leader _ = false

abbrev pub is_candidate : Role → Bool
is_candidate Role.candidate = true
is_candidate _ = false

abbrev pub is_follower : Role → Bool
is_follower Role.follower = true
is_follower _ = false

-- what the handlers persist where they know of no leader
abbrev pub leaderless : Term → Option NodeId → QuorumState
leaderless term voted_for = record {
  current_term = term;
  voted_for = voted_for;
  leader_id = none;
  leader_epoch = 0;
}

-- `voted_for.is_some() && voted_for != Some(candidate_id)`
abbrev pub voted_for_another : NodeId → Option NodeId → Bool
voted_for_another id none = false
voted_for_another id (some v) = not (v == id)

abbrev pub refuses : VoteRequest → NodeState → Bool
refuses req s =
    is_leader s.role
    || (ltb req.term s.current_term || voted_for_another req.candidate_id s.voted_for)

-- the candidate's log is at least as up to date, or ours is empty
abbrev pub log_ok : VoteRequest → ElectionState → Bool
log_ok req s =
    ltb s.last_log_term req.last_log_term
    || ((req.last_log_term == s.last_log_term
          && leb (s.node.log_end_offset - 1) req.last_log_offset)
        || s.node.log_end_offset == 0)

-- an envelope of this node, with no leader epoch
abbrev pub envelope : NodeState → RpcPayload → RpcEnvelope
envelope s payload = record {
  cluster_id = s.cluster_id;
  leader_epoch = 0;
  source = s.node_id;
  payload = payload;
}

abbrev pub ask : ElectionState → List VoterInfo → List IoAction
ask s [] = []
ask s (v ∷ vs) =
    let rest = ask s vs in
    if v.node_id == s.node.node_id
    then rest
    else send_rpc v.node_id (
        envelope s.node (
          vote_request (record {
            term = s.node.current_term;
            candidate_id = s.node.node_id;
            last_log_offset = s.node.log_end_offset - 1;
            last_log_term = s.last_log_term;
            is_pre_vote = false;
          })))
      ∷ rest

-- `handle_pre_vote_request`, which reads the state only
unfoldable pub handle_pre_vote_request : ElectionState → VoteRequest → List IoAction → List IoAction
handle_pre_vote_request s req batch =
    let would_grant = if ltb req.term s.node.current_term then false else log_ok req s in
    batch
    ++ (send_rpc req.candidate_id (
          envelope s.node (
            vote_response (record {
              term = s.node.current_term;
              vote_granted = would_grant;
              is_pre_vote = true;
            })))
        ∷ [])

-- a vote that is granted is persisted before the reply
abbrev pub vote_reply : VoteRequest → Bool → NodeState → List IoAction
vote_reply req granted s =
    let persists =
      if granted
      then persist_quorum_state (record {
        current_term = s.current_term;
        voted_for = s.voted_for;
        leader_id = s.leader_id;
        leader_epoch = 0;
      })
        ∷ []
      else [] in
    persists
    ++ (send_rpc req.candidate_id (
          envelope s (
            vote_response
              (record { term = s.current_term; vote_granted = granted; is_pre_vote = false })))
        ∷ [])

module _ (M : Methods) where
  -- `clock.now() + clock.random_election_timeout()`
  abbrev pub later : M.clocks.Time → Instant × M.clocks.Time
  later c =
      let (now, c') = M.clocks.now c in
      let (timeout, c'') = M.clocks.random_election_timeout c' in (now + timeout, c'')

  unfoldable pub maybe_step_down_on_higher_term :
      Term → ElectionState → M.clocks.Time → Bool × ElectionState × M.clocks.Time
  maybe_step_down_on_higher_term message_term s c =
      let (deadline, c') = later c in
      if ltb s.node.current_term message_term
      then (true, M.become_follower message_term none deadline s, c')
      else (false, s, c)

  unfoldable pub start_election :
      ElectionState → M.clocks.Time → List IoAction → ElectionState × M.clocks.Time × List IoAction
  start_election s c batch =
      let (deadline, c') = later c in
      let s' = M.become_candidate deadline s in
      (
        s',
        c',
        batch
            ++ (persist_quorum_state (leaderless s'.node.current_term s'.node.voted_for)
                ∷ ask s' s'.node.voter_set),
      )

  -- the vote and the new deadline
  abbrev pub decide :
      VoteRequest → ElectionState → M.clocks.Time → Bool × ElectionState × M.clocks.Time
  decide req s c =
      let (deadline, c') = later c in
      if refuses req s.node
      then (false, s, c)
      else if log_ok req s
      then (
        true,
        record s {
          node = record s.node { voted_for = some req.candidate_id; election_deadline = deadline };
        },
        c',
      )
      else (false, s, c)

  unfoldable pub handle_vote_request :
      VoteRequest
      → ElectionState
      → M.clocks.Time
      → List IoAction
      → ElectionState × M.clocks.Time × List IoAction
  handle_vote_request req s c batch =
      let (_, s1, c1) = maybe_step_down_on_higher_term req.term s c in
      let (granted, s2, c2) = decide req s1 c1 in (s2, c2, batch ++ vote_reply req granted s2.node)

  -- it only steps down: the votes are counted by the event loop
  unfoldable pub handle_vote_response :
      VoteResponse → ElectionState → M.clocks.Time → Bool × ElectionState × M.clocks.Time
  handle_vote_response resp s c =
      let (deadline, c') = later c in
      if ltb s.node.current_term resp.term
      then (false, M.become_follower resp.term none deadline s, c')
      else (false, s, c)

  unfoldable pub record_vote : NodeId → ElectionState → Bool × ElectionState
  record_vote voter s =
      if not (is_candidate s.node.role)
      then (false, s)
      else let s' = record s {
        node = record s.node { votes_received = insert voter s.node.votes_received };
      } in
        (leb (M.majority s') (length s'.node.votes_received), s')

  unfoldable pub append_leader_change_message :
      ElectionState → List IoAction → LogEntry × ElectionState × List IoAction
  append_leader_change_message s batch =
      let entry : LogEntry = record {
        offset = s.node.log_end_offset;
        term = s.node.current_term;
        entry_type = EntryType.leader_change_message;
        payload = [];
      } in
      let s' = record s {
        node = record s.node { log_end_offset = u64_add s.node.log_end_offset 1 };
      } in
      (
        entry,
        M.update_last_log_term s'.node.current_term s',
        batch ++ (append_log (entry ∷ []) ∷ []),
      )
