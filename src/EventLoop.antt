-- ===== src/EventLoop.antt =====
-- xraft-core/src/event_loop.rs: the loop that drives the elections. What it publishes on its watch
-- channel is kept as a list. `select!` wakes it with a message or with the timer, as the wakes say.
pub mod Rpc
pub mod Votes
pub mod Outcomes
use xraft.Prelude.{
  ℕ, ◌+◌, Bool, true, false, not, ◌&&◌, ◌||◌, Option, none, some, List, [], ◌∷◌, ◌++◌, leb, ◌==◌,
  if◌then◌else◌,
}
use xraft.Prelude.Sets.{insert}
use xraft.Prelude.Exec.{Result, ok, err, Exec, ◌>>=◌, ◌>>◌, pure}
use xraft.Types.{NodeId, Term, NodeState, ConsensusState, project}
use xraft.Types.Rpc.{
  RpcEnvelope, RpcPayload, vote_request, vote_response, fetch_request, fetch_response, VoteRequest,
  VoteResponse, FetchRequest,
}
use xraft.Node.Traits.{ErrorKind}
use xraft.Replication.Parts.{QuorumState, IoAction, persist_quorum_state}
use xraft.Election.{
  Methods, ElectionState, is_leader, is_follower, is_candidate, leaderless, later,
  maybe_step_down_on_higher_term, start_election, handle_vote_request, handle_pre_vote_request,
  record_vote, append_leader_change_message,
}

pub data EventLoopMessage : Type 0 where
  rpc : RpcEnvelope → EventLoopMessage
  shutdown : EventLoopMessage

pub record EventLoop (M : Methods) : Type 0 where
  pub state : ElectionState
  pub clock : M.clocks.Time
  pub io_stage : M.Stage
  pub listener : M.Ear
  pub published : List ConsensusState

-- A method of the loop: an I/O error comes out of it, and what it wrote before stays.
abbrev pub Handler : Methods → Type 0 → Type 0
Handler M A = Exec (EventLoop M) ErrorKind A

module _ {M : Methods} where
  -- `state_tx.send(state.project())`, then `io_stage.execute(&batch)`
  unfoldable pub publish : EventLoop M → EventLoop M
  publish l = record l { published = l.published ++ (project l.state.node ∷ []) }

  unfoldable pub execute : List IoAction → Handler M (Unit {0})
  execute batch l =
      let (r, stage) = M.execute batch l.io_stage in (r, record l { io_stage = stage })

  -- the leader's vote and leadership are persisted, its first entry appended, its listener told
  unfoldable pub on_become_leader : EventLoop M → List IoAction → EventLoop M × List IoAction
  on_become_leader l batch =
      let persisted : QuorumState = record {
        current_term = l.state.node.current_term;
        voted_for = l.state.node.voted_for;
        leader_id = some l.state.node.node_id;
        leader_epoch = l.state.node.current_term;
      } in
      let (entry, s, batch') =
        append_leader_change_message M l.state (batch ++ (persist_quorum_state persisted ∷ [])) in
      (
        record l {
          state = s;
          listener = M.handle_leader_change s.node.node_id s.node.current_term l.listener;
        },
        batch',
      )

  unfoldable pub become_leader : EventLoop M → List IoAction → EventLoop M × List IoAction
  become_leader l batch =
      let (now, c) = M.clocks.now l.clock in
      let (timeout, c') = M.clocks.random_election_timeout c in
      on_become_leader (record l { state = M.become_leader now timeout l.state; clock = c' }) batch

  unfoldable pub handle_check_quorum : Handler M (Unit {0})
  handle_check_quorum l =
      let (now, c) = M.clocks.now l.clock in
      let interval = l.state.check_quorum_interval in
      let (timeout, c') = M.clocks.random_election_timeout c in
      let kept = l.state.node.voted_for in
      let s = M.become_follower l.state.node.current_term none (now + timeout) l.state in
      let s' = record s { node = record s.node { voted_for = kept } } in
      if M.check_quorum now interval l.state
      then (
        ok tt,
        publish (record l {
          state = record l.state {
            node = record l.state.node { check_quorum_deadline = now + interval };
          };
          clock = c;
        }),
      )
      else execute (persist_quorum_state (leaderless s'.node.current_term kept) ∷ [])
          (publish (record l { state = s'; clock = c' }))

  unfoldable pub handle_election_timeout : Handler M (Unit {0})
  handle_election_timeout l =
      let (deadline, c) = later M l.clock in
      let (s, c', batch) = start_election M l.state l.clock [] in
      let started = record l { state = s; clock = c' } in
      let (won, batch') = become_leader started batch in
      if not (M.is_voter l.state)
      then (
        ok tt,
        record l {
          state = record l.state { node = record l.state.node { election_deadline = deadline } };
          clock = c;
        },
      )
      else if M.voter_count s == 1
      then execute batch' (publish won)
      else execute batch (publish started)
