-- ===== src/EventLoop/Rpc.antt =====
-- `EventLoop::handle_rpc` and `EventLoop::run` of xraft-core/src/event_loop.rs.
use xraft.Prelude.{
  Bool, true, false, not, ◌&&◌, ◌||◌, none, List, [], ◌∷◌, leb, ◌==◌, if◌then◌else◌,
}
use xraft.Prelude.Sets.{insert}
use xraft.Prelude.Exec.{ok, ◌>>=◌, ◌>>◌, pure}
use xraft.Types.{NodeId, Term}
use xraft.Types.Rpc.{
  RpcEnvelope, RpcPayload, vote_request, vote_response, fetch_request, fetch_response, VoteRequest,
  VoteResponse, FetchRequest,
}
use xraft.Replication.Parts.{IoAction, persist_quorum_state}
use xraft.Election.{
  Methods, is_leader, is_follower, is_candidate, leaderless, maybe_step_down_on_higher_term,
  handle_vote_request, handle_pre_vote_request, record_vote,
}
use xraft.EventLoop.{
  EventLoop, EventLoopMessage, rpc, shutdown, Handler, publish, execute, become_leader,
  handle_check_quorum, handle_election_timeout,
}

abbrev pub message_is_pre_vote : RpcPayload → Bool
message_is_pre_vote (vote_request req) = req.is_pre_vote
message_is_pre_vote (vote_response resp) = resp.is_pre_vote
message_is_pre_vote _ = false

-- the term that a message makes this node step down for
abbrev pub effective_term : RpcEnvelope → Term
effective_term e = term_of e.payload
  where
    term_of : RpcPayload → Term
    term_of (vote_request req) = req.term
    term_of (vote_response resp) = resp.term
    term_of (fetch_response resp) = resp.leader_epoch
    term_of _ = e.leader_epoch

module _ {M : Methods} where
  -- the step-down before a real message, and what it persists
  unfoldable pub step_down : RpcEnvelope → EventLoop M → Bool × EventLoop M × List IoAction
  step_down e l =
      let (down, s, c) = maybe_step_down_on_higher_term M (effective_term e) l.state l.clock in
      if message_is_pre_vote e.payload
      then (false, l, [])
      else if down
      then (
        true,
        record l { state = s; clock = c },
        persist_quorum_state (leaderless s.node.current_term none) ∷ [],
      )
      else (false, l, [])

  unfoldable pub on_vote_request :
      VoteRequest → EventLoop M → List IoAction → EventLoop M × List IoAction
  on_vote_request req l batch =
      let (s, c, batch') = handle_vote_request M req l.state l.clock batch in
      if req.is_pre_vote
      then (l, handle_pre_vote_request l.state req batch)
      else (record l { state = s; clock = c }, batch')

  unfoldable pub count_vote : NodeId → EventLoop M → List IoAction → EventLoop M × List IoAction
  count_vote source l batch =
      let (has_majority, s) = record_vote M source l.state in
      let counted = record l { state = s } in
      let (won, batch') = become_leader counted batch in
      if has_majority then (won, batch') else (counted, batch)

  unfoldable pub on_vote_response :
      NodeId → Bool → VoteResponse → EventLoop M → List IoAction → EventLoop M × List IoAction
  on_vote_response source stepped_down resp l batch =
      let s = l.state.node in
      let same_term = resp.vote_granted && resp.term == s.current_term in
      let pre = record s { pre_votes_received = insert source s.pre_votes_received } in
      if resp.is_pre_vote
      then (if same_term then record l { state = record l.state { node = pre } } else l, batch)
      else if not stepped_down && (is_candidate s.role && same_term)
      then (if M.is_in_voter_set source l.state then count_vote source l batch else (l, batch))
      else (l, batch)

  unfoldable pub on_fetch_request : NodeId → FetchRequest → EventLoop M → EventLoop M
  on_fetch_request source req l =
      let (now, c) = M.clocks.now l.clock in
      if is_leader l.state.node.role
      then record l { state = M.record_fetch source req.fetch_offset now l.state; clock = c }
      else l

  -- The messages that are handled elsewhere leave the loop as it is, as do those for the membership,
  -- for which the match has no arm.
  unfoldable pub on_payload :
      NodeId → RpcPayload → Bool → EventLoop M → List IoAction → EventLoop M × List IoAction
  on_payload source (vote_request req) stepped_down l batch = on_vote_request req l batch
  on_payload source (vote_response resp) stepped_down l batch =
      on_vote_response source stepped_down resp l batch
  on_payload source (fetch_request req) stepped_down l batch =
      (on_fetch_request source req l, batch)
  on_payload source _ stepped_down l batch = (l, batch)

  unfoldable pub handle_rpc : RpcEnvelope → Handler M (Unit {0})
  handle_rpc e l =
      let (stepped_down, l1, batch1) = step_down e l in
      let (l2, batch2) = on_payload e.source e.payload stepped_down l1 batch1 in
      if not (e.cluster_id == l.state.node.cluster_id)
      then (ok tt, l)
      else execute batch2 (publish l2)

  -- the timers, before the loop waits
  unfoldable pub check_timers : Handler M (Unit {0})
  check_timers l =
      let (now, c) = M.clocks.now l.clock in
      let l' = record l { clock = c } in
      let s = l.state.node in
      if is_leader s.role
      then (if leb s.check_quorum_deadline now then handle_check_quorum l' else (ok tt, l'))
      else if (is_follower s.role || is_candidate s.role) && leb s.election_deadline now
      then handle_election_timeout l'
      else (ok tt, l')

-- What ends the wait: a message, the end of the channel, or the timer.
pub data Wake : Type 0 where
  received : EventLoopMessage → Wake
  closed timer : Wake

module _ {M : Methods} where
  abbrev stop : Handler M Bool
  stop l = (ok false, record l { listener = M.begin_shutdown l.listener })

  abbrev sleep : Handler M Bool
  sleep l =
      let s = l.state.node in
      let deadline = if is_leader s.role then s.check_quorum_deadline else s.election_deadline in
      (ok true, record l { clock = M.clocks.sleep_until deadline l.clock })

  -- whether the loop goes on
  unfoldable pub woken : Wake → Handler M Bool
  woken (received (rpc e)) = do handle_rpc e; pure true
  woken (received shutdown) = stop
  woken closed = stop
  woken timer = sleep

  unfoldable pub turn : Wake → Handler M Bool
  turn w = do check_timers; woken w

  -- `run`, for as long as the wakes given last
  unfoldable pub run : List Wake → Handler M (Unit {0})
  run [] = pure tt
  run (w ∷ ws) = do on ← turn w; (if on then run ws else pure tt)
