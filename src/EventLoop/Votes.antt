-- ===== src/EventLoop/Votes.antt =====
-- The term and the vote in the loop of xraft-core/src/event_loop.rs.
use xraft.Prelude.{
  ◌≡◌, refl, ap, sym, ◌∙◌, inl, inr, Bool, true, false, Bool-cases, some, List, [], ◌∷◌, arith, leb,
  ◌==◌, last?, if◌then◌else◌, not, ◌&&◌, ◌||◌,
}
use xraft.Prelude.Exec.{bind_moves, pure}
use xraft.Types.{NodeId}
use xraft.Types.Rpc.{
  RpcEnvelope, RpcPayload, vote_request, vote_response, fetch_request, VoteRequest, VoteResponse,
  FetchRequest,
}
use xraft.Replication.Parts.{IoAction, send_rpc}
use xraft.Election.{
  Methods, ElectionState, is_leader, is_candidate, is_follower, maybe_step_down_on_higher_term,
  start_election, handle_vote_request, record_vote,
}
use xraft.Election.Votes.{
  KeepsVote, KeepsVote-refl, KeepsVote-trans, KeepsVote-same, Documented, step_down-KeepsVote,
  start_election-KeepsVote, record_vote-KeepsVote, append_leader_change-KeepsVote,
  handle_vote_request-KeepsVote, granted_batch,
}
use xraft.EventLoop.{
  EventLoop, publish, execute, on_become_leader, become_leader, handle_check_quorum,
  handle_election_timeout, rpc, shutdown,
}
use xraft.EventLoop.Rpc.{
  effective_term, message_is_pre_vote, step_down, on_vote_request, count_vote, on_vote_response,
  on_fetch_request, on_payload, handle_rpc, check_timers, woken, turn, run, Wake, received, closed,
  timer,
}

abbrev LoopKeeps : {M : Methods} → EventLoop M → EventLoop M → Type 0
LoopKeeps l m = KeepsVote l.state.node m.state.node

module _ {M : Methods} (doc : Documented M) where
  become_leader-KeepsVote :
      (l : EventLoop M) (batch : List IoAction)
      → KeepsVote l.state.node (become_leader l batch).0.state.node
  unfolding become_leader on_become_leader
  become_leader-KeepsVote l batch =
      let s =
        M.become_leader (M.clocks.now l.clock).0
          (M.clocks.random_election_timeout (M.clocks.now l.clock).1).0 l.state in
      KeepsVote-trans
        (KeepsVote-same l.state.node s.node (doc.leader_term _ _ l.state)
          (doc.leader_vote _ _ l.state))
        (append_leader_change-KeepsVote doc s _)

  handle_check_quorum-KeepsVote :
      (l : EventLoop M) → KeepsVote l.state.node (handle_check_quorum l).1.state.node
  unfolding handle_check_quorum execute publish
  handle_check_quorum-KeepsVote l =
      let (now, c) = M.clocks.now l.clock in
      let ok? = M.check_quorum now l.state.check_quorum_interval l.state in
      elim (Bool-cases ok?) [
        | inl h ↦ rw h (KeepsVote-same l.state.node _ refl refl)
        | inr h ↦ rw h (KeepsVote-same l.state.node _ (doc.follower_term _ _ _ _) refl)
      ]

  handle_election_timeout-KeepsVote :
      (l : EventLoop M) → KeepsVote l.state.node (handle_election_timeout l).1.state.node
  unfolding handle_election_timeout execute publish
  handle_election_timeout-KeepsVote l =
      let start = start_election-KeepsVote doc l.state l.clock [] in
      let (s, c, batch) = start_election M l.state l.clock [] in
      elim (Bool-cases (M.is_voter l.state)) [
        | inr h ↦ rw h (KeepsVote-same l.state.node _ refl refl)
        | inl h ↦ elim (Bool-cases (M.voter_count s == 1)) [
          | inl k ↦ rw h (
              rw k (
                KeepsVote-trans start
                  (become_leader-KeepsVote (record l { state = s; clock = c }) batch)))
          | inr k ↦ rw h (rw k start)
        ]
      ]

  step_down_loop-KeepsVote :
      (e : RpcEnvelope) (l : EventLoop M) → KeepsVote l.state.node (step_down e l).1.state.node
  unfolding step_down
  step_down_loop-KeepsVote e l = elim (Bool-cases (message_is_pre_vote e.payload)) [
    | inl h ↦ rw h (KeepsVote-refl l.state.node)
    | inr h ↦
        elim (Bool-cases (maybe_step_down_on_higher_term M (effective_term e) l.state l.clock).0) [
          | inl k ↦ rw h (rw k (step_down-KeepsVote doc (effective_term e) l.state l.clock))
          | inr k ↦ rw h (rw k (KeepsVote-refl l.state.node))
        ]
  ]

  on_fetch_request-KeepsVote :
      (source : NodeId) (req : FetchRequest) (l : EventLoop M)
      → KeepsVote l.state.node (on_fetch_request source req l).state.node
  unfolding on_fetch_request
  on_fetch_request-KeepsVote source req l = elim (Bool-cases (is_leader l.state.node.role)) [
    | inl h ↦ rw h (KeepsVote-same l.state.node _ (doc.fetch_term _ _ _ _) (doc.fetch_vote _ _ _ _))
    | inr h ↦ rw h (KeepsVote-refl l.state.node)
  ]

  on_real_request :
      (req : VoteRequest) (l : EventLoop M) (batch : List IoAction)
      → req.is_pre_vote ≡ false
      → ((on_vote_request req l batch).0.state
          ≡ (handle_vote_request M req l.state l.clock batch).0)
        × ((on_vote_request req l batch).1 ≡ (handle_vote_request M req l.state l.clock batch).2)
  unfolding on_vote_request
  on_real_request req l batch h = (ground arith, ground arith)

  on_vote_request-KeepsVote :
      (req : VoteRequest) (l : EventLoop M) (batch : List IoAction)
      → KeepsVote l.state.node (on_vote_request req l batch).0.state.node
  unfolding on_vote_request handle_vote_request
  on_vote_request-KeepsVote req l batch = elim (Bool-cases req.is_pre_vote) [
    | inl h ↦ rw h (KeepsVote-refl l.state.node)
    | inr h ↦ rw h (handle_vote_request-KeepsVote doc req l.state l.clock batch)
  ]

  granted_vote :
      (req : VoteRequest) (l : EventLoop M) (batch : List IoAction) (env : RpcEnvelope)
      (resp : VoteResponse)
      → req.is_pre_vote ≡ false
      → last? (on_vote_request req l batch).1 ≡ some (send_rpc req.candidate_id env)
      → env.payload ≡ vote_response resp
      → resp.vote_granted ≡ true
      → ((on_vote_request req l batch).0.state.node.voted_for ≡ some req.candidate_id)
        × ((on_vote_request req l batch).0.state.node.current_term ≡ resp.term)
  granted_vote req l batch env resp r h p g =
      let (e, a) = on_real_request req l batch r in
      let (_, _, _, _, v, t) =
        granted_batch M req l.state l.clock batch env resp (ap last? (sym a) ∙ h) p g in
      (
        ap (λ (s : ElectionState). s.node.voted_for) e ∙ v,
        ap (λ (s : ElectionState). s.node.current_term) e ∙ t,
      )

  count_vote-KeepsVote :
      (source : NodeId) (l : EventLoop M) (batch : List IoAction)
      → KeepsVote l.state.node (count_vote source l batch).0.state.node
  unfolding count_vote
  count_vote-KeepsVote source l batch =
      let voted = record_vote-KeepsVote doc source l.state in
      let (has_majority, s) = record_vote M source l.state in
      elim (Bool-cases has_majority) [
        | inl h ↦
            rw h (KeepsVote-trans voted (become_leader-KeepsVote (record l { state = s }) batch))
        | inr h ↦ rw h voted
      ]

  on_vote_response-KeepsVote :
      (source : NodeId) (down : Bool) (resp : VoteResponse) (l : EventLoop M)
      (batch : List IoAction)
      → KeepsVote l.state.node (on_vote_response source down resp l batch).0.state.node
  unfolding on_vote_response
  on_vote_response-KeepsVote source down resp l batch =
      let same = resp.vote_granted && resp.term == l.state.node.current_term in
      elim (Bool-cases resp.is_pre_vote) [
        | inl h ↦ elim (Bool-cases same) [
          | inl k ↦ rw h (rw k (KeepsVote-same l.state.node _ refl refl))
          | inr k ↦ rw h (rw k (KeepsVote-refl l.state.node))
        ]
        | inr h ↦ elim (Bool-cases (not down && (is_candidate l.state.node.role && same))) [
          | inl k ↦ elim (Bool-cases (M.is_in_voter_set source l.state)) [
            | inl v ↦ rw h (rw k (rw v (count_vote-KeepsVote source l batch)))
            | inr v ↦ rw h (rw k (rw v (KeepsVote-refl l.state.node)))
          ]
          | inr k ↦ rw h (rw k (KeepsVote-refl l.state.node))
        ]
      ]

  on_payload-KeepsVote :
      (source : NodeId) (p : RpcPayload) (down : Bool) (l : EventLoop M) (batch : List IoAction)
      → KeepsVote l.state.node (on_payload source p down l batch).0.state.node
  unfolding on_payload
  on_payload-KeepsVote source (vote_request req) down l batch =
      on_vote_request-KeepsVote req l batch
  on_payload-KeepsVote source (vote_response resp) down l batch =
      on_vote_response-KeepsVote source down resp l batch
  on_payload-KeepsVote source (fetch_request req) down l batch =
      on_fetch_request-KeepsVote source req l
  on_payload-KeepsVote source _ down l batch = KeepsVote-refl l.state.node

  handle_rpc-KeepsVote :
      (e : RpcEnvelope) (l : EventLoop M) → KeepsVote l.state.node (handle_rpc e l).1.state.node
  unfolding handle_rpc execute publish
  handle_rpc-KeepsVote e l =
      let (down, l1, batch) = step_down e l in
      elim (Bool-cases (e.cluster_id == l.state.node.cluster_id)) [
        | inr h ↦ rw h (KeepsVote-refl l.state.node)
        | inl h ↦ rw h (
            KeepsVote-trans (step_down_loop-KeepsVote e l)
              (on_payload-KeepsVote e.source e.payload down l1 batch))
      ]

  check_timers-KeepsVote : (l : EventLoop M) → KeepsVote l.state.node (check_timers l).1.state.node
  unfolding check_timers
  check_timers-KeepsVote l =
      let (now, c) = M.clocks.now l.clock in
      let l' = record l { clock = c } in
      let s = l.state.node in
      elim (Bool-cases (is_leader s.role)) [
        | inl h ↦ elim (Bool-cases (leb s.check_quorum_deadline now)) [
          | inl k ↦ rw h (rw k (handle_check_quorum-KeepsVote l'))
          | inr k ↦ rw h (rw k (KeepsVote-refl s))
        ]
        | inr h ↦
            elim (Bool-cases
              ((is_follower s.role || is_candidate s.role) && leb s.election_deadline now)) [
                | inl k ↦ rw h (rw k (handle_election_timeout-KeepsVote l'))
                | inr k ↦ rw h (rw k (KeepsVote-refl s))
              ]
      ]

  woken-KeepsVote : (w : Wake) (l : EventLoop M) → KeepsVote l.state.node (woken w l).1.state.node
  unfolding woken
  woken-KeepsVote (received (rpc e)) l =
      bind_moves LoopKeeps (λ _ _ _. KeepsVote-trans) (handle_rpc e) _ l (handle_rpc-KeepsVote e l)
        (λ a h. KeepsVote-refl _)
  woken-KeepsVote (received shutdown) l = KeepsVote-refl l.state.node
  woken-KeepsVote closed l = KeepsVote-refl l.state.node
  woken-KeepsVote timer l = KeepsVote-refl l.state.node

  turn-KeepsVote : (w : Wake) (l : EventLoop M) → KeepsVote l.state.node (turn w l).1.state.node
  unfolding turn
  turn-KeepsVote w l =
      bind_moves LoopKeeps (λ _ _ _. KeepsVote-trans) check_timers _ l (check_timers-KeepsVote l)
        (λ a h. woken-KeepsVote w _)

  after_turn :
      (ws : List Wake) (on : Bool) (l : EventLoop M)
      → KeepsVote l.state.node (run ws l).1.state.node
      → KeepsVote l.state.node ((if on then run ws else pure tt) l).1.state.node
  after_turn ws true l h = h
  after_turn ws false l h = KeepsVote-refl l.state.node

  -- Whatever wakes the loop, timers that ran out included, and whatever I/O fails on the way, as long
  -- as the state's methods change the term and the vote only as their names and the comments at their
  -- calls say, the term never falls, and within one term a vote once given stands.
  pub run-KeepsVote :
      (ws : List Wake) (l : EventLoop M) → KeepsVote l.state.node (run ws l).1.state.node
  unfolding run
  run-KeepsVote [] l = KeepsVote-refl l.state.node
  run-KeepsVote (w ∷ ws) l =
      bind_moves LoopKeeps (λ _ _ _. KeepsVote-trans) (turn w) _ l (turn-KeepsVote w l)
        (λ a h. after_turn ws a (turn w l).1 (run-KeepsVote ws (turn w l).1))

  -- As long as the state's methods change the term and the vote only as their names and the comments
  -- at their calls say: if a real vote request is granted, which its reply, the last action of the
  -- batch, tells, and after any wakes of the loop a real vote request is granted with the same term in
  -- the reply, both requests name one candidate.
  pub loop_votes_once :
      (req req' : VoteRequest) (l : EventLoop M) (batch batch' : List IoAction)
      (env env' : RpcEnvelope) (resp resp' : VoteResponse) (ws : List Wake)
      → req.is_pre_vote ≡ false
      → last? (on_vote_request req l batch).1 ≡ some (send_rpc req.candidate_id env)
      → env.payload ≡ vote_response resp
      → resp.vote_granted ≡ true
      → req'.is_pre_vote ≡ false
      → last? (on_vote_request req' (run ws (on_vote_request req l batch).0).1 batch').1
        ≡ some (send_rpc req'.candidate_id env')
      → env'.payload ≡ vote_response resp'
      → resp'.vote_granted ≡ true
      → resp'.term ≡ resp.term
      → req'.candidate_id ≡ req.candidate_id
  loop_votes_once req req' l batch batch' env env' resp resp' ws r h p g r' h' p' g' same =
      let l1 = (on_vote_request req l batch).0 in
      let l2 = (run ws l1).1 in
      let (v, t) = granted_vote req l batch env resp r h p g in
      let (v', t') = granted_vote req' l2 batch' env' resp' r' h' p' g' in
      let kept = KeepsVote-trans (run-KeepsVote ws l1) (on_vote_request-KeepsVote req' l2 batch') in
      let stands = kept.vote_stands req.candidate_id (t' ∙ same ∙ sym t) v in cc (stands, v')
