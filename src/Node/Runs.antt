-- ===== src/Node/Runs.antt =====
-- Every run of a node: the steps that its owner can make, in any order and with any messages. The
-- term of a `u64` wraps around at its end, so a step that may start an election assumes room for
-- one more term.
use xraft.Prelude.{◌&&◌, leb, ◌+◌, ◌<◌, ◌^◌, ◌≡◌, List, arith, Bool-cases, inl, inr}
use xraft.Prelude.Exec.{bind_moves, ok, err}
use xraft.Types.{NodeId, NodeState, VoterInfo, ClusterId}
use xraft.Types.Rpc.{VoteRequest, VoteResponse, RpcEnvelope, RpcPayload}
use xraft.Node.Traits.{Traits, Io, ErrorKind}
use xraft.Node.State.{RaftNode}
use xraft.Node.Election.{
  can_start_election, handle_vote_request, handle_vote_response, handle_election_timeout,
}
use xraft.Node.Startup.{bootstrap}
use xraft.Node.Dispatch.{
  received, is_foreign, send_reply, dispatch, handle_rpc, tick, poll, receive, step,
}

module _ {T : Traits} where
  -- Room for one more term in a `u64`.
  abbrev pub HasRoom : RaftNode T → Type 0
  HasRoom n = n.state.current_term + 1 < 2 ^ 64

  -- What can happen to a node: a message, a timer, or the owner's bootstrap.
  pub data Step : RaftNode T → RaftNode T → Type 0 where
    rpc : (e : RpcEnvelope) (n : RaftNode T) → Step n (handle_rpc e n).1
    ticked : (n : RaftNode T) → HasRoom n → Step n (tick n).1
    polled : (n : RaftNode T) → HasRoom n → Step n (poll n).1
    received_one : (n : RaftNode T) → Step n (receive n).1
    stepped : (n : RaftNode T) → HasRoom n → Step n (step n).1
    formed : (c : ClusterId) (vs : List VoterInfo) (n : RaftNode T) → Step n (bootstrap c vs n).1

  pub data Run (n : RaftNode T) : RaftNode T → Type 0 where
    here : Run n n
    next : {m k : RaftNode T} → Run n m → Step m k → Run n k

  pub send_reply-state :
      (to : NodeId) (r : VoteResponse) (n : RaftNode T) → (send_reply to r n).1.state ≡ n.state
  unfolding send_reply
  send_reply-state to r n = ground arith

-- What the election is about: the state, and the store of the term and the vote.
abbrev pub View : Traits → Type 0
View T = NodeState × T.quorums.Quorum

module _ {T : Traits} where
  abbrev pub view : RaftNode T → View T
  view n = (n.state, n.quorum_state_store)

  send_reply-view :
      (to : NodeId) (r : VoteResponse) (n : RaftNode T) → view (send_reply to r n).1 ≡ view n
  unfolding send_reply
  send_reply-view to r n = ground arith

-- For a reflexive and transitive relation that the three handlers and `bootstrap` keep.
module _ {T : Traits} (R : View T → View T → Type 0) (refl' : (s : View T) → R s s)
    (trans : (s t u : View T) → R s t → R t u → R s u)
    (request : (r : VoteRequest) (n : RaftNode T) → R (view n) (view (handle_vote_request r n).1))
    (response : (from : NodeId) (r : VoteResponse) (n : RaftNode T)
      → R (view n) (view (handle_vote_response from r n).1))
    (timeout : (n : RaftNode T) → HasRoom n → R (view n) (view (handle_election_timeout n).1))
    (formation : (c : ClusterId) (vs : List VoterInfo) (n : RaftNode T)
      → R (view n) (view (bootstrap c vs n).1)) where
  dispatch-R :
      (source : NodeId) (p : RpcPayload) (n : RaftNode T)
      → R (view n) (view (dispatch source p n).1)
  unfolding dispatch
  dispatch-R source (RpcPayload.vote_request r) n =
      bind_moves (λ m k. R (view m) (view k)) (λ m k l. trans (view m) (view k) (view l))
        (handle_vote_request r) (send_reply source) n (request r n)
        (λ response _.
          rw (send_reply-view source response (handle_vote_request r n).1)
            (refl' (view (handle_vote_request r n).1)))
  dispatch-R source (RpcPayload.vote_response r) n = response source r n
  dispatch-R source _ n = refl' (view n)

  rpc-R : (e : RpcEnvelope) (n : RaftNode T) → R (view n) (view (handle_rpc e n).1)
  unfolding handle_rpc
  rpc-R e n = elim (Bool-cases (is_foreign e n)) [
    | inl f ↦ rw f (refl' (view n))
    | inr f ↦ rw f (dispatch-R e.source e.payload n)
  ]

  tick-R : (n : RaftNode T) → HasRoom n → R (view n) (view (tick n).1)
  unfolding tick
  tick-R n h =
      elim (Bool-cases (
        can_start_election n.state.role
        && leb n.state.election_deadline (T.clocks.now n.clock).0)) [
          | inl e ↦ rw e (timeout (record n { clock = (T.clocks.now n.clock).1 }) h)
          | inr e ↦ rw e (refl' (view n))
        ]

  poll-R : (n : RaftNode T) → HasRoom n → R (view n) (view (poll n).1)
  unfolding poll
  poll-R n h = elim (Bool-cases (can_start_election n.state.role)) [
    | inl e ↦
        rw e
          (timeout (record n { clock = T.clocks.sleep_until n.state.election_deadline n.clock }) h)
    | inr e ↦ rw e (refl' (view n))
  ]

  received-R : (r : Io RpcEnvelope) (n : RaftNode T) → R (view n) (view (received r n).1)
  received-R (ok e) n = rpc-R e n
  received-R (err ErrorKind.other) n = refl' (view n)
  received-R (err _) n = refl' (view n)

  receive-R : (n : RaftNode T) → R (view n) (view (receive n).1)
  unfolding receive
  receive-R n = let (r, i) = T.net.recv n.inbox in received-R r (record n { inbox = i })

  step-R : (n : RaftNode T) → HasRoom n → R (view n) (view (step n).1)
  unfolding step
  step-R n h =
      bind_moves (λ m k. R (view m) (view k)) (λ m k l. trans (view m) (view k) (view l)) tick
        (λ _. receive) n (tick-R n h) (λ _ _. receive-R (tick n).1)

  Step-R : {n m : RaftNode T} → Step n m → R (view n) (view m)
  Step-R (rpc e n) = rpc-R e n
  Step-R (ticked n h) = tick-R n h
  Step-R (polled n h) = poll-R n h
  Step-R (received_one n) = receive-R n
  Step-R (stepped n h) = step-R n h
  Step-R (formed c vs n) = formation c vs n

  pub Run_view_rule : {n m : RaftNode T} → Run n m → R (view n) (view m)
  Run_view_rule {n} here = refl' (view n)
  Run_view_rule (next r s) = trans _ _ _ (Run_view_rule r) (Step-R s)

-- The same for a relation on the states alone.
module _ {T : Traits} (R : NodeState → NodeState → Type 0) (refl' : (s : NodeState) → R s s)
    (trans : (s t u : NodeState) → R s t → R t u → R s u)
    (request : (r : VoteRequest) (n : RaftNode T) → R n.state (handle_vote_request r n).1.state)
    (response : (from : NodeId) (r : VoteResponse) (n : RaftNode T)
      → R n.state (handle_vote_response from r n).1.state)
    (timeout : (n : RaftNode T) → HasRoom n → R n.state (handle_election_timeout n).1.state)
    (formation : (c : ClusterId) (vs : List VoterInfo) (n : RaftNode T)
      → R n.state (bootstrap c vs n).1.state) where
  pub Run_rule : {n m : RaftNode T} → Run n m → R n.state m.state
  Run_rule run =
      Run_view_rule (λ s t. R s.0 t.0) (λ s. refl' s.0) (λ s t u. trans s.0 t.0 u.0) request
        response timeout formation run
