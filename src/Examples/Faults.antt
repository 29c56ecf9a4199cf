-- ===== src/Examples/Faults.antt =====
-- A network whose dice drop nothing, and the theorems on it and on the tests' state machine.
use xraft.Prelude.{ℕ, ◌≡◌, refl, true, false, List, [], ◌∷◌, ◌++◌, arith}
use xraft.Prelude.Exec.{ok}
use xraft.Types.{NodeId}
use xraft.Types.Rpc.{RpcEnvelope, RpcPayload}
use xraft.Simulator.{Environment, SimulatorState, partition}
use xraft.Simulator.Delivery.{send, flush_reorder_buffer, disable_reordering}
use xraft.Simulator.Partitions.{waiting, partitioned_link_delivers_nothing}
use xraft.TestStateMachine.{TestStateMachine, snapshot, restore}
use xraft.TestStateMachine.Snapshots.{restore-snapshot}

abbrev environment : Environment
environment = record {
  Probability = ℕ;
  zero_probability = 0;
  clamp = λ p. p;
  is_positive = λ p. false;
  is_below = λ p q. false;
  Rng = ℕ;
  gen = λ n. (n, n);
  gen_range = λ lo hi n. (lo, n);
  shuffle = λ msgs n. (msgs, n);
  Inboxes = List (NodeId × RpcEnvelope);
  deliver = λ id e inboxes. (ok tt, inboxes ++ ((id, e) ∷ []));
}

abbrev message : RpcEnvelope
message = record {
  cluster_id = 7;
  leader_epoch = 0;
  source = 1;
  payload =
      RpcPayload.vote_response (record { term = 1; vote_granted = true; is_pre_vote = false });
}

-- a message from 1 to 3 is buffered
abbrev state : SimulatorState environment
state = record {
  link_rules = [];
  partitions = (2, 1) ∷ [];
  reorder_buffers = ((1, 3), message ∷ []) ∷ [];
  rng = 0;
  inboxes = [];
}

partitioned_link_delivers_nothing_example :
    let apart = partition (1 ∷ 2 ∷ []) (3 ∷ []) state in
    let flushed = flush_reorder_buffer 1 3 apart in
    let disabled = disable_reordering 1 3 apart in
    (send 1 3 message apart ≡ (ok tt, apart))
    × (flushed.inboxes ≡ [])
    × (waiting (1, 3) flushed ≡ [])
    × (disabled.inboxes ≡ [])
    × (waiting (1, 3) disabled ≡ [])
partitioned_link_delivers_nothing_example =
    partitioned_link_delivers_nothing (1 ∷ 2 ∷ []) (3 ∷ []) 1 3 message state refl (tt, tt)

abbrev machine : TestStateMachine
machine = record {
  applied = (3, 10 ∷ 20 ∷ []) ∷ (300, []) ∷ [];
  applied_history = [];
  apply_order = [];
  duplicate_apply_count = 4;
}

restore-snapshot_example : restore (snapshot machine) machine ≡ record {
  applied = machine.applied;
  applied_history = machine.applied;
  apply_order = 3 ∷ 300 ∷ [];
  duplicate_apply_count = 0;
}
restore-snapshot_example =
    restore-snapshot machine machine (omega arith, (omega arith, tt))
      (omega arith, omega arith, (omega arith, omega arith, tt))
