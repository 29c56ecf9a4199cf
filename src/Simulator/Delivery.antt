-- ===== src/Simulator/Delivery.antt =====
-- The delivery of messages in xraft-transport/src/simulator.rs, and its senders.
use xraft.Prelude.{ℕ, Bool, false, Option, none, some, List, [], ◌∷◌, ◌++◌, leb, if◌then◌else◌}
use xraft.Prelude.Exec.{Result, ok}
use xraft.Types.{NodeId}
use xraft.Types.Rpc.{RpcEnvelope}
use xraft.Simulator.{
  Environment, SimulatorState, SendError, get, remove, upsert, update, rules_of, is_partitioned,
}

abbrev pub shuffled :
    (V : Environment) → Option (List RpcEnvelope) → V.Rng → List RpcEnvelope × V.Rng
shuffled V none rng = ([], rng)
shuffled V (some msgs) rng = V.shuffle msgs rng

module _ {V : Environment} where
  -- whether a roll of the die drops a message
  unfoldable pub rolls_drop : V.Probability → SimulatorState V → Bool × SimulatorState V
  rolls_drop p s =
      let (roll, rng) = V.gen s.rng in
      if V.is_positive p then (V.is_below roll p, record s { rng = rng }) else (false, s)

  -- the random numbers that a delay draws
  unfoldable pub delayed : Option (ℕ × ℕ) → SimulatorState V → SimulatorState V
  delayed none s = s
  delayed (some (lo, hi)) s =
      if leb hi lo then s else record s { rng = (V.gen_range lo hi s.rng).1 }

  unfoldable pub put :
      NodeId → RpcEnvelope → SimulatorState V → Result SendError (Unit {0}) × SimulatorState V
  put to message s =
      let (r, inboxes) = V.deliver to message s.inboxes in (r, record s { inboxes = inboxes })

  unfoldable pub apply_faults_and_deliver :
      NodeId
      → NodeId
      → RpcEnvelope
      → SimulatorState V
      → Result SendError (Unit {0}) × SimulatorState V
  apply_faults_and_deliver from to message s =
      let rules = rules_of (from, to) s in
      let (dropped, s') = rolls_drop rules.drop_probability s in
      if is_partitioned from to s
      then (ok tt, s)
      else if dropped
      then (ok tt, s')
      else put to message (delayed rules.delay_range s')

  -- one after the other; a failed delivery is only logged
  unfoldable pub deliver_all :
      NodeId → NodeId → List RpcEnvelope → SimulatorState V → SimulatorState V
  deliver_all from to [] s = s
  deliver_all from to (m ∷ ms) s = deliver_all from to ms (apply_faults_and_deliver from to m s).1

  unfoldable pub disable_reordering : NodeId → NodeId → SimulatorState V → SimulatorState V
  disable_reordering from to s =
      let link_rules = update (λ r. record r { reorder = false }) (from, to) s.link_rules in
      let (msgs, rng) = shuffled V (get (from, to) s.reorder_buffers) s.rng in
      deliver_all from to msgs (record s {
        link_rules = link_rules;
        reorder_buffers = remove (from, to) s.reorder_buffers;
        rng = rng;
      })

  unfoldable pub flush_reorder_buffer : NodeId → NodeId → SimulatorState V → SimulatorState V
  flush_reorder_buffer from to s =
      let (msgs, rng) = shuffled V (get (from, to) s.reorder_buffers) s.rng in
      deliver_all from to msgs
        (record s { reorder_buffers = update (λ _. []) (from, to) s.reorder_buffers; rng = rng })

  -- `SimulatorSender::send`, of the sender of a node
  unfoldable pub send :
      NodeId
      → NodeId
      → RpcEnvelope
      → SimulatorState V
      → Result SendError (Unit {0}) × SimulatorState V
  send source target message s =
      let rules = rules_of (source, target) s in
      let (dropped, s') = rolls_drop rules.drop_probability s in
      let kept = upsert [] (λ msgs. msgs ++ (message ∷ [])) (source, target) s'.reorder_buffers in
      if is_partitioned source target s
      then (ok tt, s)
      else if dropped
      then (ok tt, s')
      else if rules.reorder
      then (ok tt, record s' { reorder_buffers = kept })
      else put target message (delayed rules.delay_range s')
