-- ===== src/Simulator/Partitions.antt =====
-- Partitions in xraft-transport/src/simulator.rs.
use xraft.Prelude.{
  ◌≡◌, refl, ap, inl, inr, Bool, true, false, none, some, All, ◌∙◌, ◌&&◌, ◌||◌, Bool-cases, List,
  [], ◌∷◌, arith, ◌==◌,
}
use xraft.Prelude.Sets.{contains}
use xraft.Prelude.Exec.{ok}
use xraft.Types.{NodeId}
use xraft.Types.Rpc.{RpcEnvelope}
use xraft.Simulator.{
  Environment, SimulatorState, Link, same_link, blocks, block, block_all, block_sets, partition,
  is_partitioned, get, remove, update,
}
use xraft.Simulator.Delivery.{
  apply_faults_and_deliver, deliver_all, send, flush_reorder_buffer, disable_reordering,
}

blocks-same :
    (ks : List Link) (a b c d : NodeId)
    → (a == c && b == d) ≡ true
    → blocks ks (c, d) ≡ blocks ks (a, b)
blocks-same [] a b c d h = refl
blocks-same ((x, y) ∷ ks) a b c d h = ground (arith, blocks-same ks a b c d)

blocks-block :
    (j : Link) (ks : List Link) (k : Link) → blocks (block j ks) k ≡ (same_link j k || blocks ks k)
blocks-block (a, b) ks (c, d) = elim (Bool-cases (blocks ks (a, b))) [
  | inl h ↦ ground (arith, blocks-same ks a b c d)
  | inr h ↦ ground arith
]

-- the pair lies across the sets, one way
abbrev crosses : List NodeId → List NodeId → Link → Bool
crosses set_a set_b (from, to) = contains from set_a && contains to set_b

blocks-block_all :
    (a : NodeId) (bs : List NodeId) (ks : List Link) (c d : NodeId)
    → blocks (block_all a bs ks) (c, d)
      ≡ (blocks ks (c, d) || ((a == c && contains d bs) || (contains c bs && a == d)))
blocks-block_all a [] ks c d = ground arith
blocks-block_all a (b ∷ bs) ks c d = ground (
  arith,
  blocks-block_all a bs (block (b, a) (block (a, b) ks)) c d,
  blocks-block (b, a) (block (a, b) ks) (c, d),
  blocks-block (a, b) ks (c, d),
)

blocks-block_sets :
    (left bs : List NodeId) (ks : List Link) (c d : NodeId)
    → blocks (block_sets left bs ks) (c, d)
      ≡ (blocks ks (c, d) || (crosses left bs (c, d) || crosses left bs (d, c)))
blocks-block_sets [] bs ks c d = ground arith
blocks-block_sets (a ∷ left) bs ks c d =
    ground (arith, blocks-block_sets left bs (block_all a bs ks) c d, blocks-block_all a bs ks c d)

-- each link has one buffer at most
abbrev pub AreApart : List (Link × List RpcEnvelope) → Type 0
AreApart [] = Unit
AreApart ((j, msgs) ∷ rest) = All (λ p. same_link p.0 j ≡ false) rest × AreApart rest

emptied :
    (k : Link) (buffers : List (Link × List RpcEnvelope))
    → (elim (get k (update (λ _. []) k buffers)) [ none ↦ [] | some msgs ↦ msgs ]) ≡ []
emptied k [] = refl
emptied k ((j, msgs) ∷ rest) = elim (Bool-cases (same_link j k)) [
  | inl h ↦ rw h (rw h refl)
  | inr h ↦ rw h (rw h (emptied k rest))
]

absent :
    (j k : Link) (buffers : List (Link × List RpcEnvelope))
    → same_link j k ≡ true
    → All (λ p. same_link p.0 j ≡ false) buffers
    → get k buffers ≡ none
absent j k [] h a = refl
absent (a, b) (c, d) (((x, y), msgs) ∷ rest) h (p, q) =
    ground (arith, absent (a, b) (c, d) rest h q)

removed :
    (k : Link) (buffers : List (Link × List RpcEnvelope))
    → AreApart buffers
    → (elim (get k (remove k buffers)) [ none ↦ [] | some msgs ↦ msgs ]) ≡ []
removed k [] h = refl
removed k ((j, msgs) ∷ rest) (a, h) = elim (Bool-cases (same_link j k)) [
  | inl q ↦ rw q (rw (absent j k rest q a) refl)
  | inr q ↦ rw q (rw q (removed k rest h))
]

module _ {V : Environment} where
  -- After a partition of two sets of nodes, a link is blocked exactly if it was before or joins a node of
  -- one set with a node of the other, in either direction.
  pub is_partitioned-partition :
      (set_a set_b : List NodeId) (from to : NodeId) (s : SimulatorState V)
      → is_partitioned from to (partition set_a set_b s) ≡ (
          is_partitioned from to s
          || (crosses set_a set_b (from, to) || crosses set_a set_b (to, from)))
  unfolding is_partitioned partition
  is_partitioned-partition set_a set_b from to s =
      blocks-block_sets set_a set_b s.partitions from to

  apply_faults-partitioned :
      (from to : NodeId) (m : RpcEnvelope) (s : SimulatorState V)
      → is_partitioned from to s ≡ true
      → apply_faults_and_deliver from to m s ≡ (ok tt, s)
  unfolding apply_faults_and_deliver
  apply_faults-partitioned from to m s h = rw h refl

  deliver_all-partitioned :
      (from to : NodeId) (ms : List RpcEnvelope) (s : SimulatorState V)
      → is_partitioned from to s ≡ true
      → deliver_all from to ms s ≡ s
  unfolding deliver_all
  deliver_all-partitioned from to [] s h = refl
  deliver_all-partitioned from to (m ∷ ms) s h =
      rw (apply_faults-partitioned from to m s h) (deliver_all-partitioned from to ms s h)

  -- the messages that wait in the buffer of a link
  abbrev pub waiting : Link → SimulatorState V → List RpcEnvelope
  waiting k s = elim (get k s.reorder_buffers) [ none ↦ [] | some msgs ↦ msgs ]

  -- After a partition of two sets of nodes, nothing passes a link between a node of one set and a node of
  -- the other, in either direction: a message sent over it is dropped without an error and leaves all as
  -- it was; and where its buffer is flushed or its reordering disabled, no inbox changes and, if each
  -- link has one buffer at most, the messages that waited in it are gone.
  pub partitioned_link_delivers_nothing :
      (set_a set_b : List NodeId) (from to : NodeId) (m : RpcEnvelope) (s : SimulatorState V)
      → (crosses set_a set_b (from, to) || crosses set_a set_b (to, from)) ≡ true
      → AreApart s.reorder_buffers
      → let apart = partition set_a set_b s in
        let flushed = flush_reorder_buffer from to apart in
        let disabled = disable_reordering from to apart in
        (send from to m apart ≡ (ok tt, apart))
        × (flushed.inboxes ≡ s.inboxes)
        × (waiting (from, to) flushed ≡ [])
        × (disabled.inboxes ≡ s.inboxes)
        × (waiting (from, to) disabled ≡ [])
  unfolding send flush_reorder_buffer disable_reordering partition is_partitioned
  partitioned_link_delivers_nothing set_a set_b from to m s across one =
      let h : blocks (block_sets set_a set_b s.partitions) (from, to) ≡ true =
        blocks-block_sets set_a set_b s.partitions from to ∙ ground arith in
      (
        rw h refl,
        ap (λ (t : SimulatorState V). t.inboxes) (deliver_all-partitioned from to _ _ h),
        ap (waiting (from, to)) (deliver_all-partitioned from to _ _ h)
            ∙ emptied (from, to) s.reorder_buffers,
        ap (λ (t : SimulatorState V). t.inboxes) (deliver_all-partitioned from to _ _ h),
        ap (waiting (from, to)) (deliver_all-partitioned from to _ _ h)
            ∙ removed (from, to) s.reorder_buffers one,
      )
