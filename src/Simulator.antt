-- ===== src/Simulator.antt =====
-- xraft-transport/src/simulator.rs: the network with injected faults. The random numbers, the
-- probabilities and the channels are parameters. Nanoseconds are numbers.
pub mod Delivery
pub mod Partitions
use xraft.Prelude.{
  ℕ, Bool, true, false, not, ◌&&◌, Option, none, some, List, [], ◌∷◌, ◌++◌, leb, ltb, ◌==◌, any,
  filter, if◌then◌else◌,
}
use xraft.Prelude.Exec.{Result, ok, err}
use xraft.Types.{NodeId}
use xraft.Types.Rpc.{RpcEnvelope}

abbrev pub Link : Type 0
Link = NodeId × NodeId

abbrev pub same_link : Link → Link → Bool
same_link (a, b) (c, d) = a == c && b == d

pub data SendError : Type 0 where
  not_found connection_reset : SendError

-- `f64`, `StdRng`, and the inboxes of the channel transport; `deliver` finds no inbox of a node, or a
-- closed one, or puts the message into it.
pub record Environment : Type 1 where
  pub Probability : Type 0
  pub zero_probability : Probability
  pub clamp : Probability → Probability
  pub is_positive : Probability → Bool
  pub is_below : Probability → Probability → Bool
  pub Rng : Type 0
  pub gen : Rng → Probability × Rng
  pub gen_range : ℕ → ℕ → Rng → ℕ × Rng
  pub shuffle : List RpcEnvelope → Rng → List RpcEnvelope × Rng
  pub Inboxes : Type 0
  pub deliver : NodeId → RpcEnvelope → Inboxes → Result SendError (Unit {0}) × Inboxes

pub record LinkRules (V : Environment) : Type 0 where
  pub drop_probability : V.Probability
  pub delay_range : Option (ℕ × ℕ)
  pub reorder : Bool

-- `HashMap`s are association lists without repeated keys, `partitions` is a `HashSet`.
pub record SimulatorState (V : Environment) : Type 0 where
  pub link_rules : List (Link × LinkRules V)
  pub partitions : List Link
  pub reorder_buffers : List (Link × List RpcEnvelope)
  pub rng : V.Rng
  pub inboxes : V.Inboxes

-- `get`, `remove`, and `entry(k).or_insert_with(d)` with a change of the value
abbrev pub get : {A : Type 0} → Link → List (Link × A) → Option A
get k [] = none
get k ((j, v) ∷ rest) = elim (same_link j k) [ true ↦ some v | false ↦ get k rest ]

abbrev pub remove : {A : Type 0} → Link → List (Link × A) → List (Link × A)
remove k [] = []
remove k ((j, v) ∷ rest) = elim (same_link j k) [ true ↦ rest | false ↦ (j, v) ∷ remove k rest ]

abbrev pub upsert : {A : Type 0} → A → (A → A) → Link → List (Link × A) → List (Link × A)
upsert d f k [] = (k, f d) ∷ []
upsert d f k ((j, v) ∷ rest) = elim (same_link j k) [
  | true ↦ (j, f v) ∷ rest
  | false ↦ (j, v) ∷ upsert d f k rest
]

-- `get_mut`, and a change of the value that is there
abbrev pub update : {A : Type 0} → (A → A) → Link → List (Link × A) → List (Link × A)
update f k [] = []
update f k ((j, v) ∷ rest) = elim (same_link j k) [
  | true ↦ (j, f v) ∷ rest
  | false ↦ (j, v) ∷ update f k rest
]

-- `HashSet::contains`, `insert` and `remove`
abbrev pub blocks : List Link → Link → Bool
blocks partitions k = any (λ j. same_link j k) partitions

abbrev pub block : Link → List Link → List Link
block k ks = if blocks ks k then ks else k ∷ ks

-- both directions, for each pair of the two sets
abbrev pub block_all : NodeId → List NodeId → List Link → List Link
block_all a [] ks = ks
block_all a (b ∷ bs) ks = block_all a bs (block (b, a) (block (a, b) ks))

abbrev pub block_sets : List NodeId → List NodeId → List Link → List Link
block_sets [] bs ks = ks
block_sets (a ∷ rest) bs ks = block_sets rest bs (block_all a bs ks)

module _ {V : Environment} where
  abbrev pub default_rules : LinkRules V
  default_rules = record {
    drop_probability = V.zero_probability;
    delay_range = none;
    reorder = false;
  }

  -- the rules of a link, the default ones where it has none
  abbrev pub rules_or_default : Option (LinkRules V) → LinkRules V
  rules_or_default none = default_rules
  rules_or_default (some r) = r

  abbrev pub rules_of : Link → SimulatorState V → LinkRules V
  rules_of k s = rules_or_default (get k s.link_rules)

  unfoldable pub set_drop_probability :
      NodeId → NodeId → V.Probability → SimulatorState V → SimulatorState V
  set_drop_probability from to p s = record s {
    link_rules =
        upsert default_rules (λ r. record r { drop_probability = V.clamp p }) (from, to)
          s.link_rules;
  }

  -- the bounds are swapped where they are the wrong way round
  unfoldable pub set_delay : NodeId → NodeId → ℕ → ℕ → SimulatorState V → SimulatorState V
  set_delay from to min_delay max_delay s =
      let range =
        if ltb max_delay min_delay then (max_delay, min_delay) else (min_delay, max_delay) in
      record s {
        link_rules =
            upsert default_rules (λ r. record r { delay_range = some range }) (from, to)
              s.link_rules;
      }

  unfoldable pub clear_delay : NodeId → NodeId → SimulatorState V → SimulatorState V
  clear_delay from to s = record s {
    link_rules = update (λ r. record r { delay_range = none }) (from, to) s.link_rules;
  }

  unfoldable pub enable_reordering : NodeId → NodeId → SimulatorState V → SimulatorState V
  enable_reordering from to s = record s {
    link_rules = upsert default_rules (λ r. record r { reorder = true }) (from, to) s.link_rules;
    reorder_buffers = upsert [] (λ msgs. msgs) (from, to) s.reorder_buffers;
  }

  unfoldable pub partition : List NodeId → List NodeId → SimulatorState V → SimulatorState V
  partition set_a set_b s = record s { partitions = block_sets set_a set_b s.partitions }

  unfoldable pub partition_one_way : NodeId → NodeId → SimulatorState V → SimulatorState V
  partition_one_way from to s = record s { partitions = block (from, to) s.partitions }

  unfoldable pub heal_partition : SimulatorState V → SimulatorState V
  heal_partition s = record s { partitions = [] }

  unfoldable pub heal_link : NodeId → NodeId → SimulatorState V → SimulatorState V
  heal_link from to s = record s {
    partitions = filter (λ j. not (same_link j (from, to))) s.partitions;
  }

  unfoldable pub reset : SimulatorState V → SimulatorState V
  reset s = record s { link_rules = []; partitions = []; reorder_buffers = [] }

  unfoldable pub is_partitioned : NodeId → NodeId → SimulatorState V → Bool
  is_partitioned from to s = blocks s.partitions (from, to)
