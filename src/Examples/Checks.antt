-- ===== src/Examples/Checks.antt =====
-- Clusters of three nodes that the checker of the tests looks at.
use xraft.Prelude.{arith, ℕ, ◌≡◌, refl, true, false, ◌↔◌, some, List, [], ◌∷◌}
use xraft.Prelude.Sets.{IsDistinct}
use mathlib.Core.List.{Memᴰ}
use xraft.Types.{Bytes, LogEntry, EntryType}
use xraft.TestStateMachine.{new, apply}
use xraft.InvariantChecker.{
  Node, SimulatedCluster, check_leader_election_safety, get, insert, entry_at, check_log_matching,
  pairs, verify_prefix_match, all_below, check_state_machine_safety, check_leader, check_leaders,
  check_leader_append_only,
}
use xraft.InvariantChecker.Leaders.{check_leader_election_safety_lem}
use xraft.InvariantChecker.Machines.{committed_entries_agree}
use xraft.InvariantChecker.Matching.{check_log_matching_lem}
use xraft.InvariantChecker.AppendOnly.{checks, leader_append_only_lem}

abbrev entry : ℕ → ℕ → LogEntry
entry offset term = record {
  offset = offset;
  term = term;
  entry_type = EntryType.command;
  payload = offset ∷ term ∷ [];
}

abbrev leader : ℕ → ℕ → List LogEntry → Node
leader id term log = record {
  id = id;
  is_leader = true;
  term = term;
  log = log;
  log_end_offset = 4;
  high_watermark = 2;
  state_machine = new;
}

abbrev follower : ℕ → Node
follower id = record {
  id = id;
  is_leader = false;
  term = 3;
  log = [];
  log_end_offset = 0;
  high_watermark = 0;
  state_machine = new;
}

-- node 3 was the leader of term 2, and does not know better
abbrev with_log : List LogEntry → SimulatedCluster
with_log log = record {
  nodes = leader 1 3 log ∷ follower 2 ∷ leader 3 2 [] ∷ leader 4 3 [] ∷ [];
  stopped_nodes = 4 ∷ [];
  voter_count = 3;
}

abbrev early : List LogEntry
early = entry 1 1 ∷ entry 2 3 ∷ []

abbrev late : List LogEntry
late = entry 1 1 ∷ entry 2 3 ∷ entry 3 3 ∷ []

check_leader_election_safety_lem_example :
    (check_leader_election_safety (with_log early) ≡ true) ↔ IsDistinct (3 ∷ 2 ∷ [])
check_leader_election_safety_lem_example = check_leader_election_safety_lem (with_log early)

leader_append_only_lem_example :
    (f : LogEntry) × (entry_at 2 late ≡ some f) × (f.term ≡ 3) × (f.payload ≡ 2 ∷ 3 ∷ [])
unfolding checks check_leader_append_only check_leaders check_leader get insert
leader_append_only_lem_example =
    leader_append_only_lem (with_log early) (with_log late) (with_log early ∷ []) [] _
      (leader 1 3 early) (leader 1 3 late) (entry 2 3) refl (refl, (refl, (refl, tt)))
      (Memᴰ.head refl) (Memᴰ.head refl) refl refl refl refl (Memᴰ.tail (Memᴰ.head refl))

-- a leader and a follower that has part of its log
abbrev behind : SimulatedCluster
behind = record {
  nodes = leader 1 3 late ∷ record (follower 2) { log = early } ∷ [];
  stopped_nodes = [];
  voter_count = 2;
}

check_log_matching_lem_example : entry_at 1 late ≡ entry_at 1 early
unfolding check_log_matching pairs verify_prefix_match
check_log_matching_lem_example =
    check_log_matching_lem behind (leader 1 3 late) (record (follower 2) { log = early })
      (entry 2 3) (entry 2 3) 1 refl (Memᴰ.head refl) (Memᴰ.tail (Memᴰ.head refl)) (λ h. cc h)
      (Memᴰ.tail (Memᴰ.head refl)) (Memᴰ.tail (Memᴰ.head refl)) refl refl (omega arith)

abbrev seven : Bytes
seven = 7 ∷ []

-- what a node has applied
abbrev applied : Node → Node
applied n = record n { state_machine = apply 1 seven (apply 0 (5 ∷ []) new) }

abbrev from_zero : List LogEntry
from_zero = entry 0 1 ∷ entry 1 3 ∷ []

abbrev in_step : SimulatedCluster
in_step = record {
  nodes = applied (leader 1 3 from_zero) ∷ applied (leader 2 2 from_zero) ∷ [];
  stopped_nodes = [];
  voter_count = 2;
}

committed_entries_agree_example :
    (e : LogEntry) × (f : LogEntry) × (entry_at 1 from_zero ≡ some e)
    × (entry_at 1 from_zero ≡ some f)
    × (e.term ≡ f.term)
    × (e.payload ≡ f.payload)
unfolding check_state_machine_safety pairs all_below apply
committed_entries_agree_example =
    committed_entries_agree in_step (applied (leader 1 3 from_zero))
      (applied (leader 2 2 from_zero)) 1 refl (Memᴰ.head refl) (Memᴰ.tail (Memᴰ.head refl))
      (λ h. cc h) (omega arith) (omega arith)
