-- ===== src/InvariantChecker.antt =====
-- xraft-test/src/invariant_checker.rs: the five checks of a simulated cluster. What the checker asks of
-- a node is a field of `Node`, the state machine with it; the nodes are in the order of the map that
-- holds them, and the `data` of an entry is its payload. A failed assertion is `false`, or `none` where
-- the checker would have kept something.
pub mod Leaders
pub mod Entries
pub mod AppendOnly
pub mod Matching
pub mod Machines
pub mod Completeness
use xraft.Prelude.{
  ℕ, zero, suc, Bool, true, false, not, ◌&&◌, Option, none, some, List, [], ◌∷◌, ◌++◌, length, find,
  filter, any, ltb, leb, ◌==◌, if◌then◌else◌, is_some, min, max, ◌+◌, ◌/◌,
}
use xraft.Prelude.Sets.{contains}
use xraft.Types.{NodeId, Term, Bytes, LogEntry, EntryType}
use xraft.TestStateMachine.{TestStateMachine}

pub record Node : Type 0 where
  pub id : NodeId
  pub is_leader : Bool
  pub term : Term
  pub log : List LogEntry
  pub log_end_offset : ℕ
  pub high_watermark : ℕ
  pub state_machine : TestStateMachine

pub record SimulatedCluster : Type 0 where
  pub nodes : List Node
  pub stopped_nodes : List NodeId
  pub voter_count : ℕ

abbrev pub running : SimulatedCluster → List Node
running c = filter (λ n. not (contains n.id c.stopped_nodes)) c.nodes

abbrev pub all {ℓ} : {A : Type ℓ} → (A → Bool) → List A → Bool
all p [] = true
all p (x ∷ xs) = p x && all p xs

-- a HashMap from a term to its leaders
abbrev pub Leaders : Type 0
Leaders = List (Term × List NodeId)

-- `entry(term).or_default().push(id)`
unfoldable pub push : Term → NodeId → Leaders → Leaders
push t id [] = (t, id ∷ []) ∷ []
push t id ((u, ids) ∷ m) =
    let rest = push t id m in if u == t then (u, ids ++ (id ∷ [])) ∷ m else (u, ids) ∷ rest

unfoldable pub leaders_per_term : List Node → Leaders → Leaders
leaders_per_term [] m = m
leaders_per_term (n ∷ ns) m = leaders_per_term ns (if n.is_leader then push n.term n.id m else m)

unfoldable pub check_leader_election_safety : SimulatedCluster → Bool
check_leader_election_safety c = all (λ p. leb (length p.1) 1) (leaders_per_term (running c) [])

-- the logs kept, by the number of a leader and its term
abbrev pub LeaderLogs : Type 0
LeaderLogs = List ((NodeId × Term) × List LogEntry)

abbrev pub same_key : NodeId × Term → NodeId × Term → Bool
same_key k l = k.0 == l.0 && k.1 == l.1

unfoldable pub get : NodeId × Term → LeaderLogs → Option (List LogEntry)
get k [] = none
get k ((l, log) ∷ m) = if same_key l k then some log else get k m

unfoldable pub insert : NodeId × Term → List LogEntry → LeaderLogs → LeaderLogs
insert k log [] = (k, log) ∷ []
insert k log ((l, old) ∷ m) =
    let rest = insert k log m in if same_key l k then (k, log) ∷ m else (l, old) ∷ rest

abbrev pub same_bytes : Bytes → Bytes → Bool
same_bytes [] [] = true
same_bytes (a ∷ xs) (b ∷ ys) = a == b && same_bytes xs ys
same_bytes _ _ = false

-- each entry after the one before it
abbrev pub in_order {ℓ} : {A : Type ℓ} → (A → A → Bool) → List A → Bool
in_order p [] = true
in_order p (a ∷ []) = true
in_order p (a ∷ b ∷ es) = p a b && in_order p (b ∷ es)

abbrev pub entry_at : ℕ → List LogEntry → Option LogEntry
entry_at offset = find (λ e. e.offset == offset)

abbrev pub same_entry : LogEntry → LogEntry → Bool
same_entry ce prev = ce.term == prev.term && same_bytes ce.payload prev.payload

abbrev pub keeps_entry : List LogEntry → LogEntry → Bool
keeps_entry log prev = elim (entry_at prev.offset log) [
  | none ↦ false
  | some ce ↦ same_entry ce prev
]

abbrev pub keeps_log : List LogEntry → Option (List LogEntry) → Bool
keeps_log log none = true
keeps_log log (some prev) = all (keeps_entry log) prev && leb (length prev) (length log)

abbrev pub is_sound : Node → LeaderLogs → Bool
is_sound n m =
    in_order (λ a b. ltb a.offset b.offset) n.log
    && (in_order (λ a b. leb a.term b.term) n.log && keeps_log n.log (get (n.id, n.term) m))

-- one turn of the loop of `check_leader_append_only`
unfoldable pub check_leader : Node → LeaderLogs → Option LeaderLogs
check_leader n m =
    if not n.is_leader
    then some m
    else if is_sound n m
    then some (insert (n.id, n.term) n.log m)
    else none

-- what is done next, unless an assertion failed
abbrev pub unless_failed : Option LeaderLogs → (LeaderLogs → Option LeaderLogs) → Option LeaderLogs
unless_failed none f = none
unless_failed (some m) f = f m

unfoldable pub check_leaders : List Node → LeaderLogs → Option LeaderLogs
check_leaders [] m = some m
check_leaders (n ∷ ns) m = unless_failed (check_leader n m) (check_leaders ns)

unfoldable pub check_leader_append_only : SimulatedCluster → LeaderLogs → Option LeaderLogs
check_leader_append_only c = check_leaders (running c)

abbrev pub same_type : EntryType → EntryType → Bool
same_type EntryType.command EntryType.command = true
same_type EntryType.leader_change_message EntryType.leader_change_message = true
same_type EntryType.voters_record EntryType.voters_record = true
same_type _ _ = false

-- the `match` of `verify_prefix_match` at an offset, with what the two logs have there
abbrev pub matches : ℕ → List LogEntry → List LogEntry → Option LogEntry → Option LogEntry → Bool
matches offset a b (some ea) (some eb) =
    ea.term == eb.term
    && (same_type ea.entry_type eb.entry_type && same_bytes ea.payload eb.payload)
matches offset a b (some ea) none = not (any (λ e. ltb offset e.offset) b)
matches offset a b none (some eb) = not (any (λ e. ltb offset e.offset) a)
matches offset a b none none = true

-- the offsets 0..=up_to
unfoldable pub verify_prefix_match : List LogEntry → List LogEntry → ℕ → Bool
verify_prefix_match a b zero = matches 0 a b (entry_at 0 a) (entry_at 0 b)
verify_prefix_match a b (suc o) =
    verify_prefix_match a b o && matches (suc o) a b (entry_at (suc o) a) (entry_at (suc o) b)

abbrev pub met : List LogEntry → List LogEntry → LogEntry → LogEntry → Bool
met a b ea eb =
    if ea.offset == eb.offset && ea.term == eb.term then verify_prefix_match a b ea.offset else true

abbrev pub logs_match : List LogEntry → List LogEntry → Bool
logs_match a b = all (λ ea. all (λ eb. met a b ea eb) b) a

-- every two nodes, the earlier one first
unfoldable pub pairs : (Node → Node → Bool) → List Node → Bool
pairs p [] = true
pairs p (n ∷ ns) = all (p n) ns && pairs p ns

unfoldable pub check_log_matching : SimulatedCluster → Bool
check_log_matching c = pairs (λ n k. logs_match n.log k.log) (running c)

-- the offsets 0..n
unfoldable pub all_below : ℕ → (ℕ → Bool) → Bool
all_below zero p = true
all_below (suc n) p = all_below n p && p n

-- how many logs have an entry of a term and payload at an offset
abbrev pub Counts : Type 0
Counts = List ((Term × Bytes) × ℕ)

abbrev pub same_kind : Term × Bytes → Term × Bytes → Bool
same_kind k l = k.0 == l.0 && same_bytes k.1 l.1

-- `*entry(..).or_insert(0) += 1`
unfoldable pub count_one : Term × Bytes → Counts → Counts
count_one k [] = (k, 1) ∷ []
count_one k ((l, c) ∷ m) =
    let rest = count_one k m in if same_kind l k then (l, c + 1) ∷ m else (l, c) ∷ rest

abbrev pub counted : Option LogEntry → Counts → Counts
counted none m = m
counted (some e) m = count_one (e.term, e.payload) m

unfoldable pub entry_counts : ℕ → List Node → Counts → Counts
entry_counts o [] m = m
entry_counts o (n ∷ ns) m = entry_counts o ns (counted (entry_at o n.log) m)

abbrev pub max_offset : List Node → ℕ
max_offset [] = 0
max_offset (n ∷ ns) = max n.log_end_offset (max_offset ns)

abbrev pub is_kind : Term × Bytes → Option LogEntry → Bool
is_kind k none = false
is_kind k (some e) = same_kind (e.term, e.payload) k

abbrev pub leader_has : ℕ → Option LogEntry → (Term × Bytes) × ℕ → Bool
leader_has majority leader_entry (k, count) =
    if leb majority count then is_kind k leader_entry else true

unfoldable pub leader_is_complete : SimulatedCluster → Option Node → Bool
leader_is_complete c none = true
leader_is_complete c (some leader) = all_below (max_offset c.nodes) λ o.
    all (leader_has (c.voter_count / 2 + 1) (entry_at o leader.log)) (entry_counts o c.nodes [])

unfoldable pub check_leader_completeness : SimulatedCluster → Bool
check_leader_completeness c = leader_is_complete c (find (λ n. n.is_leader) (running c))

abbrev pub has_no_gap : Node → Bool
has_no_gap n = all_below n.high_watermark (λ o. is_some (entry_at o n.log))

abbrev pub applies_once : Node → Bool
applies_once n =
    n.state_machine.duplicate_apply_count == 0
    && in_order (λ a b. ltb a b) n.state_machine.apply_order

-- `get_applied`
abbrev pub get_applied : ℕ → List (ℕ × Bytes) → Option Bytes
get_applied o [] = none
get_applied o ((p, b) ∷ rest) = if p == o then some b else get_applied o rest

abbrev pub same_if_any : Bytes → Option Bytes → Bool
same_if_any b none = true
same_if_any b (some c) = same_bytes b c

abbrev pub applied_agree : Node → Node → Bool
applied_agree n k =
    all (λ p. same_if_any p.1 (get_applied p.0 k.state_machine.applied)) n.state_machine.applied

abbrev pub same_if_both : Option LogEntry → Option LogEntry → Bool
same_if_both (some ea) (some eb) = same_entry ea eb
same_if_both _ _ = true

abbrev pub committed_agree : Node → Node → Bool
committed_agree n k =
    all_below (min n.high_watermark k.high_watermark)
      (λ o. same_if_both (entry_at o n.log) (entry_at o k.log))

unfoldable pub check_state_machine_safety : SimulatedCluster → Bool
check_state_machine_safety c =
    all has_no_gap (running c)
    && (all applies_once (running c)
        && (pairs applied_agree (running c) && pairs committed_agree (running c)))

abbrev pub asserted : Bool → LeaderLogs → Option LeaderLogs
asserted passed m = if passed then some m else none

unfoldable pub check_all : SimulatedCluster → LeaderLogs → Option LeaderLogs
check_all c m = unless_failed (asserted (check_leader_election_safety c) m) λ m1.
    unless_failed (check_leader_append_only c m1) λ m2.
      unless_failed (asserted (check_log_matching c) m2) λ m3.
        unless_failed (asserted (check_leader_completeness c) m3)
          λ m4. asserted (check_state_machine_safety c) m4
