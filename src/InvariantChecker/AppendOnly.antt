-- ===== src/InvariantChecker/AppendOnly.antt =====
-- What `check_leader_append_only` of xraft-test/src/invariant_checker.rs tests, over a whole run.
use xraft.Prelude.{
  ◌≡◌, refl, sym, ◌∙◌, ap, true, false, ◌⊎◌, inl, inr, Bool-cases, Option, none, some, List, [],
  ◌∷◌, ◌++◌, map, arith,
}
use xraft.Prelude.Sets.{contains, IsDistinct}
use mathlib.Core.List.{Memᴰ}
use mathlib.Core.List.Memᴰ
use xraft.Types.{NodeId, Term, LogEntry}
use xraft.InvariantChecker.{
  Node, SimulatedCluster, running, LeaderLogs, same_key, get, insert, entry_at, keeps_entry,
  keeps_log, is_sound, check_leader, check_leaders, unless_failed, check_leader_append_only,
}
use xraft.InvariantChecker.Entries.{Keeps, kept-found, Keeps-trans, all-in}

same_key-eq : (k l : NodeId × Term) → same_key k l ≡ true → l ≡ k
same_key-eq (a, t) (b, u) h =
    let p : b ≡ a = ground arith in let q : u ≡ t = ground arith in rw (p, q) refl

get-insert_same :
    (k : NodeId × Term) (log : List LogEntry) (m : LeaderLogs) → get k (insert k log m) ≡ some log
unfolding get insert
get-insert_same k log [] = ground arith
get-insert_same k log ((l, old) ∷ m) = ground (arith, get-insert_same k log m)

get-insert_other :
    (k l : NodeId × Term) (log : List LogEntry) (m : LeaderLogs)
    → same_key k l ≡ false
    → get l (insert k log m) ≡ get l m
unfolding get insert
get-insert_other k l log [] h = ground arith
get-insert_other k l log ((j, old) ∷ m) h = ground (arith, get-insert_other k l log m h)

-- The log that is kept for a leader is the one before, or has all of it.
abbrev Grown : NodeId × Term → LeaderLogs → LeaderLogs → Type 0
Grown k m m' =
    (log : List LogEntry)
    → get k m ≡ some log
    → (log' : List LogEntry) × (get k m' ≡ some log') × ((log' ≡ log) ⊎ Keeps log log')

check_leader-Keeps :
    (n : Node) (m m' : LeaderLogs) (log : List LogEntry)
    → n.is_leader ≡ true
    → check_leader n m ≡ some m'
    → get (n.id, n.term) m ≡ some log
    → Keeps log n.log
unfolding check_leader
check_leader-Keeps n m m' log l h g = elim (Bool-cases (is_sound n m)) [
  | inr s ↦ cc (rw (l, s) at h)
  | inl s ↦
      let held : keeps_log n.log (get (n.id, n.term) m) ≡ true = ground arith in
      let held' : keeps_log n.log (some log) ≡ true = rw g at held in ground arith
]

check_leader-inserts :
    (n : Node) (m m' : LeaderLogs)
    → n.is_leader ≡ true
    → check_leader n m ≡ some m'
    → m' ≡ insert (n.id, n.term) n.log m
unfolding check_leader
check_leader-inserts n m m' l h = elim (Bool-cases (is_sound n m)) [
  | inr s ↦ cc (rw (l, s) at h)
  | inl s ↦ cc (rw (l, s) at h)
]

check_leader-skips :
    (n : Node) (m m' : LeaderLogs) → n.is_leader ≡ false → check_leader n m ≡ some m' → m' ≡ m
unfolding check_leader
check_leader-skips n m m' l h = cc (rw l at h)

Grown-refl : (k : NodeId × Term) (m : LeaderLogs) → Grown k m m
Grown-refl k m log g = (log, g, inl refl)

Grown-trans :
    (k : NodeId × Term) (m m' m'' : LeaderLogs) → Grown k m m' → Grown k m' m'' → Grown k m m''
Grown-trans k m m' m'' f g log found =
    let (a, found_a, p) = f log found in
    let (b, found_b, q) = g a found_a in (b, found_b, joined p q)
  where
    joined :
        {a b c : List LogEntry} → (b ≡ a) ⊎ Keeps a b → (c ≡ b) ⊎ Keeps b c → (c ≡ a) ⊎ Keeps a c
    joined (inl e) (inl f) = inl (f ∙ e)
    joined (inl e) (inr k) = rw (← e) (inr k)
    joined (inr h) (inl f) = rw f (inr h)
    joined {a} {b} {c} (inr h) (inr k) = inr (Keeps-trans a b c h k)

check_leader-Grown :
    (k : NodeId × Term) (n : Node) (m m' : LeaderLogs) → check_leader n m ≡ some m' → Grown k m m'
check_leader-Grown k n m m' h log g = elim (Bool-cases n.is_leader) [
  | inr l ↦ rw (check_leader-skips n m m' l h) (log, g, inl refl)
  | inl l ↦ rw (check_leader-inserts n m m' l h) (elim (Bool-cases (same_key (n.id, n.term) k)) [
    | inr o ↦ (log, get-insert_other (n.id, n.term) k n.log m o ∙ g, inl refl)
    | inl s ↦
        let q : k ≡ (n.id, n.term) = same_key-eq (n.id, n.term) k s in
        (
          n.log,
          rw q (get-insert_same (n.id, n.term) n.log m),
          inr (check_leader-Keeps n m m' log l h (sym (ap (λ x. get x m) q) ∙ g)),
        )
  ])
]

unless_failed-some :
    (o : Option LeaderLogs) (f : LeaderLogs → Option LeaderLogs) (m : LeaderLogs)
    → unless_failed o f ≡ some m
    → (a : LeaderLogs) × (o ≡ some a) × (f a ≡ some m)
unless_failed-some none f m h = cc
unless_failed-some (some a) f m h = (a, refl, h)

check_leaders-cons :
    (n : Node) (ns : List Node) (m m' : LeaderLogs)
    → check_leaders (n ∷ ns) m ≡ some m'
    → (a : LeaderLogs) × (check_leader n m ≡ some a) × (check_leaders ns a ≡ some m')
unfolding check_leaders
check_leaders-cons n ns m m' h = unless_failed-some (check_leader n m) (check_leaders ns) m' h

check_leaders-Grown :
    (k : NodeId × Term) (ns : List Node) (m m' : LeaderLogs)
    → check_leaders ns m ≡ some m'
    → Grown k m m'
unfolding check_leaders
check_leaders-Grown k [] m m' h = let q : m' ≡ m = cc h in rw q (Grown-refl k m)
check_leaders-Grown k (n ∷ ns) m m' h =
    let (a, first, rest) = check_leaders-cons n ns m m' h in
    Grown-trans k m a m' (check_leader-Grown k n m a first) (check_leaders-Grown k ns a m' rest)

-- the nodes after a leader have other numbers, so they leave its log
check_leaders-other :
    (k : NodeId × Term) (ns : List Node) (m m' : LeaderLogs)
    → contains k.0 (map (λ n. n.id) ns) ≡ false
    → check_leaders ns m ≡ some m'
    → get k m' ≡ get k m
unfolding check_leaders
check_leaders-other k [] m m' d h = let q : m' ≡ m = cc h in rw q refl
check_leaders-other k (n ∷ ns) m m' d h =
    let (a, first, rest) = check_leaders-cons n ns m m' h in
    check_leaders-other k ns a m' (ground arith) rest ∙ elim (Bool-cases n.is_leader) [
      | inr l ↦ ap (get k) (check_leader-skips n m a l first)
      | inl l ↦
          ap (get k) (check_leader-inserts n m a l first)
          ∙ get-insert_other (n.id, n.term) k n.log m (ground arith)
    ]

check_leaders-kept :
    (n : Node) (ns : List Node) (m m' : LeaderLogs)
    → IsDistinct (map (λ n. n.id) ns)
    → Memᴰ n ns
    → n.is_leader ≡ true
    → check_leaders ns m ≡ some m'
    → get (n.id, n.term) m' ≡ some n.log
check_leaders-kept n [] m m' d i l h = absurd (Memᴰ.not-nil i)
check_leaders-kept n (k ∷ ns) m m' (d, ds) i l h =
    let (a, first, rest) = check_leaders-cons k ns m m' h in
    elim (Memᴰ.cases_cons i) [
      | inr later ↦ check_leaders-kept n ns a m' ds later l rest
      | inl e ↦
          let first' : check_leader n m ≡ some a = rw e first in
          check_leaders-other (n.id, n.term) ns a m' (rw e d) rest
          ∙ ap (get (n.id, n.term)) (check_leader-inserts n m a l first')
          ∙ get-insert_same (n.id, n.term) n.log m
    ]

check_leaders-seen :
    (n : Node) (ns : List Node) (m m' : LeaderLogs) (log : List LogEntry)
    → Memᴰ n ns
    → n.is_leader ≡ true
    → check_leaders ns m ≡ some m'
    → get (n.id, n.term) m ≡ some log
    → Keeps log n.log
check_leaders-seen n [] m m' log i l h g = absurd (Memᴰ.not-nil i)
check_leaders-seen n (k ∷ ns) m m' log i l h g =
    let (a, first, rest) = check_leaders-cons k ns m m' h in
    elim (Memᴰ.cases_cons i) [
      | inl e ↦
          let first' : check_leader n m ≡ some a = rw e first in
          check_leader-Keeps n m a log l first' g
      | inr later ↦
          let (log', found, grown) = check_leader-Grown (n.id, n.term) k m a first log g in
          let kept = check_leaders-seen n ns a m' log' later l rest found in
          elim grown [ inl e ↦ rw (← e) kept | inr old ↦ Keeps-trans log log' n.log old kept ]
    ]

-- the check made again and again, on a cluster that goes on between
unfoldable pub checks : List SimulatedCluster → LeaderLogs → Option LeaderLogs
checks [] m = some m
checks (c ∷ cs) m = unless_failed (check_leader_append_only c m) (checks cs)

checks-seen :
    (cs : List SimulatedCluster) (c : SimulatedCluster) (n : Node) (m m' : LeaderLogs)
    (log : List LogEntry)
    → checks (cs ++ (c ∷ [])) m ≡ some m'
    → Memᴰ n (running c)
    → n.is_leader ≡ true
    → get (n.id, n.term) m ≡ some log
    → Keeps log n.log
unfolding checks check_leader_append_only
checks-seen [] c n m m' log h i l g =
    let (a, first, _) = unless_failed-some (check_leaders (running c) m) (checks []) m' h in
    check_leaders-seen n (running c) m a log i l first g
checks-seen (d ∷ cs) c n m m' log h i l g =
    let (a, first, rest) =
      unless_failed-some (check_leaders (running d) m) (checks (cs ++ (c ∷ []))) m' h in
    let (log', found, grown) = check_leaders-Grown (n.id, n.term) (running d) m a first log g in
    let kept = checks-seen cs c n a m' log' rest i l found in
    elim grown [ inl e ↦ rw (← e) kept | inr old ↦ Keeps-trans log log' n.log old kept ]

-- If the check passes on a cluster whose nodes have different numbers, then on others, then on a last
-- one, and a node that leads in the first leads in the last in the same term, every entry that its log
-- had at first is in its log at last, at the same offset, with the same term and payload.
pub leader_append_only_lem :
    (first last : SimulatedCluster) (between : List SimulatedCluster) (m m' : LeaderLogs)
    (n n' : Node) (e : LogEntry)
    → checks (first ∷ between ++ (last ∷ [])) m ≡ some m'
    → IsDistinct (map (λ k. k.id) (running first))
    → Memᴰ n (running first)
    → Memᴰ n' (running last)
    → n.is_leader ≡ true
    → n'.is_leader ≡ true
    → n'.id ≡ n.id
    → n'.term ≡ n.term
    → Memᴰ e n.log
    → (f : LogEntry) × (entry_at e.offset n'.log ≡ some f)
      × (f.term ≡ e.term)
      × (f.payload ≡ e.payload)
unfolding checks check_leader_append_only
leader_append_only_lem first last between m m' n n' e h d i i' l l' same_id same_term in_log =
    let (a, passed, rest) =
      unless_failed-some (check_leaders (running first) m) (checks (between ++ (last ∷ []))) m' h in
    let kept = check_leaders-kept n (running first) m a d i l passed in
    let kept' : get (n'.id, n'.term) a ≡ some n.log = rw (same_id, same_term) kept in
    let held = checks-seen between last n' a m' n.log rest i' l' kept' in
    kept-found (entry_at e.offset n'.log) e (all-in (keeps_entry n'.log) e n.log held in_log)
