-- ===== src/InvariantChecker/Completeness.antt =====
-- What `check_leader_completeness` of xraft-test/src/invariant_checker.rs tests.
use xraft.Prelude.{
  ℕ, ◌+◌, ◌/◌, ◌<◌, ◌≤◌, ◌≡◌, refl, sym, ◌∙◌, ap, Bool, true, false, inl, inr, Bool-cases, Option,
  none, some, List, [], ◌∷◌, leb, arith, find, filter, length, if◌then◌else◌,
}
use xraft.Types.{Term, Bytes, LogEntry}
use xraft.InvariantChecker.{
  Node, SimulatedCluster, running, all, entry_at, same_bytes, Counts, same_kind, count_one, counted,
  entry_counts, max_offset, is_kind, leader_has, leader_is_complete, check_leader_completeness,
}
use xraft.InvariantChecker.Entries.{same_bytes-eq}
use xraft.InvariantChecker.Machines.{all_below-at}

same_bytes_self : (b : Bytes) → same_bytes b b ≡ true
same_bytes_self [] = refl
same_bytes_self (x ∷ xs) = ground (arith, same_bytes_self xs)

same_kind-eq : (k l : Term × Bytes) → same_kind k l ≡ true → k ≡ l
same_kind-eq (t, b) (u, c) h =
    let p : t ≡ u = ground arith in
    let q : b ≡ c = same_bytes-eq b c (ground arith) in rw (p, q) refl

same_kind_self : (k : Term × Bytes) → same_kind k k ≡ true
same_kind_self (t, b) = ground (arith, same_bytes_self b)

count_of : Term × Bytes → Counts → ℕ
count_of k [] = 0
count_of k ((l, c) ∷ m) = if same_kind l k then c else count_of k m

abbrev one_if : Bool → ℕ
one_if true = 1
one_if false = 0

same_kind-other :
    (j l k : Term × Bytes) → same_kind j l ≡ false → same_kind j k ≡ true → same_kind l k ≡ false
same_kind-other j l k e f = elim (Bool-cases (same_kind l k)) [
  | inr g ↦ g
  | inl g ↦
      let both : same_kind j l ≡ true =
        rw (same_kind-eq j k f, same_kind-eq l k g) (same_kind_self k) in
      cc (both, e)
]

count_of-count_one :
    (k l : Term × Bytes) (m : Counts)
    → count_of k (count_one l m) ≡ count_of k m + one_if (same_kind l k)
unfolding count_of count_one
count_of-count_one k l [] = ground arith
count_of-count_one k l ((j, c) ∷ m) = elim (Bool-cases (same_kind j l)) [
  | inl e ↦ let q = same_kind-eq j l e in rw q (rw (same_kind_self l) (ground arith))
  | inr e ↦ rw e (elim (Bool-cases (same_kind j k)) [
    | inr f ↦ rw f (count_of-count_one k l m)
    | inl f ↦ rw (f, same_kind-other j l k e f) (omega arith)
  ])
]

-- how many of the nodes have an entry of this term and payload at the offset
abbrev pub holders : ℕ → Term × Bytes → List Node → ℕ
holders o k ns = length (filter (λ n. is_kind k (entry_at o n.log)) ns)

count_of-counted :
    (k : Term × Bytes) (r : Option LogEntry) (m : Counts)
    → count_of k (counted r m) ≡ count_of k m + one_if (is_kind k r)
count_of-counted k none m = omega arith
count_of-counted k (some e) m = count_of-count_one k (e.term, e.payload) m

length-filter :
    {A : Type 0} (p : A → Bool) (x : A) (xs : List A)
    → length (filter p (x ∷ xs)) ≡ one_if (p x) + length (filter p xs)
length-filter p x xs = ground arith

count_of-entry_counts :
    (o : ℕ) (k : Term × Bytes) (ns : List Node) (m : Counts)
    → count_of k (entry_counts o ns m) ≡ count_of k m + holders o k ns
unfolding entry_counts
count_of-entry_counts o k [] m = omega arith
count_of-entry_counts o k (n ∷ ns) m =
    let rest = count_of-entry_counts o k ns (counted (entry_at o n.log) m) in
    let here = count_of-counted k (entry_at o n.log) m in
    omega (arith, rest, here, length-filter (λ x. is_kind k (entry_at o x.log)) n ns)

all-count_of :
    (p : (Term × Bytes) × ℕ → Bool) (k : Term × Bytes) (m : Counts)
    → all p m ≡ true
    → 0 < count_of k m
    → p (k, count_of k m) ≡ true
unfolding count_of
all-count_of p k [] h l = absurd (omega (arith, l))
all-count_of p k ((j, c) ∷ m) h l = elim (Bool-cases (same_kind j k)) [
  | inl e ↦ rw e (rw (← same_kind-eq j k e) (ground arith))
  | inr e ↦ rw e (all-count_of p k m (ground arith) (rw e at l))
]

-- If the check passes, the first running leader has at every offset below the longest log's end an
-- entry of the term and payload that a majority of the nodes have there, if there is such a majority.
pub check_leader_completeness_lem :
    (c : SimulatedCluster) (leader : Node) (o : ℕ) (k : Term × Bytes)
    → check_leader_completeness c ≡ true
    → find (λ n. n.is_leader) (running c) ≡ some leader
    → o < max_offset c.nodes
    → c.voter_count / 2 + 1 ≤ holders o k c.nodes
    → is_kind k (entry_at o leader.log) ≡ true
unfolding check_leader_completeness leader_is_complete count_of
check_leader_completeness_lem c leader o k h found l most =
    let majority = c.voter_count / 2 + 1 in
    let at_leader : leader_is_complete c (some leader) ≡ true =
      sym (ap (leader_is_complete c) found) ∙ h in
    let held =
      all_below-at (max_offset c.nodes) o
        (λ x. all (leader_has majority (entry_at x leader.log)) (entry_counts x c.nodes []))
        at_leader l in
    let count = count_of-entry_counts o k c.nodes [] in
    let here =
      all-count_of (leader_has majority (entry_at o leader.log)) k (entry_counts o c.nodes []) held
        (omega (arith, count)) in
    let enough : leb majority (count_of k (entry_counts o c.nodes [])) ≡ true =
      ground (arith, count) in
    rw enough at here
