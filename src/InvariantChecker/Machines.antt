-- ===== src/InvariantChecker/Machines.antt =====
-- What `check_state_machine_safety` of xraft-test/src/invariant_checker.rs tests.
use xraft.Prelude.{
  ℕ, zero, suc, ◌<◌, ◌≡◌, ◌≢◌, refl, sym, Bool, true, inl, inr, Bool-cases, Option, none, some,
  List, [], ◌∷◌, ◌==◌, arith, min, is_some,
}
use mathlib.Core.List.{Memᴰ}
use xraft.Types.{Bytes, LogEntry}
use xraft.InvariantChecker.{
  Node, SimulatedCluster, running, all, entry_at, all_below, has_no_gap, get_applied, same_if_any,
  applied_agree, same_if_both, committed_agree, check_state_machine_safety,
}
use xraft.InvariantChecker.Entries.{same_bytes-eq, all-in}
use xraft.InvariantChecker.Matching.{pairs-pair}

pub all_below-at : (n o : ℕ) (p : ℕ → Bool) → all_below n p ≡ true → o < n → p o ≡ true
unfolding all_below
all_below-at zero o p h l = absurd (omega (arith, l))
all_below-at (suc n) o p h l = elim (Bool-cases (o == n)) [
  | inl e ↦ let q : o ≡ n = ground arith in rw q (ground arith)
  | inr e ↦ all_below-at n o p (ground arith) (ground arith)
]

is_some-some : {A : Type 0} (r : Option A) → is_some r ≡ true → (a : A) × (r ≡ some a)
is_some-some none h = cc
is_some-some (some a) h = (a, refl)

committed_agree-at :
    (n k : Node) (o : ℕ) (e f : LogEntry)
    → committed_agree n k ≡ true
    → o < n.high_watermark
    → o < k.high_watermark
    → entry_at o n.log ≡ some e
    → entry_at o k.log ≡ some f
    → (e.term ≡ f.term) × (e.payload ≡ f.payload)
committed_agree-at n k o e f h l l' p q =
    let at_o =
      all_below-at (min n.high_watermark k.high_watermark) o
        (λ x. same_if_both (entry_at x n.log) (entry_at x k.log)) h (omega arith) in
    let same : same_if_both (some e) (some f) ≡ true = rw (p, q) at at_o in
    (ground arith, same_bytes-eq e.payload f.payload (ground arith))

applied-found :
    (p : ℕ × Bytes → Bool) (o : ℕ) (b : Bytes) (m : List (ℕ × Bytes))
    → all p m ≡ true
    → get_applied o m ≡ some b
    → p (o, b) ≡ true
applied-found p o b [] h g = cc
applied-found p o b ((i, c) ∷ m) h g = elim (Bool-cases (i == o)) [
  | inl e ↦
      let same : some c ≡ some b = rw e at g in
      let q : b ≡ c = cc same in let r : o ≡ i = ground arith in rw (q, r) (ground arith)
  | inr e ↦ applied-found p o b m (ground arith) (rw e at g)
]

applied_agree-at :
    (n k : Node) (o : ℕ) (b c : Bytes)
    → applied_agree n k ≡ true
    → get_applied o n.state_machine.applied ≡ some b
    → get_applied o k.state_machine.applied ≡ some c
    → b ≡ c
applied_agree-at n k o b c h p q =
    let same =
      applied-found (λ p. same_if_any p.1 (get_applied p.0 k.state_machine.applied)) o b
        n.state_machine.applied h p in
    let same' : same_if_any b (some c) ≡ true = rw q at same in same_bytes-eq b c same'

-- If the check passes, two running nodes have entries of the same term and payload at every offset that
-- is below the high watermarks of both.
pub committed_entries_agree :
    (c : SimulatedCluster) (n k : Node) (o : ℕ)
    → check_state_machine_safety c ≡ true
    → Memᴰ n (running c)
    → Memᴰ k (running c)
    → n.id ≢ k.id
    → o < n.high_watermark
    → o < k.high_watermark
    → (e : LogEntry) × (f : LogEntry) × (entry_at o n.log ≡ some e)
      × (entry_at o k.log ≡ some f)
      × (e.term ≡ f.term)
      × (e.payload ≡ f.payload)
unfolding check_state_machine_safety
committed_entries_agree c n k o h i j d l l' =
    let full = all-in has_no_gap n (running c) (ground arith) i in
    let full' = all-in has_no_gap k (running c) (ground arith) j in
    let (e, p) =
      is_some-some (entry_at o n.log)
        (all_below-at n.high_watermark o (λ x. is_some (entry_at x n.log)) full l) in
    let (f, q) =
      is_some-some (entry_at o k.log)
        (all_below-at k.high_watermark o (λ x. is_some (entry_at x k.log)) full' l') in
    let same =
      elim (pairs-pair committed_agree n k (running c) (ground arith) i j d)
        as (λ t. (e.term ≡ f.term) × (e.payload ≡ f.payload)) [
          | inl t ↦ committed_agree-at n k o e f t l l' p q
          | inr t ↦ let (x, y) = committed_agree-at k n o f e t l' l q p in (sym x, sym y)
        ] in
    (e, f, p, q, same.0, same.1)

-- If the check passes and two running nodes have each applied a record at an offset, it is the same
-- record.
pub applied_records_agree :
    (c : SimulatedCluster) (n k : Node) (o : ℕ) (b b' : Bytes)
    → check_state_machine_safety c ≡ true
    → Memᴰ n (running c)
    → Memᴰ k (running c)
    → n.id ≢ k.id
    → get_applied o n.state_machine.applied ≡ some b
    → get_applied o k.state_machine.applied ≡ some b'
    → b ≡ b'
unfolding check_state_machine_safety
applied_records_agree c n k o b b' h i j d g g' =
    elim (pairs-pair applied_agree n k (running c) (ground arith) i j d) [
      | inl t ↦ applied_agree-at n k o b b' t g g'
      | inr t ↦ sym (applied_agree-at k n o b' b t g' g)
    ]
