-- ===== src/InvariantChecker/Matching.antt =====
-- What `check_log_matching` of xraft-test/src/invariant_checker.rs tests.
use xraft.Prelude.{
  ℕ, zero, suc, ◌≤◌, ◌≡◌, ◌≢◌, refl, sym, ◌∙◌, ap, Bool, true, false, not, ◌⊎◌, inl, inr,
  Bool-cases, Option, none, some, List, [], ◌∷◌, ◌==◌, ltb, arith, any,
}
use mathlib.Core.List.{Memᴰ}
use mathlib.Core.List.Memᴰ
use xraft.Types.{Term, Bytes, LogEntry, EntryType}
use xraft.InvariantChecker.{
  Node, SimulatedCluster, running, all, entry_at, same_type, matches, verify_prefix_match, met,
  logs_match, pairs, check_log_matching,
}
use xraft.InvariantChecker.Entries.{same_bytes-eq, entry_at-offset, all-in}

same_type-eq : (a b : EntryType) → same_type a b ≡ true → a ≡ b
same_type-eq EntryType.command EntryType.command h = refl
same_type-eq EntryType.leader_change_message EntryType.leader_change_message h = refl
same_type-eq EntryType.voters_record EntryType.voters_record h = refl
same_type-eq EntryType.command EntryType.leader_change_message h = cc
same_type-eq EntryType.command EntryType.voters_record h = cc
same_type-eq EntryType.leader_change_message EntryType.command h = cc
same_type-eq EntryType.leader_change_message EntryType.voters_record h = cc
same_type-eq EntryType.voters_record EntryType.command h = cc
same_type-eq EntryType.voters_record EntryType.leader_change_message h = cc

-- a log with an entry at an offset has one there, or one later
there_or_later :
    (o : ℕ) (e : LogEntry) (es : List LogEntry)
    → Memᴰ e es
    → o ≤ e.offset
    → entry_at o es ≡ none
    → any (λ f. ltb o f.offset) es ≡ true
there_or_later o e [] i h n = absurd (Memᴰ.not-nil i)
there_or_later o e (f ∷ es) i h n =
    let n' : (elim (f.offset == o) [ true ↦ some f | false ↦ entry_at o es ]) ≡ none = n in
    elim (Bool-cases (f.offset == o)) [
      | inl s ↦ cc (rw s at n')
      | inr s ↦ elim (Memᴰ.cases_cons i) [
        | inl q ↦ let l : o ≤ f.offset = rw q at h in ground arith
        | inr later ↦ ground (arith, there_or_later o e es later h (rw s at n'))
      ]
    ]

abbrev built : ℕ → Term → EntryType → Bytes → LogEntry
built offset term entry_type payload = record {
  offset = offset;
  term = term;
  entry_type = entry_type;
  payload = payload;
}

entry-eq :
    (e f : LogEntry)
    → e.offset ≡ f.offset
    → e.term ≡ f.term
    → e.entry_type ≡ f.entry_type
    → e.payload ≡ f.payload
    → e ≡ f
entry-eq e f o t y b =
    let q : built e.offset e.term e.entry_type e.payload
        ≡ built f.offset f.term f.entry_type f.payload =
      rw (o, t, y, b) refl in
    q

matches-equal :
    (o : ℕ) (a b : List LogEntry) (ea eb : LogEntry)
    → Memᴰ ea a
    → Memᴰ eb b
    → o ≤ ea.offset
    → o ≤ eb.offset
    → (r s : Option LogEntry) → entry_at o a ≡ r
    → entry_at o b ≡ s
    → matches o a b r s ≡ true
    → r ≡ s
matches-equal o a b ea eb i j l l' (some e) (some f) p q h = ap some (
    entry-eq e f (entry_at-offset o a e p ∙ sym (entry_at-offset o b f q)) (ground arith)
      (same_type-eq e.entry_type f.entry_type (ground arith))
      (same_bytes-eq e.payload f.payload (ground arith)))
matches-equal o a b ea eb i j l l' (some e) none p q h =
    cc (ap not (there_or_later o eb b j l' q), h)
matches-equal o a b ea eb i j l l' none (some f) p q h =
    cc (ap not (there_or_later o ea a i l p), h)
matches-equal o a b ea eb i j l l' none none p q h = refl

verify_prefix_match-all :
    (a b : List LogEntry) (n o : ℕ)
    → o ≤ n
    → verify_prefix_match a b n ≡ true
    → matches o a b (entry_at o a) (entry_at o b) ≡ true
unfolding verify_prefix_match
verify_prefix_match-all a b zero o l h = let q : o ≡ 0 = omega (arith, l) in rw q h
verify_prefix_match-all a b (suc n) o l h = elim (Bool-cases (o == suc n)) [
  | inl e ↦ let q : o ≡ suc n = ground arith in rw q (ground arith)
  | inr e ↦ verify_prefix_match-all a b n o (ground arith) (ground arith)
]

logs_match-equal :
    (a b : List LogEntry) (ea eb : LogEntry) (o : ℕ)
    → logs_match a b ≡ true
    → Memᴰ ea a
    → Memᴰ eb b
    → ea.offset ≡ eb.offset
    → ea.term ≡ eb.term
    → o ≤ ea.offset
    → entry_at o a ≡ entry_at o b
logs_match-equal a b ea eb o h i j same_offset same_term l =
    let all_met = all-in (λ e. all (λ f. met a b e f) b) ea a h i in
    let here = all-in (λ f. met a b ea f) eb b all_met j in
    let verified : verify_prefix_match a b ea.offset ≡ true = ground arith in
    matches-equal o a b ea eb i j l (rw (← same_offset) l) (entry_at o a) (entry_at o b) refl refl
      (verify_prefix_match-all a b ea.offset o l verified)

-- of two nodes, one is tested against the other
pub pairs-pair :
    (p : Node → Node → Bool) (n k : Node) (ns : List Node)
    → pairs p ns ≡ true
    → Memᴰ n ns
    → Memᴰ k ns
    → n.id ≢ k.id
    → (p n k ≡ true) ⊎ (p k n ≡ true)
unfolding pairs
pairs-pair p n k [] h i j d = absurd (Memᴰ.not-nil i)
pairs-pair p n k (x ∷ ns) h i j d = elim (Memᴰ.cases_cons i) [
  | inl q ↦ elim (Memᴰ.cases_cons j) [
    | inl r ↦ absurd (d (ap (λ (y : Node). y.id) (q ∙ sym r)))
    | inr j' ↦ inl (rw q (all-in (p x) k ns (ground arith) j'))
  ]
  | inr i' ↦ elim (Memᴰ.cases_cons j) [
    | inl r ↦ inr (rw r (all-in (p x) n ns (ground arith) i'))
    | inr j' ↦ pairs-pair p n k ns (ground arith) i' j' d
  ]
]

-- If the check passes and two running nodes have entries with one offset and one term, then their logs
-- are the same at every offset up to it.
pub check_log_matching_lem :
    (c : SimulatedCluster) (n k : Node) (ea eb : LogEntry) (o : ℕ)
    → check_log_matching c ≡ true
    → Memᴰ n (running c)
    → Memᴰ k (running c)
    → n.id ≢ k.id
    → Memᴰ ea n.log
    → Memᴰ eb k.log
    → ea.offset ≡ eb.offset
    → ea.term ≡ eb.term
    → o ≤ ea.offset
    → entry_at o n.log ≡ entry_at o k.log
unfolding check_log_matching
check_log_matching_lem c n k ea eb o h i j d in_n in_k same_offset same_term l =
    elim (pairs-pair (λ x y. logs_match x.log y.log) n k (running c) h i j d) [
      | inl m ↦ logs_match-equal n.log k.log ea eb o m in_n in_k same_offset same_term l
      | inr m ↦ sym (
          logs_match-equal k.log n.log eb ea o m in_k in_n (sym same_offset) (sym same_term)
            (rw (← same_offset) l))
    ]
