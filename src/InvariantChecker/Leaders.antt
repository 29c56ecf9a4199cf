-- ===== src/InvariantChecker/Leaders.antt =====
-- What `check_leader_election_safety` of xraft-test/src/invariant_checker.rs tests.
use xraft.Prelude.{
  ◌≤◌, ◌≡◌, refl, sym, ◌∙◌, Bool, true, false, ◌↔◌, inl, inr, Bool-cases, List, [], ◌∷◌, map,
  length, filter, All, leb, ◌==◌, arith, length-append,
}
use xraft.Prelude.Sets.{contains, IsDistinct}
use xraft.Types.{NodeId, Term}
use xraft.InvariantChecker.{
  Node, SimulatedCluster, running, all, Leaders, push, leaders_per_term,
  check_leader_election_safety,
}

abbrev single : Leaders → Bool
single m = all (λ p. leb (length p.1) 1) m

abbrev terms_in : Leaders → List Term
terms_in m = map (λ p. p.0) m

abbrev AreFull : Leaders → Type 0
AreFull m = All (λ p. 1 ≤ length p.1) m

push-terms :
    (t u : Term) (id : NodeId) (m : Leaders)
    → (contains u (terms_in (push t id m)) ≡ false)
      ↔ (((t == u) ≡ false) × (contains u (terms_in m) ≡ false))
unfolding push
push-terms t u id [] = ground arith
push-terms t u id ((v, ids) ∷ m) = ground (arith, push-terms t u id m)

push-AreFull : (t : Term) (id : NodeId) (m : Leaders) → AreFull m → AreFull (push t id m)
unfolding push
push-AreFull t id [] h = (omega arith, tt)
push-AreFull t id ((v, ids) ∷ m) (h, k) = elim (Bool-cases (v == t)) [
  | inl e ↦ rw e (omega (arith, length-append ids (id ∷ [])), k)
  | inr e ↦ rw e (h, push-AreFull t id m k)
]

push-single_new :
    (t : Term) (id : NodeId) (m : Leaders)
    → contains t (terms_in m) ≡ false
    → single (push t id m) ≡ single m
unfolding push
push-single_new t id [] h = refl
push-single_new t id ((v, ids) ∷ m) h = ground (arith, push-single_new t id m)

push-single_old :
    (t : Term) (id : NodeId) (m : Leaders)
    → AreFull m
    → contains t (terms_in m) ≡ true
    → single (push t id m) ≡ false
unfolding push
push-single_old t id [] f h = cc
push-single_old t id ((v, ids) ∷ m) (f, g) h =
    ground (arith, push-single_old t id m g, length-append ids (id ∷ []))

push-single_broken :
    (t : Term) (id : NodeId) (m : Leaders) → single m ≡ false → single (push t id m) ≡ false
unfolding push
push-single_broken t id [] h = cc
push-single_broken t id ((v, ids) ∷ m) h =
    ground (arith, push-single_broken t id m, length-append ids (id ∷ []))

leaders_per_term-broken :
    (ns : List Node) (m : Leaders) → single m ≡ false → single (leaders_per_term ns m) ≡ false
unfolding leaders_per_term
leaders_per_term-broken [] m h = h
leaders_per_term-broken (n ∷ ns) m h = elim (Bool-cases n.is_leader) [
  | inl e ↦
      rw e (leaders_per_term-broken ns (push n.term n.id m) (push-single_broken n.term n.id m h))
  | inr e ↦ rw e (leaders_per_term-broken ns m h)
]

abbrev AreNew : List Term → Leaders → Type 0
AreNew ts m = All (λ t. contains t (terms_in m) ≡ false) ts

All-nothing : (ts : List Term) → AreNew ts []
All-nothing [] = tt
All-nothing (t ∷ ts) = (refl, All-nothing ts)

push-AreNew :
    (t : Term) (id : NodeId) (ts : List Term) (m : Leaders)
    → AreNew ts (push t id m) ↔ ((contains t ts ≡ false) × AreNew ts m)
push-AreNew t id [] m = ((λ h. (refl, tt)), (λ h. tt))
push-AreNew t id (u ∷ ts) m =
    let (to, back) = push-terms t u id m in
    let (to_rest, back_rest) = push-AreNew t id ts m in
    (
      (λ (h, k). let (a, b) = to h in let (c, d) = to_rest k in (ground arith, (b, d))),
      (λ (h, (k, l)). (back (ground arith, k), back_rest (ground arith, l))),
    )

-- the terms of the nodes that lead
abbrev pub led : List Node → List Term
led ns = map (λ n. n.term) (filter (λ n. n.is_leader) ns)

leaders_per_term-single :
    (ns : List Node) (m : Leaders)
    → AreFull m
    → (single (leaders_per_term ns m) ≡ true)
      ↔ ((single m ≡ true) × IsDistinct (led ns) × AreNew (led ns) m)
unfolding leaders_per_term
leaders_per_term-single [] m f = ((λ h. (h, tt, tt)), (λ h. h.0))
leaders_per_term-single (n ∷ ns) m f = elim (Bool-cases n.is_leader) [
  | inr e ↦ rw e (leaders_per_term-single ns m f)
  | inl e ↦
      let p = push n.term n.id m in
      let (to, back) = leaders_per_term-single ns p (push-AreFull n.term n.id m f) in
      let (apart, joint) = push-AreNew n.term n.id (led ns) m in
      rw e (elim (Bool-cases (contains n.term (terms_in m))) [
        | inl old ↦
            let broken = leaders_per_term-broken ns p (push-single_old n.term n.id m f old) in
            ((λ h. cc (broken, h)), (λ (s, d, (new, k)). cc (old, new)))
        | inr new ↦
            let same = push-single_new n.term n.id m new in
            (
              (λ h.
                  let (s, d, k) = to h in let (c, l) = apart k in (sym same ∙ s, (c, d), (new, l))),
              (λ (s, (c, d), (old, l)). back (same ∙ s, d, joint (c, l))),
            )
      ])
]

-- The check passes exactly if no two running nodes lead in the same term.
pub check_leader_election_safety_lem :
    (c : SimulatedCluster) → (check_leader_election_safety c ≡ true) ↔ IsDistinct (led (running c))
unfolding check_leader_election_safety
check_leader_election_safety_lem c =
    let (to, back) = leaders_per_term-single (running c) [] tt in
    ((λ h. (to h).1), (λ d. back (refl, d, All-nothing (led (running c)))))
