-- ===== src/Cluster/History.antt =====
-- Who voted for whom among the nodes of xraft-core/src/raft_node.rs: a history that only grows.
use xraft.Prelude.{
  ◌<◌, ◌≡◌, ◌⊎◌, sym, ◌∙◌, ap, ◌&&◌, false, none, some, Option-cases, arith, Bool-cases, inl, inr,
  ◌==◌, if◌then◌else◌,
}
use xraft.Types.{NodeId, Term, NodeState}
use xraft.Types.Rpc.{RpcPayload}
use xraft.Node.VoteOnce.{Keeps}
use xraft.Cluster.Honest.{History, Says}

-- what a node's vote adds to the history
abbrev pub cast : NodeId → NodeState → History → History
cast i s H j u = elim s.voted_for [
  | none ↦ H j u
  | some c ↦ (if i == j && s.current_term == u then some c else H j u)
]

-- The history knows no more of a node than the node itself.
abbrev pub Remembers : History → NodeId → NodeState → Type 0
Remembers H i s =
    (u : Term) (c : NodeId)
    → H i u ≡ some c
    → (u < s.current_term) ⊎ ((u ≡ s.current_term) × (s.voted_for ≡ some c))

abbrev pub Extends : History → History → Type 0
Extends H H' = (j : NodeId) (u : Term) (c : NodeId) → H j u ≡ some c → H' j u ≡ some c

pub cast-Own :
    (i : NodeId) (s : NodeState) (H : History) (c : NodeId)
    → s.voted_for ≡ some c
    → cast i s H i s.current_term ≡ some c
cast-Own i s H c h = ground arith

pub cast-other :
    (i j : NodeId) (s : NodeState) (H : History) (u : Term)
    → (i == j) ≡ false
    → cast i s H j u ≡ H j u
cast-other i j s H u e = ground arith

-- what was remembered stays so while the vote stands
pub Keeps-Remembers :
    (i : NodeId) (s t : NodeState) (H : History) → Remembers H i s → Keeps s t → Remembers H i t
Keeps-Remembers i s t H r k u c h = elim (r u c h) [
  | inl past ↦ inl (omega (arith, k.term_grows))
  | inr (now, voted) ↦ elim (Bool-cases (s.current_term == t.current_term)) [
    | inl e ↦ inr (ground arith, k.vote_stands c (ground arith) voted)
    | inr e ↦ inl (ground (arith, k.term_grows))
  ]
]

pub cast-Extends :
    (i : NodeId) (s : NodeState) (H : History) → Remembers H i s → Extends H (cast i s H)
cast-Extends i s H r j u c h = elim (Bool-cases (i == j && s.current_term == u)) [
  | inr e ↦ ground arith
  | inl e ↦
      let same : j ≡ i = ground arith in
      let h' : H i u ≡ some c = ap (λ a. H a u) (sym same) ∙ h in
      let known = r u c h' in ground arith
]

pub cast-Remembers :
    (i : NodeId) (s : NodeState) (H : History) → Remembers H i s → Remembers (cast i s H) i s
cast-Remembers i s H r u c h = elim (Bool-cases (s.current_term == u)) [
  | inl e ↦ elim (Option-cases s.voted_for) [
    | inl n ↦ r u c (ground arith)
    | inr (a, v) ↦ inr (ground arith, ground arith)
  ]
  | inr e ↦ r u c (ground arith)
]

pub Says-Extends :
    (H H' : History) (to source : NodeId) (p : RpcPayload)
    → Extends H H'
    → Says H to source p
    → Says H' to source p
Says-Extends H H' to source (RpcPayload.vote_request r) x h = h
Says-Extends H H' to source (RpcPayload.vote_response r) x h = λ g p. x source r.term to (h g p)
Says-Extends H H' to source _ x h = h
