-- ===== src/Cluster/Votes.antt =====
-- The votes that a leader counted, as distinct ids of voters.
use xraft.Prelude.{
  ◌*◌, ◌<◌, ◌≡◌, refl, sym, ◌∙◌, true, some, List, [], ◌∷◌, arith, Bool-cases, inl, inr, ◌==◌, All,
  length, map,
}
use xraft.Prelude.Sets.{contains, IsDistinct}
use xraft.Types.{NodeId, Term, VoterInfo, NodeState, is_voter}
use xraft.Quorum.{IsSubset}
use xraft.Node.Majority.{counted}
use xraft.Cluster.Honest.{History}

-- the ids of the voters
abbrev pub ids : List VoterInfo → List NodeId
ids = map (λ v. v.node_id)

pub All-map :
    (P Q : NodeId → Type 0) (xs : List NodeId) → ((a : NodeId) → P a → Q a) → All P xs → All Q xs
All-map P Q [] f h = tt
All-map P Q (x ∷ xs) f (p, h) = (f x p, All-map P Q xs f h)

-- the votes of a leader: distinct voters, more than half of them, who voted for it in its term
abbrev pub Votes : History → List VoterInfo → NodeId → Term → List NodeId → Type 0
Votes H V i t votes =
    IsDistinct votes
    × IsSubset votes (ids V)
    × (length (ids V) < 2 * length votes)
    × All (λ v. H v t ≡ some i) votes

pub All-contains :
    (P : NodeId → Type 0) (a : NodeId) (xs : List NodeId) → contains a xs ≡ true → All P xs → P a
All-contains P a [] h p = absurd (ground arith)
All-contains P a (x ∷ xs) h (q, p) = elim (Bool-cases (x == a)) [
  | inl e ↦ let same : x ≡ a = ground arith in rw (← same) q
  | inr e ↦ All-contains P a xs (ground arith) p
]

is_voter-ids : (a : NodeId) (V : List VoterInfo) → is_voter a V ≡ contains a (ids V)
is_voter-ids a [] = refl
is_voter-ids a (v ∷ V) = ground (arith, is_voter-ids a V)

pub length-ids : (V : List VoterInfo) → length (ids V) ≡ length V
length-ids [] = refl
length-ids (v ∷ V) = omega (arith, length-ids V)

pub counted-ids :
    (s : NodeState) (V : List VoterInfo) (v : NodeId)
    → s.voter_set ≡ V
    → is_voter s.node_id V ≡ true
    → counted s v ≡ true
    → contains v (ids V) ≡ true
counted-ids s V v e m h = elim (Bool-cases (v == s.node_id)) [
  | inl q ↦ let same : s.node_id ≡ v = ground arith in sym (is_voter-ids v V) ∙ rw same at m
  | inr q ↦ let h' : is_voter v V ≡ true = ground arith in sym (is_voter-ids v V) ∙ h'
]
