-- ===== src/Node/Terms.antt =====
-- Terms and votes over whole runs of a node of xraft-core/src/raft_node.rs.
use xraft.Prelude.{List, arith, inl, inr}
use xraft.Types.{NodeState, VoterInfo, ClusterId}
use xraft.Node.Traits.{Traits}
use xraft.Node.State.{RaftNode}
use xraft.Node.Startup.{bootstrap}
use xraft.Node.Formation.{bootstrap-cases}
use xraft.Node.Runs.{Run, Run_rule}
use xraft.Node.VoteOnce.{
  IsFresh, Keeps, Keeps-refl, Keeps-trans, vote_request-Keeps, vote_response-Keeps,
  election_timeout-Keeps,
}

-- What a run keeps of a node that started fresh.
abbrev pub Follows : NodeState → NodeState → Type 0
Follows s t = IsFresh s → Keeps s t × IsFresh t

from_Keeps : {s t : NodeState} → Keeps s t → Follows s t
from_Keeps k f = (k, k.stays_fresh f)

Follows-trans : (s t u : NodeState) → Follows s t → Follows t u → Follows s u
Follows-trans s t u p q f = let (k, g) = p f in let (k', g') = q g in (Keeps-trans k k', g')

module _ {T : Traits} where
  pub bootstrap-Follows :
      (c : ClusterId) (vs : List VoterInfo) (n : RaftNode T)
      → Follows n.state (bootstrap c vs n).1.state
  bootstrap-Follows c vs n fresh = elim (bootstrap-cases c vs n) [
    | inl (same, _) ↦ rw same (Keeps-refl n.state, fresh)
    | inr (d, e, was, _, _, _, _, _) ↦
        let (a, b, v) = fresh was in
        rw e (
          from_Keeps
            (record {
              term_grows = omega arith;
              vote_stands = λ k g h. absurd (cc (b, h));
              stays_fresh = λ f w. cc;
            })
            fresh)
  ]

  -- Along every run of a node that started fresh, whether calls failed or not, with elections only while
  -- there is room for one more term: the term never falls;
  -- while it stays the same a vote once cast is never changed or withdrawn; and a node that is still
  -- unattached has term 0, no vote and no voters.
  pub Run-Keeps :
      {n m : RaftNode T} → Run n m → IsFresh n.state → Keeps n.state m.state × IsFresh m.state
  Run-Keeps run =
      Run_rule Follows (λ s. from_Keeps (Keeps-refl s)) Follows-trans
        (λ r n. from_Keeps (vote_request-Keeps r n))
        (λ from r n. from_Keeps (vote_response-Keeps from r n))
        (λ n h. from_Keeps (election_timeout-Keeps n h)) bootstrap-Follows run
