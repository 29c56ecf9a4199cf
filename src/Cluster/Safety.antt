-- ===== src/Cluster/Safety.antt =====
-- Election safety across the nodes of xraft-core/src/raft_node.rs: two leaders of one term would share
-- a voter.
use xraft.Prelude.{◌≡◌, ◌∙◌, ap, true, some, List, arith, inl, inr, length}
use xraft.Prelude.Sets.{contains}
use xraft.Types.{NodeId, VoterInfo, Role}
use xraft.Quorum.{majorities_meet}
use xraft.Node.Traits.{Traits}
use xraft.Node.State.{RaftNode}
use xraft.Node.Majority.{counted}
use xraft.Cluster.{Network, Cluster, Reach}
use xraft.Cluster.Honest.{History}
use xraft.Cluster.Votes.{ids, All-map, Votes, All-contains, length-ids, counted-ids}
use xraft.Cluster.Agreement.{Saves, Agrees, Reach-Agrees}

module _ {T : Traits} {W : Network T.net} where
  leader-Votes :
      (H : History) (V : List VoterInfo) (i : NodeId) (n : RaftNode T)
      → Agrees W H V i n
      → n.state.role ≡ Role.leader
      → Votes H V i n.state.current_term n.state.votes_received
  leader-Votes H V i n a l =
      let (ws, g, knows) = a.known in
      let (some_voter, most) = a.elected.majority l in
      elim knows [
        | inl e ↦ absurd (omega (arith, ap length (g.voters ∙ e)))
        | inr (e, member) ↦ (
          a.elected.distinct,
          All-map (λ v. counted n.state v ≡ true) (λ v. contains v (ids V) ≡ true)
              n.state.votes_received
              (λ v h. counted-ids n.state V v (g.voters ∙ e) (rw g.self member) h)
              a.elected.votes_count,
          omega (arith, length-ids V, ap length (g.voters ∙ e)),
          g.supported,
        )
      ]

  -- Election safety: if every save of a quorum state is done, so that a load returns it, then in every
  -- state that a cluster can reach from new nodes, with messages lost, delayed, repeated and
  -- reordered in any way, nodes bootstrapped with the same voters at any time, timers firing while
  -- there is room for one more term, and nodes stopping and coming back on the quorum state that they
  -- left, with snapshots and a log whose voters are none but these and a state machine that does not
  -- raise recovery_required, two nodes that lead in the same term are one.
  pub election_safety :
      Saves T
      → (V : List VoterInfo) (s : Cluster T) (i j : NodeId) → Reach W V s
      → (s i).state.role ≡ Role.leader
      → (s j).state.role ≡ Role.leader
      → (s i).state.current_term ≡ (s j).state.current_term
      → i ≡ j
  election_safety law V s i j r li lj same =
      let (H, all) = Reach-Agrees law V r in
      let (d, sub, most, for_i) = leader-Votes H V i (s i) (all i) li in
      let (d', sub', most', for_j) = leader-Votes H V j (s j) (all j) lj in
      let xs = (s i).state.votes_received in
      let ys = (s j).state.votes_received in
      let (v, in_i, in_j) = majorities_meet xs ys (ids V) d d' sub sub' (omega arith) in
      let a = All-contains (λ v. H v (s i).state.current_term ≡ some i) v xs in_i for_i in
      let b = All-contains (λ v. H v (s j).state.current_term ≡ some j) v ys in_j for_j in
      cc (a, b, same)
