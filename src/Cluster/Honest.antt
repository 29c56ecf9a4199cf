-- ===== src/Cluster/Honest.antt =====
-- What the messages of a node of xraft-core/src/raft_node.rs may claim, for a given history of who voted
-- for whom.
use xraft.Prelude.{◌≡◌, true, false, Option, some, List, [], ◌∷◌, Bool-cases, inl, inr, ◌==◌, All}
use xraft.Types.{NodeId, Term, VoterInfo}
use xraft.Types.Rpc.{RpcEnvelope, RpcPayload}
use xraft.Node.Traits.{Traits, Transport}
use xraft.Node.State.{RaftNode}
use xraft.Node.Election.{send_all}
use xraft.Cluster.{Network}

-- for whom a node voted in a term, if it did
abbrev pub History : Type 0
History = NodeId → Term → Option NodeId

abbrev pub Says : History → NodeId → NodeId → RpcPayload → Type 0
Says H to source (RpcPayload.vote_request r) = r.candidate_id ≡ source
Says H to source (RpcPayload.vote_response r) =
    r.vote_granted ≡ true → r.is_pre_vote ≡ false → H source r.term ≡ some to
Says H to source _ = Unit

-- A request names its sender, and a granted, real vote was given to the node it is sent to.
abbrev pub IsHonest : History → NodeId → RpcEnvelope → Type 0
IsHonest H to e = Says H to e.source e.payload

module _ {T : Traits} (W : Network T.net) (H : History) (i : NodeId) (ws : List VoterInfo) where
  pub record Good (n : RaftNode T) : Type 0 where
    pub self : n.state.node_id ≡ i
    pub voters : n.state.voter_set ≡ ws
    pub supported : All (λ v. H v n.state.current_term ≡ some i) n.state.votes_received
    pub honest : (to : NodeId) (e : RpcEnvelope) → W.Sent n.outbox to e → IsHonest H to e

module _ {N : Transport} (W : Network N) (H : History) where
  abbrev AllHonest : N.Outbox → Type 0
  AllHonest out = (to : NodeId) (f : RpcEnvelope) → W.Sent out to f → IsHonest H to f

  pub send-honest :
      (id : NodeId) (e : RpcEnvelope) (out : N.Outbox)
      → IsHonest H id e
      → AllHonest out
      → AllHonest (N.send id e out).1
  send-honest id e out h k to f s = elim (W.send_adds id to e f out s) [
    | inl old ↦ k to f old
    | inr (a, b) ↦ rw (a, b) h
  ]

  pub send_all-honest :
      (self : NodeId) (e : RpcEnvelope) (vs : List VoterInfo) (out : N.Outbox)
      → ((to : NodeId) → IsHonest H to e)
      → AllHonest out
      → AllHonest (send_all N self e vs out)
  unfolding send_all
  send_all-honest self e [] out h k = k
  send_all-honest self e (v ∷ vs) out h k = elim (Bool-cases (v.node_id == self)) [
    | inl same ↦ rw same (send_all-honest self e vs out h k)
    | inr other ↦ rw other (
        send_all-honest self e vs (N.send v.node_id e out).1 h
          (send-honest v.node_id e out (h v.node_id) k))
  ]

module _ {T : Traits} (H : History) (i : NodeId) where
  -- the node's own votes are in the history
  abbrev pub Own : RaftNode T → Type 0
  Own n = (c : NodeId) → n.state.voted_for ≡ some c → H i n.state.current_term ≡ some c
