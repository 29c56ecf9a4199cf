-- ===== src/Cluster.antt =====
-- Several nodes of xraft-core/src/raft_node.rs on one network, which loses, delays, repeats and
-- reorders messages as it likes, but makes none up. A node may stop at any time and come back.
pub mod Calm
pub mod Honest
pub mod Campaigns
pub mod Handlers
pub mod History
pub mod Votes
pub mod Agreement
pub mod Safety
use xraft.Prelude.{ℕ, ◌≡◌, ◌⊎◌, none, true, List, [], ◌==◌, if◌then◌else◌}
use xraft.Prelude.Exec.{ok}
use xraft.Types.{NodeId, VoterInfo, ClusterId, Instant, Role, new_unattached, is_voter}
use xraft.Types.Rpc.{RpcEnvelope}
use xraft.Node.Traits.{Traits, Transport}
use xraft.Node.State.{RaftNode}
use xraft.Node.Startup.{bootstrap, new}
use xraft.Node.Rejoin.{Finds}
use xraft.Node.Dispatch.{handle_rpc, tick, poll, receive}
use xraft.Node.Runs
use xraft.Node.Runs.{HasRoom}

-- What was ever sent through a transport: at most what `send` was called with.
pub record Network (N : Transport) : Type 1 where
  pub Sent : N.Outbox → NodeId → RpcEnvelope → Type 0
  pub send_adds :
      (to id : NodeId) (e f : RpcEnvelope) (out : N.Outbox)
      → Sent (N.send to e out).1 id f
      → Sent out id f ⊎ ((id ≡ to) × (f ≡ e))

-- the voters that a node knows: none, or those of the cluster, with itself among them
abbrev pub Knows : List VoterInfo → NodeId → List VoterInfo → Type 0
Knows V i ws = (ws ≡ []) ⊎ ((ws ≡ V) × (is_voter i V ≡ true))

abbrev pub Cluster : Traits → Type 0
Cluster T = NodeId → RaftNode T

module _ {T : Traits} where
  -- What can happen to one node of the voters `V`, given what can arrive at it. `step` is a tick and
  -- what it receives then.
  pub data Event (V : List VoterInfo) (Arrives : RpcEnvelope → Type 0) (n : RaftNode T)
      : RaftNode T → Type 0 where
    rpc : (e : RpcEnvelope) → Arrives e → Event V Arrives n (handle_rpc e n).1
    ticked : HasRoom n → Event V Arrives n (tick n).1
    polled : HasRoom n → Event V Arrives n (poll n).1
    received :
        ((e : RpcEnvelope) → (T.net.recv n.inbox).0 ≡ ok e → Arrives e)
        → Event V Arrives n (receive n).1
    formed : (c : ClusterId) → Event V Arrives n (bootstrap c V n).1

  -- an event is a step of the node
  pub Event-Step :
      {V : List VoterInfo} {Arrives : RpcEnvelope → Type 0} {n m : RaftNode T}
      → Event V Arrives n m
      → Runs.Step n m
  Event-Step {n} (rpc e a) = Runs.rpc e n
  Event-Step {n} (ticked h) = Runs.ticked n h
  Event-Step {n} (polled h) = Runs.polled n h
  Event-Step {n} (received h) = Runs.received_one n
  Event-Step {V} {n} (formed c) = Runs.formed c V n

  abbrev pub update : Cluster T → NodeId → RaftNode T → Cluster T
  update s i m j = if i == j then m else s j

module _ {T : Traits} (W : Network T.net) where
  -- some node sent it there
  abbrev pub Delivered : Cluster T → NodeId → RpcEnvelope → Type 0
  Delivered s to e = (from : NodeId) × W.Sent (s from).outbox to e

  -- every node is new, has stored nothing and has sent nothing
  abbrev pub IsNew : Cluster T → Type 0
  IsNew s =
      (i : NodeId)
      → ((d : Instant) × ((s i).state ≡ new_unattached i d))
        × (T.quorums.load (s i).quorum_state_store ≡ ok none)
        × ((to : NodeId) (e : RpcEnvelope) → W.Sent (s i).outbox to e → ⊥)

  pub data Step (V : List VoterInfo) (s : Cluster T) : Cluster T → Type 0 where
    acts : (i : NodeId) {m : RaftNode T} → Event V (Delivered s i) (s i) m → Step V s (update s i m)
    -- A node is made anew on the quorum state store of the one that stopped, with a log and snapshots in
    -- which there are no other voters than those of the cluster.
    restarts :
        (i : NodeId) (now : Instant) (parts : RaftNode T) {m : RaftNode T}
        → parts.config.node_id ≡ i
        → parts.quorum_state_store ≡ (s i).quorum_state_store
        → parts.outbox ≡ (s i).outbox
        → new now parts ≡ ok m
        → Finds V i parts
        → Step V s (update s i m)

  pub data Reach (V : List VoterInfo) : Cluster T → Type 0 where
    start : (s : Cluster T) → IsNew s → Reach V s
    later : {s t : Cluster T} → Reach V s → Step V s t → Reach V t
