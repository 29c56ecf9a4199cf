-- ===== src/IoStage.antt =====
-- The `IoStage` of xraft-core/src/io_action.rs, which carries out the actions of a batch: the storage and
-- the network group run at the same time. The trait objects are parameters.
pub mod Schedules
pub mod Turns
use xraft.Prelude.{ℕ, Bool, true, false, not, List, [], ◌∷◌, ◌++◌, filter, if◌then◌else◌}
use xraft.Prelude.Exec.{Result, ok, err}
use xraft.Types.{NodeId, LogEntry, Snapshot}
use xraft.Types.Rpc.{RpcEnvelope}
use xraft.Node.Traits.{Io}
use xraft.Replication.Parts.{
  QuorumState, IoAction, persist_quorum_state, append_log, truncate_suffix, truncate_prefix,
  save_snapshot, send_rpc,
}

pub record Stores : Type 1 where
  pub Log : Type 0
  pub append : List LogEntry → Log → Io (Unit {0}) × Log
  pub truncate_suffix : ℕ → Log → Io (Unit {0}) × Log
  pub truncate_prefix : ℕ → Log → Io (Unit {0}) × Log
  pub Quorum : Type 0
  pub save : QuorumState → Quorum → Io (Unit {0}) × Quorum
  pub Snapshots : Type 0
  pub save_snapshot : Snapshot → Snapshots → Io (Unit {0}) × Snapshots
  pub Outbox : Type 0
  pub send : NodeId → RpcEnvelope → Outbox → Io (Unit {0}) × Outbox

pub record Disk (S : Stores) : Type 0 where
  pub log_store : S.Log
  pub quorum_store : S.Quorum
  pub snapshot_io : S.Snapshots

pub record IoStage (S : Stores) : Type 0 where
  pub disk : Disk S
  pub transport : S.Outbox

abbrev pub is_send : IoAction → Bool
is_send (send_rpc target envelope) = true
is_send _ = false

unfoldable pub storage_actions : List IoAction → List IoAction
storage_actions = filter (λ a. not (is_send a))

unfoldable pub network_actions : List IoAction → List IoAction
network_actions = filter is_send

module _ (S : Stores) where
  -- a storage action; a send is no storage action
  unfoldable pub store : IoAction → Disk S → Io (Unit {0}) × Disk S
  store (persist_quorum_state state) d =
      let (r, q) = S.save state d.quorum_store in (r, record d { quorum_store = q })
  store (append_log entries) d =
      let (r, l) = S.append entries d.log_store in (r, record d { log_store = l })
  store (truncate_suffix offset) d =
      let (r, l) = S.truncate_suffix offset d.log_store in (r, record d { log_store = l })
  store (truncate_prefix offset) d =
      let (r, l) = S.truncate_prefix offset d.log_store in (r, record d { log_store = l })
  store (save_snapshot snapshot) d =
      let (r, s) = S.save_snapshot snapshot d.snapshot_io in (r, record d { snapshot_io = s })
  store (send_rpc target envelope) d = (ok tt, d)

  unfoldable pub transmit : IoAction → S.Outbox → Io (Unit {0}) × S.Outbox
  transmit (send_rpc target envelope) o = S.send target envelope o
  transmit _ o = (ok tt, o)

-- `?` after each action of a group
abbrev pub then_rest {ℓ} :
    {A : Type ℓ} → Io (Unit {0}) × A → (A → Io (Unit {0}) × A) → Io (Unit {0}) × A
then_rest (ok a, s) f = f s
then_rest (err e, s) f = (err e, s)

unfoldable pub in_order {ℓ} :
    {A : Type ℓ} → (IoAction → A → Io (Unit {0}) × A) → List IoAction → A → Io (Unit {0}) × A
in_order f [] s = (ok tt, s)
in_order f (a ∷ rest) s = then_rest (f a s) (in_order f rest)

-- whose turn it is next, as the runtime polls the two futures
pub data Turn : Type 0 where
  storage network : Turn

-- where the two groups are
pub record Progress (S : Stores) : Type 0 where
  pub storage_left : List IoAction
  pub network_left : List IoAction
  pub stage : IoStage S

module _ {S : Stores} where
  abbrev pub on_disk : (Disk S → Io (Unit {0}) × Disk S) → IoStage S → Io (Unit {0}) × IoStage S
  on_disk f st = let (r, d) = f st.disk in (r, record st { disk = d })

  abbrev pub on_net : (S.Outbox → Io (Unit {0}) × S.Outbox) → IoStage S → Io (Unit {0}) × IoStage S
  on_net f st = let (r, o) = f st.transport in (r, record st { transport = o })

  -- One poll of a group: it carries out its next action, if there is one.
  unfoldable pub take_turn : Turn → Progress S → Io (Unit {0}) × Progress S
  take_turn Turn.storage p = elim p.storage_left [
    | [] ↦ (ok tt, p)
    | a ∷ rest ↦
        let (r, st) = on_disk (store S a) p.stage in
        (r, record p { storage_left = rest; stage = st })
  ]
  take_turn Turn.network p = elim p.network_left [
    | [] ↦ (ok tt, p)
    | a ∷ rest ↦
        let (r, st) = on_net (transmit S a) p.stage in
        (r, record p { network_left = rest; stage = st })
  ]

  unfoldable pub take_turns : List Turn → Progress S → Io (Unit {0}) × Progress S
  take_turns [] p = (ok tt, p)
  take_turns (t ∷ ts) p = then_rest (take_turn t p) (take_turns ts)

  abbrev pub joined : Io (Unit {0}) × Progress S → Io (Unit {0}) × IoStage S
  joined (ok tt, p) =
      then_rest (on_disk (in_order (store S) p.storage_left) p.stage)
        (on_net (in_order (transmit S) p.network_left))
  joined (err e, p) = (err e, p.stage)

  -- `try_join!`: the two groups in the order of the turns, and then what is left of each; the first error
  -- ends both
  unfoldable pub try_join :
      List Turn → List IoAction → List IoAction → IoStage S → Io (Unit {0}) × IoStage S
  try_join turns ss ns st =
      joined (take_turns turns (record { storage_left = ss; network_left = ns; stage = st }))

  unfoldable pub execute : List Turn → List IoAction → IoStage S → Io (Unit {0}) × IoStage S
  execute turns batch = try_join turns (storage_actions batch) (network_actions batch)
