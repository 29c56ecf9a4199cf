-- ===== src/GroupStage.antt =====
-- The `IoStage` of xraft-core/src/io_stage.rs: the log, the snapshot and the network actions of a batch
-- run as three groups, and the results come back in the order of the batch. The groups work on three
-- different objects, parameters here, so how they interleave makes no difference to any of them. The
-- arms that the source marks unreachable are given the result `unreachable`.
pub mod Merge
use xraft.Prelude.{ℕ, ◌+◌, Bool, true, false, List, [], ◌∷◌, ◌++◌, map, filter, leb, if◌then◌else◌}
use xraft.Prelude.Exec.{ok, err}
use xraft.Types.{NodeId, LogEntry, Snapshot}
use xraft.Node.Traits.{Io, ErrorKind}

pub record Objects : Type 1 where
  pub Log : Type 0
  pub append : List LogEntry → Log → Io (Unit {0}) × Log
  pub truncate_suffix : ℕ → Log → Io (Unit {0}) × Log
  pub truncate_prefix : ℕ → Log → Io (Unit {0}) × Log
  pub Snapshots : Type 0
  pub save : Snapshot → Snapshots → Io (Unit {0}) × Snapshots
  pub Network : Type 0
  pub Message : Type 0
  pub send : NodeId → Message → Network → Io (Unit {0}) × Network

pub data IoAction (O : Objects) : Type 0 where
  append_log : List LogEntry → IoAction O
  truncate_suffix truncate_prefix : ℕ → IoAction O
  save_snapshot : Snapshot → IoAction O
  send_rpc : NodeId → O.Message → IoAction O

pub data IoResult : Type 0 where
  snapshot_saved prefix_truncated log_appended suffix_truncated rpc_sent unreachable : IoResult
  snapshot_save_failed prefix_truncate_failed rpc_failed storage_failed : ErrorKind → IoResult

pub record IoStage (O : Objects) : Type 0 where
  pub log_store : O.Log
  pub snapshot_io : O.Snapshots
  pub network : O.Network

abbrev pub outcome {ℓ} :
    {S : Type ℓ} → IoResult → (ErrorKind → IoResult) → Io (Unit {0}) × S → IoResult × S
outcome good bad (ok done, s) = (good, s)
outcome good bad (err e, s) = (bad e, s)

-- the group of an action
pub data Group : Type 0 where
  log_group snapshot_group net_group : Group

abbrev pub group_of : {O : Objects} → IoAction O → Group
group_of (append_log entries) = log_group
group_of (truncate_suffix from) = log_group
group_of (truncate_prefix up_to) = log_group
group_of (save_snapshot snapshot) = snapshot_group
group_of (send_rpc node_id message) = net_group

abbrev pub is_log : Group → Bool
is_log log_group = true
is_log _ = false

abbrev pub is_snapshot : Group → Bool
is_snapshot snapshot_group = true
is_snapshot _ = false

abbrev pub is_net : Group → Bool
is_net net_group = true
is_net _ = false

module _ (O : Objects) where
  unfoldable pub log_action : IoAction O → O.Log → IoResult × O.Log
  log_action (append_log entries) l = outcome log_appended storage_failed (O.append entries l)
  log_action (truncate_suffix from) l =
      outcome suffix_truncated storage_failed (O.truncate_suffix from l)
  log_action (truncate_prefix up_to) l =
      outcome prefix_truncated prefix_truncate_failed (O.truncate_prefix up_to l)
  log_action _ l = (unreachable, l)

  unfoldable pub snapshot_action : IoAction O → O.Snapshots → IoResult × O.Snapshots
  snapshot_action (save_snapshot snapshot) s =
      outcome snapshot_saved snapshot_save_failed (O.save snapshot s)
  snapshot_action _ s = (unreachable, s)

  unfoldable pub net_action : IoAction O → O.Network → IoResult × O.Network
  net_action (send_rpc node_id message) n = outcome rpc_sent rpc_failed (O.send node_id message n)
  net_action _ n = (unreachable, n)

-- `execute_log_group`, `execute_snap_group` and `execute_net_group`: one action after another
unfoldable pub execute_group {ℓ κ} :
    {A : Type ℓ} {S : Type κ} → (A → S → IoResult × S) → List (ℕ × A) → S → List (ℕ × IoResult) × S
execute_group f [] s = ([], s)
execute_group f ((i, a) ∷ rest) s =
    let (r, s') = f a s in let (rs, s'') = execute_group f rest s' in ((i, r) ∷ rs, s'')

-- `enumerate`
unfoldable pub enumerate {ℓ} : {A : Type ℓ} → ℕ → List A → List (ℕ × A)
enumerate i [] = []
enumerate i (a ∷ rest) = (i, a) ∷ enumerate (i + 1) rest

-- `sort_by_key`, stable
unfoldable pub insert_by_key : ℕ × IoResult → List (ℕ × IoResult) → List (ℕ × IoResult)
insert_by_key p [] = p ∷ []
insert_by_key p (q ∷ qs) =
    let rest = insert_by_key p qs in if leb p.0 q.0 then p ∷ q ∷ qs else q ∷ rest

unfoldable pub sort_by_key : List (ℕ × IoResult) → List (ℕ × IoResult)
sort_by_key [] = []
sort_by_key (p ∷ ps) = insert_by_key p (sort_by_key ps)

module _ {O : Objects} where
  abbrev pub of_group : (Group → Bool) → List (ℕ × IoAction O) → List (ℕ × IoAction O)
  of_group p = filter (λ a. p (group_of a.1))

  unfoldable pub execute : List (IoAction O) → IoStage O → List IoResult × IoStage O
  execute batch s =
      let all = enumerate 0 batch in
      let (log_results, l) = execute_group (log_action O) (of_group is_log all) s.log_store in
      let (snap_results, i) =
        execute_group (snapshot_action O) (of_group is_snapshot all) s.snapshot_io in
      let (net_results, n) = execute_group (net_action O) (of_group is_net all) s.network in
      (
        map (λ p. p.1) (sort_by_key (log_results ++ (snap_results ++ net_results))),
        record { log_store = l; snapshot_io = i; network = n },
      )
