-- ===== src/Node/Startup.antt =====
-- Construction, recovery and bootstrap of a node: `new`, `recover`, `bootstrap` and the checks that
-- they make, of xraft-core/src/raft_node.rs.
use xraft.Prelude.{
  ℕ, Bool, true, false, not, ◌&&◌, Option, none, some, List, [], ◌∷◌, ltb, ◌==◌, is_some,
  if◌then◌else◌, u64_add, max,
}
use xraft.Prelude.Sets.{insert, contains}
use xraft.Prelude.Exec.{Result, ok, err, pure, raise, lift, ◌>>=◌, ◌>>◌}
use xraft.Config.{validate, ConfigError}
use xraft.Types.{
  Instant, NodeId, ClusterId, NodeState, Role, LogEntry, EntryType, VoterInfo, VotersRecord,
  QuorumState, Snapshot, Bytes, is_voter, is_nil, new_unattached,
}
use xraft.Node.Traits.{
  Traits, Io, XraftError, BootstrapFault, storage_error, invalid_config, recovery_required,
  already_bootstrapped, already_done, not_unattached, existing_data, invalid_bootstrap_config,
  nil_cluster_id, empty_voters, self_missing, duplicate_node_id,
}
use xraft.Node.State.{RaftNode, Method, storage, modify, reset_election_timer}

-- The loop over `initial_voters`: the first id that was seen before.
unfoldable pub first_duplicate : List NodeId → List VoterInfo → Option NodeId
first_duplicate seen [] = none
first_duplicate seen (v ∷ vs) =
    let rest = first_duplicate (insert v.node_id seen) vs in
    if contains v.node_id seen then some v.node_id else rest

abbrev check_distinct : Option NodeId → Bool → Result BootstrapFault (Unit {0})
check_distinct (some id) present = err (duplicate_node_id id)
check_distinct none true = ok tt
check_distinct none false = err self_missing

unfoldable pub validate_bootstrap_config :
    NodeId → ClusterId → List VoterInfo → Result BootstrapFault (Unit {0})
validate_bootstrap_config node_id cluster_id [] =
    if is_nil cluster_id then err nil_cluster_id else err empty_voters
validate_bootstrap_config node_id cluster_id (v ∷ vs) =
    if is_nil cluster_id
    then err nil_cluster_id
    else check_distinct (first_duplicate [] (v ∷ vs)) (is_voter node_id (v ∷ vs))

abbrev bootstrap_fault : Result BootstrapFault (Unit {0}) → Result XraftError (Unit {0})
bootstrap_fault (ok done) = ok done
bootstrap_fault (err e) = err (invalid_bootstrap_config e)

abbrev config_fault : Result ConfigError (Unit {0}) → Result XraftError (Unit {0})
config_fault (ok done) = ok done
config_fault (err e) = err (invalid_config e)

abbrev pub is_unattached : Role → Bool
is_unattached Role.unattached = true
is_unattached _ = false

-- The newest `VotersRecord` that decodes, in the entries from the last one back.
abbrev decoded : (Bytes → Option VotersRecord) → LogEntry → Option VotersRecord
decoded deserialize entry = elim entry.entry_type [
  | EntryType.voters_record ↦ deserialize entry.payload
  | _ ↦ none
]

unfoldable pub latest_voters : (Bytes → Option VotersRecord) → List LogEntry → Option VotersRecord
latest_voters deserialize [] = none
latest_voters deserialize (entry ∷ later) = elim (latest_voters deserialize later) [
  | some record_found ↦ some record_found
  | none ↦ decoded deserialize entry
]

abbrev with_voters : Option VotersRecord → NodeState → NodeState
with_voters none s = s
with_voters (some r) s = record s { voter_set = r.voters }

abbrev with_quorum_state : QuorumState → NodeState → NodeState
with_quorum_state qs s = record s {
  current_term = qs.current_term;
  voted_for = qs.voted_for;
  leader_id = qs.leader_id;
  cluster_id = qs.cluster_id;
}

abbrev with_snapshot : Snapshot → NodeState → NodeState
with_snapshot snap s =
    let end = u64_add snap.metadata.last_included_offset 1 in
    record s { voter_set = snap.metadata.voters; log_start_offset = end; high_watermark = end }

abbrev snapshot_end : Option ℕ → ℕ
snapshot_end none = 0
snapshot_end (some end) = end

-- The fields that a bootstrap sets.
abbrev pub form_cluster : ClusterId → List VoterInfo → NodeState → NodeState
form_cluster cluster_id voters s = record s {
  cluster_id = cluster_id;
  voter_set = voters;
  current_term = 0;
  voted_for = none;
  leader_id = none;
  role = Role.follower;
  votes_received = [];
  pre_votes_received = [];
}

module _ {T : Traits} where
  unfoldable pub has_existing_data : RaftNode T → Io Bool
  has_existing_data n =
      if T.logs.log_start_offset n.log_store == 0 && T.logs.log_end_offset n.log_store == 0
      then elim (T.quorums.load n.quorum_state_store) [
        | err e ↦ err e
        | ok (some qs) ↦ ok true
        | ok none ↦ elim (T.app.load_latest n.snapshot_io) [
          | err e ↦ err e
          | ok snap ↦ ok (is_some snap)
        ]
      ]
      else ok true

  -- whether there was a quorum state
  abbrev restore_quorum_state : Option QuorumState → Method T Bool
  restore_quorum_state none = pure false
  restore_quorum_state (some qs) = do modify (with_quorum_state qs); pure true

  -- the end of the snapshot, if there was one
  abbrev restore_snapshot : Option Snapshot → Method T (Option ℕ)
  restore_snapshot none = pure none
  restore_snapshot (some snap) = do
    modify (with_snapshot snap)
    (λ n.
        let (r, m) = T.app.restore snap.app_snapshot n.state_machine in
        (r, record n { state_machine = m }))
    pure (some (u64_add snap.metadata.last_included_offset 1))

  abbrev restore_boundaries : Option ℕ → Method T (Unit {0})
  restore_boundaries snap n =
      let store_start = T.logs.log_start_offset n.log_store in
      let store_end = T.logs.log_end_offset n.log_store in
      (
        ok tt,
        record n {
          state = record n.state {
            log_start_offset =
                if ltb n.state.log_start_offset store_start
                then store_start
                else n.state.log_start_offset;
            log_end_offset = max store_end (snapshot_end snap);
          };
        },
      )

  -- voters from the log: only without a snapshot, and with a quorum state
  abbrev restore_voters : Bool → Option ℕ → Method T (Unit {0})
  restore_voters has_quorum_state snap n =
      let store_start = T.logs.log_start_offset n.log_store in
      let store_end = T.logs.log_end_offset n.log_store in
      (if not (is_some snap) && has_quorum_state && ltb store_start store_end
          then (do
            entries ← lift (storage (T.logs.read store_start store_end n.log_store))
            modify (with_voters (latest_voters T.app.deserialize entries)))
          else pure tt)
        n

  unfoldable pub recover : Method T (Unit {0})
  recover = do
    qs ← (λ n. (storage (T.quorums.load n.quorum_state_store), n))
    has_quorum_state ← restore_quorum_state qs
    latest ← (λ n. (storage (T.app.load_latest n.snapshot_io), n))
    snap ← restore_snapshot latest
    restore_boundaries snap
    restore_voters has_quorum_state snap
    modify (λ s. record s { role = Role.follower })
    reset_election_timer
    (λ n. (ok tt, record n { bootstrapped = true }))

  abbrev pub settle : Result XraftError (Unit {0}) × RaftNode T → Result XraftError (RaftNode T)
  settle (ok done, n) = ok n
  settle (err recovery_required, n) = ok (record n { bootstrapped = true })
  settle (err e, n) = err e

  -- `RaftNode::new` at the instant `now`, on a record that holds the parts that it is given
  unfoldable pub new : Instant → RaftNode T → Result XraftError (RaftNode T)
  new now parts = elim (config_fault (validate parts.config)) [
    | err e ↦ err e
    | ok done ↦
        let fresh : RaftNode T = record parts {
          state = new_unattached parts.config.node_id now;
          bootstrapped = false;
        } in
        elim (has_existing_data parts) [
          | err e ↦ err (storage_error e)
          | ok true ↦ settle (recover fresh)
          | ok false ↦ ok fresh
        ]
  ]

  unfoldable pub bootstrap : ClusterId → List VoterInfo → Method T (Unit {0})
  bootstrap cluster_id voters n =
      (if n.bootstrapped
          then raise (already_bootstrapped already_done)
          else if not (is_unattached n.state.role)
          then raise (already_bootstrapped not_unattached)
          else (do
            found ← lift (storage (has_existing_data n))
            if found then raise (already_bootstrapped existing_data) else do
              lift (bootstrap_fault (validate_bootstrap_config n.state.node_id cluster_id voters))
              modify (form_cluster cluster_id voters)
              reset_election_timer
              (λ m. (ok tt, record m { bootstrapped = true }))))
        n
