-- ===== src/Replication/Fetch.antt =====
-- The follower's handling of a Fetch response, in xraft-core/src/replication.rs.
use xraft.Prelude.{
  ℕ, Bool, true, false, not, ◌&&◌, Option, none, some, List, [], ◌∷◌, ◌++◌, filter, min, ltb, leb,
  ◌==◌, is_some, if◌then◌else◌, u64_add,
}
use xraft.Prelude.Exec.{Result, ok, err, pure, raise, lift, gets, ◌>>=◌, ◌>>◌}
use xraft.Types.{
  NodeId, Term, NodeState, Role, LogEntry, EntryType, Bytes, VotersRecord, PendingMembershipChange,
}
use xraft.Types.Rpc.{RpcEnvelope, RpcPayload, FetchResponse, DivergingEpoch, SnapshotId}
use xraft.Completion.{complete, fail_at_or_above}
use xraft.Replication.Parts.{
  Parts, Follower, Handler, IoAction, QuorumState, FetchResponseResult, ReplicationError,
  InvalidResponse, invalid_response, invalid_cluster_id, state_machine_apply_error,
}
use xraft.Replication.Follower.{is_follower, modify, build_fetch_request, sends, reset_timers}

-- `HashMap::insert` on the checkpoint
abbrev pub insert_epoch : Term → ℕ → List (Term × ℕ) → List (Term × ℕ)
insert_epoch term offset epochs = (term, offset) ∷ filter (λ e. not (e.0 == term)) epochs

abbrev pub persisted : NodeState → QuorumState
persisted s = record {
  current_term = s.current_term;
  voted_for = s.voted_for;
  leader_id = s.leader_id;
  leader_epoch = s.current_term;
}

-- The fields that a response of a higher epoch sets.
abbrev pub adopt : FetchResponse → NodeState → NodeState
adopt response s = record s {
  current_term = response.leader_epoch;
  voted_for = none;
  leader_id = some response.leader_id;
  role = Role.follower;
  votes_received = [];
  pre_votes_received = [];
}

abbrev pub has_conflict : FetchResponse → Bool
has_conflict response = is_some response.snapshot_id && is_some response.diverging_epoch

abbrev pub persist : Option QuorumState → List IoAction
persist none = []
persist (some qs) = IoAction.persist_quorum_state qs ∷ []

abbrev pub clear_pending_from : ℕ → Option PendingMembershipChange → Option PendingMembershipChange
clear_pending_from offset none = none
clear_pending_from offset (some pending) = if leb offset pending.offset then none else some pending

abbrev pub clear_pending_to : ℕ → Option PendingMembershipChange → Option PendingMembershipChange
clear_pending_to offset none = none
clear_pending_to offset (some pending) = if leb pending.offset offset then none else some pending

abbrev pub leader_or : NodeId → Option NodeId → NodeId
leader_or other none = other
leader_or other (some id) = id

-- the check of `windows(2)`
unfoldable pub check_contiguous : List LogEntry → Result ReplicationError (Unit {0})
check_contiguous [] = ok tt
check_contiguous (x ∷ []) = ok tt
check_contiguous (x ∷ y ∷ rest) = elim (y.offset == u64_add x.offset 1) [
  | true ↦ check_contiguous (y ∷ rest)
  | false ↦ err (invalid_response InvalidResponse.not_contiguous)
]

unfoldable pub check_entries : ℕ → List LogEntry → Result ReplicationError (Unit {0})
check_entries end [] = ok tt
check_entries end (first ∷ rest) =
    if first.offset == end
    then check_contiguous (first ∷ rest)
    else err (invalid_response InvalidResponse.first_offset)

-- the records that the listener is told of
unfoldable pub app_records : List LogEntry → List (ℕ × Bytes)
app_records [] = []
app_records (e ∷ es) = elim e.entry_type [
  | EntryType.command ↦ (e.offset, e.payload) ∷ app_records es
  | EntryType.voters_record ↦ app_records es
  | EntryType.leader_change_message ↦ app_records es
]

abbrev pub result : List IoAction → Bool → FetchResponseResult
result batch started = record { io_batch = batch; snapshot_transfer_initiated = started }

abbrev pub append_log : List LogEntry → List IoAction
append_log [] = []
append_log (e ∷ es) = IoAction.append_log (e ∷ es) ∷ []

module _ {P : Parts} where
  abbrev same_term : FetchResponse → Option NodeId → Handler P (Option QuorumState)
  same_term response (some known_leader) =
      if not (response.leader_id == known_leader)
      then raise (invalid_response InvalidResponse.wrong_leader)
      else if has_conflict response
      then raise (invalid_response InvalidResponse.conflicting_fields)
      else pure none
  same_term response none = do
    modify (λ s. record s { leader_id = some response.leader_id })
    gets (λ f. some (persisted f.state))

  unfoldable pub validate_and_update_term : FetchResponse → Handler P (Option QuorumState)
  validate_and_update_term response f =
      (if ltb response.leader_epoch f.state.current_term
          then raise (invalid_response InvalidResponse.stale_epoch)
          else if ltb f.state.current_term response.leader_epoch
          then (do modify (adopt response); gets (λ g. some (persisted g.state)))
          else if not (is_follower f.state.role)
          then raise (invalid_response InvalidResponse.not_follower)
          else same_term response f.state.leader_id)
        f

  unfoldable pub start_transfer :
      FetchResponse → SnapshotId → Option QuorumState → Handler P FetchResponseResult
  start_transfer response sid quorum f =
      if P.is_transfer_in_progress f.snapshot_coordinator
      then (ok (result (persist quorum) false), f)
      else (let (batch, c) =
            P.begin_snapshot_transfer (leader_or response.leader_id f.state.leader_id) sid f.state
              f.snapshot_coordinator in
          (ok (result (batch ++ persist quorum) true), record f { snapshot_coordinator = c }))

  -- the divergent suffix is cut from the log, the pending change, the checkpoint and the queue
  abbrev pub cut_to : ℕ → Follower P → Follower P
  cut_to point f = record f {
    log = P.truncate_log point f.log;
    state = record f.state {
      pending_membership_change = clear_pending_from point f.state.pending_membership_change;
    };
    leader_epoch_checkpoint = filter (λ e. ltb e.1 point) f.leader_epoch_checkpoint;
    completion_queue = (fail_at_or_above point f.completion_queue).1;
  }

  unfoldable pub truncate_divergence :
      DivergingEpoch → Option QuorumState → Handler P FetchResponseResult
  truncate_divergence diverging quorum f =
      let point = min diverging.end_offset (P.log_end_offset f.log) in
      if ltb point f.state.high_watermark
      then (err (invalid_response InvalidResponse.below_high_watermark), f)
      else (
        ok (
            result
              (IoAction.truncate_suffix point
                ∷ (sends (build_fetch_request (cut_to point f)) ++ persist quorum))
              false),
        cut_to point f,
      )

  abbrev applied : Bool × P.Machine → Handler P (Unit {0})
  applied (true, m) f = (ok tt, record f { state_machine = m })
  applied (false, m) f = (
    err state_machine_apply_error,
    record f { state_machine = m; listener = P.begin_shutdown f.listener },
  )

  abbrev voters_applied : ℕ → Option VotersRecord → Handler P (Unit {0})
  voters_applied offset none f = (err (invalid_response InvalidResponse.bad_voters_record), f)
  voters_applied offset (some r) f = (
    ok tt,
    record f {
      state = record f.state {
        voter_set = r.voters;
        pending_membership_change = clear_pending_to offset f.state.pending_membership_change;
      };
    },
  )

  -- the body of the first phase's loop
  unfoldable pub apply_entry : LogEntry → Handler P (Unit {0})
  apply_entry entry f = elim entry.entry_type [
    | EntryType.command ↦ applied (P.apply entry.offset entry.payload f.state_machine) f
    | EntryType.voters_record ↦ voters_applied entry.offset (P.deserialize entry.payload) f
    | EntryType.leader_change_message ↦ (
      ok tt,
      record f {
        leader_epoch_checkpoint = insert_epoch entry.term entry.offset f.leader_epoch_checkpoint;
      },
    )
  ]

  unfoldable pub apply_entries : List LogEntry → Handler P (Unit {0})
  apply_entries [] = pure tt
  apply_entries (entry ∷ rest) = do apply_entry entry; apply_entries rest

  -- the second and the third phase
  unfoldable pub notify : List LogEntry → ℕ → Handler P (Unit {0})
  notify entries new_hw f = (
    ok tt,
    record f {
      listener = P.handle_commit (app_records entries) f.listener;
      completion_queue = (complete new_hw f.completion_queue).1;
    },
  )

  unfoldable pub execute_commit_notification : (old_hw new_hw : ℕ) → Handler P (Unit {0})
  execute_commit_notification old_hw new_hw f =
      (do
        apply_entries (P.entries_in_range old_hw new_hw f.log)
        notify (P.entries_in_range old_hw new_hw f.log) new_hw)
        f

  abbrev pub append_received : List LogEntry → Follower P → Follower P
  append_received [] f = f
  append_received (e ∷ es) f = record f { log = P.append_entries (e ∷ es) f.log }

  unfoldable pub advance : ℕ → Handler P (Unit {0})
  advance leader_hw f =
      let new_hw = min leader_hw (P.log_end_offset f.log) in
      (if ltb f.state.high_watermark new_hw
          then (do
            modify (λ s. record s { high_watermark = new_hw })
            execute_commit_notification f.state.high_watermark new_hw)
          else pure tt)
        f

  unfoldable pub append_and_advance :
      FetchResponse → Option QuorumState → Handler P FetchResponseResult
  append_and_advance response quorum = do
    (λ f. (ok tt, append_received response.entries f))
    advance response.high_watermark
    pure (result (append_log response.entries ++ persist quorum) false)

  unfoldable pub accept_entries : FetchResponse → Option QuorumState → Handler P FetchResponseResult
  accept_entries response quorum f =
      (do
        lift (check_entries (P.log_end_offset f.log) response.entries)
        append_and_advance response quorum)
        f

  abbrev pub process :
      FetchResponse
      → Option SnapshotId
      → Option DivergingEpoch
      → Option QuorumState
      → Handler P FetchResponseResult
  process response (some sid) diverging quorum = start_transfer response sid quorum
  process response none (some diverging) quorum = truncate_divergence diverging quorum
  process response none none quorum = accept_entries response quorum

  unfoldable pub handle_fetch_response : FetchResponse → Handler P FetchResponseResult
  handle_fetch_response response = do
    quorum ← validate_and_update_term response
    (if has_conflict response
        then raise (invalid_response InvalidResponse.conflicting_fields)
        else (do
          reset_timers
          process response response.snapshot_id response.diverging_epoch quorum))

  -- `RaftNode::handle_message`
  abbrev on_payload : NodeId → RpcPayload → Handler P FetchResponseResult
  on_payload source (RpcPayload.fetch_response response) =
      if source == response.leader_id
      then handle_fetch_response response
      else raise (invalid_response InvalidResponse.wrong_source)
  on_payload source _ = raise (invalid_response InvalidResponse.not_handled)

  unfoldable pub handle_message : RpcEnvelope → Handler P FetchResponseResult
  handle_message envelope f =
      (if envelope.cluster_id == f.state.cluster_id
          then on_payload envelope.source envelope.payload
          else raise invalid_cluster_id)
        f
