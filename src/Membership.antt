-- ===== src/Membership.antt =====
-- xraft-core/src/membership.rs: the voters of a cluster, with at most one change in flight.
pub mod Changes
use xraft.Prelude.{
  ℕ, ◌+◌, ◌/◌, Bool, true, false, Option, none, some, List, length, leb, ◌==◌, is_some,
  if◌then◌else◌,
}
use xraft.Prelude.Sets.{contains}
use xraft.Prelude.Exec.{Result, ok, err, Exec}
use xraft.Types.{NodeId}

-- `HashSet<NodeId>` is a list without repetitions.
pub record VotersRecord : Type 0 where
  pub voters : List NodeId
  pub offset : ℕ

-- `VotersRecord::contains`
abbrev pub has_voter : NodeId → VotersRecord → Bool
has_voter node_id r = contains node_id r.voters

unfoldable pub quorum_size : VotersRecord → ℕ
quorum_size r = length r.voters / 2 + 1

pub record PendingMembershipChange : Type 0 where
  pub change : VotersRecord
  pub offset : ℕ

pub record MembershipState : Type 0 where
  pub committed : VotersRecord
  pub pending_membership_change : Option PendingMembershipChange

pub data MembershipError : Type 0 where
  change_already_pending : (pending_offset : ℕ) → MembershipError
  no_pending_change : MembershipError
  offset_mismatch : (expected actual : ℕ) → MembershipError

-- `MembershipState::new` and `restore_from_snapshot`
abbrev pub restore_from_snapshot : VotersRecord → MembershipState
restore_from_snapshot r = record { committed = r; pending_membership_change = none }

abbrev effective : VotersRecord → Option PendingMembershipChange → VotersRecord
effective committed none = committed
effective committed (some pending) = pending.change

unfoldable pub effective_voters : MembershipState → VotersRecord
effective_voters m = effective m.committed m.pending_membership_change

unfoldable pub has_pending_change : MembershipState → Bool
has_pending_change m = is_some m.pending_membership_change

abbrev propose :
    Option PendingMembershipChange
    → List NodeId
    → ℕ
    → Exec MembershipState MembershipError VotersRecord
propose (some pending) new_voters log_offset m = (err (change_already_pending pending.offset), m)
propose none new_voters log_offset m =
    let change : VotersRecord = record { voters = new_voters; offset = log_offset } in
    (
      ok change,
      record m {
        pending_membership_change = some (record { change = change; offset = log_offset });
      },
    )

unfoldable pub propose_change : List NodeId → ℕ → Exec MembershipState MembershipError VotersRecord
propose_change new_voters log_offset m = propose m.pending_membership_change new_voters log_offset m

-- on what `take` returned, and the state that it left
abbrev commit :
    Option PendingMembershipChange → ℕ → Exec MembershipState MembershipError VotersRecord
commit none committed_offset m = (err no_pending_change, m)
commit (some pending) committed_offset m =
    if pending.offset == committed_offset
    then (ok pending.change, record m { committed = pending.change })
    else (
      err (offset_mismatch pending.offset committed_offset),
      record m { pending_membership_change = some pending },
    )

unfoldable pub commit_change : ℕ → Exec MembershipState MembershipError VotersRecord
commit_change committed_offset m =
    commit m.pending_membership_change committed_offset
      (record m { pending_membership_change = none })

abbrev surviving : ℕ → Option PendingMembershipChange → Option PendingMembershipChange
surviving truncate_from none = none
surviving truncate_from (some pending) =
    if leb truncate_from pending.offset then none else some pending

unfoldable pub clear_pending_if_truncated : ℕ → MembershipState → MembershipState
clear_pending_if_truncated truncate_from m = record m {
  pending_membership_change = surviving truncate_from m.pending_membership_change;
}

unfoldable pub clear_pending : MembershipState → MembershipState
clear_pending m = record m { pending_membership_change = none }

unfoldable pub apply_snapshot : VotersRecord → MembershipState → MembershipState
apply_snapshot snapshot_voters m = record {
  committed = snapshot_voters;
  pending_membership_change = none;
}
