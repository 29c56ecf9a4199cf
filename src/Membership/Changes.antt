-- ===== src/Membership/Changes.antt =====
-- Membership changes (xraft-core/src/membership.rs) against the log that they are written to.
use xraft.Prelude.{
  ◌≤◌, ◌≡◌, ◌≢◌, ◌↔◌, ℕ, refl, true, Option, none, some, List, [], ◌∷◌, filter, arith, ltb, ◌==◌,
  length, if◌then◌else◌,
}
use xraft.Prelude.Sets.{IsDistinct, contains}
use xraft.Prelude.Exec.{ok}
use xraft.Types.{NodeId}
use xraft.Quorum.{IsSubset, majorities_meet}
use xraft.Membership.{
  VotersRecord, PendingMembershipChange, MembershipState, quorum_size, restore_from_snapshot,
  effective_voters, has_pending_change, propose_change, commit_change, clear_pending_if_truncated,
  clear_pending, apply_snapshot,
}

-- Two lists of distinct voters of one configuration, each at least as long as its quorum, share a voter.
pub quorums_meet :
    (r : VotersRecord) (xs ys : List NodeId)
    → IsDistinct xs
    → IsDistinct ys
    → IsSubset xs r.voters
    → IsSubset ys r.voters
    → quorum_size r ≤ length xs
    → quorum_size r ≤ length ys
    → (a : NodeId) × (contains a xs ≡ true) × (contains a ys ≡ true)
unfolding quorum_size
quorums_meet r xs ys d e s t p q = majorities_meet xs ys r.voters d e s t (omega arith)

-- What can happen to the state: the calls of the replication code.
pub data Event : Type 0 where
  proposed : List NodeId → ℕ → Event
  committed_at truncated_from : ℕ → Event
  snapshot_applied : VotersRecord → Event
  reverted : Event

unfoldable pub apply : Event → MembershipState → MembershipState
apply (Event.proposed voters offset) m = (propose_change voters offset m).1
apply (Event.committed_at offset) m = (commit_change offset m).1
apply (Event.truncated_from offset) m = clear_pending_if_truncated offset m
apply (Event.snapshot_applied r) m = apply_snapshot r m
apply Event.reverted m = clear_pending m

unfoldable pub apply_all : List Event → MembershipState → MembershipState
apply_all [] m = m
apply_all (e ∷ es) m = apply_all es (apply e m)

-- The configurations of the log, the newest first: those past the commit offset, and the committed.
pub record Log : Type 0 where
  pub uncommitted : List VotersRecord
  pub newest : VotersRecord
  pub older : List VotersRecord

-- a configuration entry is appended only when none is uncommitted
abbrev append_change : List VotersRecord → VotersRecord → Log → Log
append_change [] r l = record l { uncommitted = r ∷ [] }
append_change (u ∷ us) r l = l

-- the log commits the configuration at exactly this offset
abbrev commit_entry : List VotersRecord → ℕ → Log → Log
commit_entry [] offset l = l
commit_entry (u ∷ us) offset l =
    if u.offset == offset
    then record { uncommitted = us; newest = u; older = l.newest ∷ l.older }
    else l

unfoldable pub log_step : Event → Log → Log
log_step (Event.proposed voters offset) l =
    append_change l.uncommitted (record { voters = voters; offset = offset }) l
log_step (Event.committed_at offset) l = commit_entry l.uncommitted offset l
log_step (Event.truncated_from offset) l = record l {
  uncommitted = filter (λ u. ltb u.offset offset) l.uncommitted;
}
log_step (Event.snapshot_applied r) l = record { uncommitted = []; newest = r; older = [] }
log_step Event.reverted l = record l { uncommitted = [] }

unfoldable pub log_steps : List Event → Log → Log
log_steps [] l = l
log_steps (e ∷ es) l = log_steps es (log_step e l)

abbrev in_flight : Option PendingMembershipChange → List VotersRecord
in_flight none = []
in_flight (some p) = p.change ∷ []

abbrev pub latest : List VotersRecord → VotersRecord → VotersRecord
latest [] newest = newest
latest (u ∷ us) newest = u

abbrev SameOffset : Option PendingMembershipChange → Type 0
SameOffset none = Unit
SameOffset (some p) = p.change.offset ≡ p.offset

-- The state is the view of the log.
abbrev pub IsView : MembershipState → Log → Type 0
IsView m l =
    (m.committed ≡ l.newest)
    × (in_flight m.pending_membership_change ≡ l.uncommitted)
    × SameOffset m.pending_membership_change

step-IsView :
    (e : Event) (m : MembershipState) (l : Log) → IsView m l → IsView (apply e m) (log_step e l)
unfolding apply log_step propose_change commit_change clear_pending_if_truncated apply_snapshot
    clear_pending
step-IsView (Event.proposed voters offset) m l (c, p, o) = ground arith
step-IsView (Event.committed_at offset) m l (c, p, o) = ground arith
step-IsView (Event.truncated_from offset) m l (c, p, o) = ground arith
step-IsView (Event.snapshot_applied r) m l v = (refl, refl, tt)
step-IsView Event.reverted m l (c, _, _) = (c, refl, tt)

steps-IsView :
    (es : List Event) (m : MembershipState) (l : Log)
    → IsView m l
    → IsView (apply_all es m) (log_steps es l)
unfolding apply_all log_steps
steps-IsView [] m l v = v
steps-IsView (e ∷ es) m l v = steps-IsView es (apply e m) (log_step e l) (step-IsView e m l v)

-- what a view answers
view-answers :
    (m : MembershipState) (l : Log) (voters : List NodeId) (offset : ℕ)
    → IsView m l
    → (effective_voters m ≡ latest l.uncommitted l.newest)
      × ((has_pending_change m ≡ true) ↔ (l.uncommitted ≢ []))
      × (((propose_change voters offset m).0 ≡ ok (record { voters = voters; offset = offset }))
          ↔ (l.uncommitted ≡ []))
unfolding effective_voters has_pending_change propose_change
view-answers m l voters offset (c, p, o) = ground arith

-- The log that a fresh state stands for: only the snapshot's configuration.
abbrev pub fresh_log : VotersRecord → Log
fresh_log r = record { uncommitted = []; newest = r; older = [] }

-- After any sequence of proposals, commits, truncations and snapshots, the state answers for the
-- whole log: its committed configuration is the log's newest committed one, the effective one is the
-- log's newest, and a proposal succeeds exactly when no configuration of the log is uncommitted, which
-- is when no change is reported pending.
pub membership_refines_log :
    (r : VotersRecord) (es : List Event) (voters : List NodeId) (offset : ℕ)
    → let m = apply_all es (restore_from_snapshot r) in
      let l = log_steps es (fresh_log r) in
      (m.committed ≡ l.newest)
      × (effective_voters m ≡ latest l.uncommitted l.newest)
      × ((has_pending_change m ≡ true) ↔ (l.uncommitted ≢ []))
      × (((propose_change voters offset m).0 ≡ ok (record { voters = voters; offset = offset }))
          ↔ (l.uncommitted ≡ []))
membership_refines_log r es voters offset =
    let v = steps-IsView es (restore_from_snapshot r) (fresh_log r) (refl, refl, tt) in
    let (a, b, c) =
      view-answers (apply_all es (restore_from_snapshot r)) (log_steps es (fresh_log r)) voters
        offset v in
    (v.0, a, b, c)
