-- ===== src/Node/Rejoin.antt =====
-- The voters of a node that comes back: `new` and `recover` of xraft-core/src/raft_node.rs.
use xraft.Prelude.{
  ◌≢◌, ◌⊎◌, List, Option-cases, Bool-cases, ltb, ◌≡◌, refl, ◌∙◌, ap, true, false, none, some, [],
  arith, inl, inr,
}
use xraft.Prelude.Exec.{ok, err, Result, Result-cases}
use xraft.Types.{
  Instant, Role, Snapshot, LogEntry, VotersRecord, Bytes, NodeId, VoterInfo, is_voter,
  new_unattached,
}
use xraft.Node.Traits.{Traits, XraftError, recovery_required}
use xraft.Node.State.{RaftNode, reset_election_timer}
use xraft.Node.Startup.{has_existing_data, latest_voters, recover, settle, new}

module _ {T : Traits} where
  -- where the voters of a node that recovered come from: the snapshot, the log, or what it knew
  pub recover-voters :
      (n : RaftNode T)
      → (recover n).0 ≡ ok tt
      → let m = (recover n).1 in
        (m.state.role ≡ Role.follower)
        × ((m.state.voter_set ≡ n.state.voter_set)
            ⊎ ((snap : Snapshot) × (T.app.load_latest n.snapshot_io ≡ ok (some snap))
                × (m.state.voter_set ≡ snap.metadata.voters))
            ⊎ ((es : List LogEntry) × (r : VotersRecord) × (T.logs.read
                    (T.logs.log_start_offset n.log_store)
                    (T.logs.log_end_offset n.log_store)
                    n.log_store
                  ≡ ok es)
                × (latest_voters T.app.deserialize es ≡ some r)
                × (m.state.voter_set ≡ r.voters)))
  unfolding recover reset_election_timer
  recover-voters n h = elim (Result-cases (T.app.load_latest n.snapshot_io)) [
    | inr (e, f) ↦ absurd (ground arith)
    | inl (some snap, f) ↦ (ground arith, inr (inl (snap, f, ground arith)))
    | inl (none, f) ↦
        elim (Result-cases (
          T.logs.read (T.logs.log_start_offset n.log_store) (T.logs.log_end_offset n.log_store)
            n.log_store)) [
              | inr (e, g) ↦ (ground arith, inl (ground arith))
              | inl (es, g) ↦ elim (Option-cases (latest_voters T.app.deserialize es)) [
                | inl k ↦ (ground arith, inl (ground arith))
                | inr (r, k) ↦ elim (Result-cases (T.quorums.load n.quorum_state_store)) [
                  | inr (e, q) ↦ absurd (ground arith)
                  | inl (none, q) ↦ (ground arith, inl (ground arith))
                  | inl (some qs, q) ↦
                      elim (Bool-cases (
                        ltb (T.logs.log_start_offset n.log_store)
                          (T.logs.log_end_offset n.log_store))) [
                            | inl l ↦ (ground arith, inr (inr (es, r, g, k, ground arith)))
                            | inr l ↦ (ground arith, inl (ground arith))
                          ]
                ]
              ]
            ]
  ]

  -- a recovery asks for one only if the state machine does
  recover-not_required :
      (n : RaftNode T)
      → ((b : Bytes) (m : T.app.Machine) → (T.app.restore b m).0 ≢ err recovery_required)
      → (recover n).0 ≢ err recovery_required
  unfolding recover reset_election_timer
  recover-not_required n law h = elim (Result-cases (T.app.load_latest n.snapshot_io)) [
    | inr (e, f) ↦ ground arith
    | inl (none, f) ↦ ground arith
    | inl (some snap, f) ↦ ground (arith, law snap.app_snapshot n.state_machine)
  ]

  -- What a node that comes back finds: voters `V`, with itself among them, wherever it finds any; and a
  -- state machine whose own errors are not `recovery_required`.
  pub record Finds (V : List VoterInfo) (i : NodeId) (parts : RaftNode T) : Type 0 where
    pub in_snapshot :
        (snap : Snapshot)
        → T.app.load_latest parts.snapshot_io ≡ ok (some snap)
        → (snap.metadata.voters ≡ V) × (is_voter i V ≡ true)
    pub in_log :
        (es : List LogEntry) (r : VotersRecord)
        → T.logs.read
            (T.logs.log_start_offset parts.log_store)
            (T.logs.log_end_offset parts.log_store)
            parts.log_store
          ≡ ok es
        → latest_voters T.app.deserialize es ≡ some r
        → (r.voters ≡ V) × (is_voter i V ≡ true)
    pub machine : (b : Bytes) (m : T.app.Machine) → (T.app.restore b m).0 ≢ err recovery_required

  settled :
      (r : Result XraftError (Unit {0}) × RaftNode T) (m : RaftNode T)
      → r.0 ≢ err recovery_required
      → settle r ≡ ok m
      → (r.0 ≡ ok tt) × (m ≡ r.1)
  settled (ok tt, n) m h k = (refl, cc k)
  settled (err recovery_required, n) m h k = absurd (h refl)
  settled (err _, n) m h k = absurd (cc k)

  -- a node that is made anew is unattached, or it recovered and knows no voters or these
  pub new-Finds :
      (V : List VoterInfo) (i : NodeId) (now : Instant) (parts m : RaftNode T)
      → Finds V i parts
      → new now parts ≡ ok m
      → (m.state ≡ new_unattached parts.config.node_id now)
        ⊎ ((m.state.role ≡ Role.follower)
            × ((m.state.voter_set ≡ []) ⊎ ((m.state.voter_set ≡ V) × (is_voter i V ≡ true))))
  unfolding new
  new-Finds V i now parts m finds made =
      let fresh : RaftNode T = record parts {
        state = new_unattached parts.config.node_id now;
        bootstrapped = false;
      } in
      elim (Result-cases (has_existing_data parts)) [
        | inr (e, h) ↦ absurd (ground arith)
        | inl (false, h) ↦ inl (ground arith)
        | inl (true, h) ↦
            let came : settle (recover fresh) ≡ ok m = ground arith in
            let (done, same) =
              settled (recover fresh) m (recover-not_required fresh finds.machine) came in
            let (follows, source) = recover-voters fresh done in
            let voters = ap (λ (k : RaftNode T). k.state.voter_set) same in
            inr (
              ap (λ (k : RaftNode T). k.state.role) same ∙ follows,
              elim source [
                | inl none_new ↦ inl (voters ∙ none_new)
                | inr (inl (snap, f, v)) ↦
                    let (a, b) = finds.in_snapshot snap f in inr (voters ∙ v ∙ a, b)
                | inr (inr (es, r, g, k, v)) ↦
                    let (a, b) = finds.in_log es r g k in inr (voters ∙ v ∙ a, b)
              ],
            )
      ]
