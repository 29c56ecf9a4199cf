-- ===== src/Node/Leadership.antt =====
-- Winning an election: `become_leader` of xraft-core/src/raft_node.rs, by its result.
use xraft.Prelude.{
  ◌⊎◌, length, some, sym, ◌==◌, if◌then◌else◌, [], ◌∷◌, true, false, ◌∙◌, ap, ◌≡◌, refl, arith,
  Bool-cases, inl, inr,
}
use xraft.Prelude.Exec.{continue, bind_ok, Result-cases, ok, err, Result, ◌>>=◌}
use xraft.Types.{Bytes, LogEntry, EntryType, Role, NodeState}
use xraft.Node.Traits.{Traits, XraftError}
use xraft.Node.State.{log_has_voters_record, RaftNode}
use xraft.Node.Election.{
  lead, append_leader_change, append_voters_record, take_leadership, become_leader,
}

-- What one call of `become_leader` did, by its result.
abbrev pub Outcome : {T : Traits} → Result XraftError (Unit {0}) → RaftNode T → RaftNode T → Type 0
Outcome {T} (ok _) n n' =
    (n'.state ≡ lead (T.logs.log_end_offset n'.log_store) n.state)
    × (n'.listener ≡ T.app.handle_leader_change n.state.node_id n.state.current_term n.listener)
Outcome (err _) n n' = (n'.state ≡ n.state) × (n'.listener ≡ n.listener)

module _ {T : Traits} where
  abbrev Untouched : RaftNode T → RaftNode T → Type 0
  Untouched n m = (m.state ≡ n.state) × (m.listener ≡ n.listener)

  append_leader_change-Untouched : (n : RaftNode T) → Untouched n (append_leader_change n).1
  unfolding append_leader_change
  append_leader_change-Untouched n = (refl, refl)

  append_voters_record-Untouched : (n : RaftNode T) → Untouched n (append_voters_record n).1
  unfolding append_voters_record
  append_voters_record-Untouched n = ground arith

  then_lead :
      (r : Result XraftError (Unit {0})) (n m : RaftNode T)
      → Untouched n m
      → Outcome (continue r (λ _. take_leadership) m).0 n (continue r (λ _. take_leadership) m).1
  unfolding take_leadership
  then_lead (ok _) n m (s, l) = (
    ap (lead (T.logs.log_end_offset m.log_store)) s,
    λ i. T.app.handle_leader_change (s i).node_id (s i).current_term (l i),
  )
  then_lead (err e) n m h = h

  then_append :
      (r : Result XraftError (Unit {0})) (n m : RaftNode T)
      → Untouched n m
      → let rest = continue r (λ _. append_voters_record >>= λ _. take_leadership) m in
        Outcome rest.0 n rest.1
  then_append (ok _) n m (s, l) =
      let (s', l') = append_voters_record-Untouched m in
      then_lead (append_voters_record m).0 n (append_voters_record m).1 (s' ∙ s, l' ∙ l)
  then_append (err e) n m h = h

  pub become_leader-Outcome : (n : RaftNode T) → Outcome (become_leader n).0 n (become_leader n).1
  unfolding become_leader
  become_leader-Outcome n =
      let m = append_leader_change n in
      elim (Bool-cases (log_has_voters_record n)) [
        | inl e ↦ rw e (then_lead m.0 n m.1 (append_leader_change-Untouched n))
        | inr e ↦ rw e (then_append m.0 n m.1 (append_leader_change-Untouched n))
      ]

  -- the entry that a new leader appends first
  abbrev pub change_entry : RaftNode T → LogEntry
  change_entry n = record {
    offset = T.logs.log_end_offset n.log_store;
    term = n.state.current_term;
    entry_type = EntryType.leader_change_message;
    payload = [];
  }

  -- the entry with the voters, behind a log
  abbrev pub voters_entry : Bytes → T.logs.Log → RaftNode T → LogEntry
  voters_entry payload l n = record {
    offset = T.logs.log_end_offset l;
    term = n.state.current_term;
    entry_type = EntryType.voters_record;
    payload = payload;
  }

  -- what the log store did on the way to leadership
  abbrev pub Appended : RaftNode T → T.logs.Log → Type 0
  Appended n log =
      let (r, l) = T.logs.append (change_entry n ∷ []) n.log_store in
      (r ≡ ok tt)
      × (((log_has_voters_record n ≡ true) × (log ≡ l))
          ⊎ ((log_has_voters_record n ≡ false)
              × ((payload : Bytes) × (T.app.serialize
                      (record { version = 1; voters = n.state.voter_set })
                    ≡ ok payload)
                  × ((T.logs.append (voters_entry payload l n ∷ []) l).0 ≡ ok tt)
                  × (log ≡ (T.logs.append (voters_entry payload l n ∷ []) l).1))))

  change-ok :
      (n : RaftNode T)
      → (append_leader_change n).0 ≡ ok tt
      → ((T.logs.append (change_entry n ∷ []) n.log_store).0 ≡ ok tt)
        × ((append_leader_change n).1
            ≡ record n { log_store = (T.logs.append (change_entry n ∷ []) n.log_store).1 })
  unfolding append_leader_change
  change-ok n h = (ground arith, refl)

  voters-ok :
      (n : RaftNode T)
      → (append_voters_record n).0 ≡ ok tt
      → (payload : Bytes) × (T.app.serialize (record { version = 1; voters = n.state.voter_set })
          ≡ ok payload)
        × ((T.logs.append (voters_entry payload n.log_store n ∷ []) n.log_store).0 ≡ ok tt)
        × ((append_voters_record n).1.log_store
            ≡ (T.logs.append (voters_entry payload n.log_store n ∷ []) n.log_store).1)
  unfolding append_voters_record
  voters-ok n h =
      elim (Result-cases (T.app.serialize (record { version = 1; voters = n.state.voter_set }))) [
        | inr (e, f) ↦ absurd (ground arith)
        | inl (payload, f) ↦ (payload, f, ground arith, ground arith)
      ]

  leader-log : (n : RaftNode T) → (take_leadership n).1.log_store ≡ n.log_store
  unfolding take_leadership
  leader-log n = refl

  become_leader-Appended :
      (n : RaftNode T) → (become_leader n).0 ≡ ok tt → Appended n (become_leader n).1.log_store
  unfolding become_leader
  become_leader-Appended n h = elim (Bool-cases (log_has_voters_record n)) [
    | inl e ↦
        let (_, one, _, same) = bind_ok append_leader_change (λ _. take_leadership) n (rw e at h) in
        let (good, m) = change-ok n one in
        (
          good,
          inl (
            e,
            rw e (
                ap (λ (k : RaftNode T). k.log_store) same
                ∙ leader-log (append_leader_change n).1
                ∙ ap (λ (k : RaftNode T). k.log_store) m),
          ),
        )
    | inr e ↦
        let (_, one, rest, same) =
          bind_ok append_leader_change (λ _. append_voters_record >>= λ _. take_leadership) n
            (rw e at h) in
        let (good, m) = change-ok n one in
        let k = (append_leader_change n).1 in
        let (_, two, _, last) = bind_ok append_voters_record (λ _. take_leadership) k rest in
        let two' = ap (λ x. (append_voters_record x).0) (sym m) ∙ two in
        let (payload, s, good', log) =
          voters-ok (record n { log_store = (T.logs.append (change_entry n ∷ []) n.log_store).1 })
            two' in
        (
          good,
          inr (
            e,
            (
              payload,
              s,
              good',
              rw e (
                  ap (λ (x : RaftNode T). x.log_store) (same ∙ last)
                  ∙ leader-log (append_voters_record k).1
                  ∙ ap (λ x. (append_voters_record x).1.log_store) m
                  ∙ log),
            ),
          ),
        )
  ]

  -- what a call of `become_leader` did, by its result
  abbrev pub Led : Result XraftError (Unit {0}) → RaftNode T → RaftNode T → Type 0
  Led (err _) n n' = (n'.state ≡ n.state) × (n'.listener ≡ n.listener)
  Led (ok _) n n' =
      let end = T.logs.log_end_offset n'.log_store in
      Appended n n'.log_store
      × (n'.state.role ≡ Role.leader)
      × (n'.state.leader_id ≡ some n.state.node_id)
      × (n'.state.current_term ≡ n.state.current_term)
      × (n'.state.voted_for ≡ n.state.voted_for)
      × (n'.state.voter_set ≡ n.state.voter_set)
      × (n'.state.log_end_offset ≡ end)
      × (n'.state.high_watermark
          ≡ (if length n.state.voter_set == 1 then end else n.state.high_watermark))
      × (n'.listener ≡ T.app.handle_leader_change n.state.node_id n.state.current_term n.listener)

  Outcome-Led :
      (r : Result XraftError (Unit {0})) (n n' : RaftNode T)
      → Outcome r n n'
      → (r ≡ ok tt → Appended n n'.log_store)
      → Led r n n'
  Outcome-Led (err e) n n' h appended = h
  Outcome-Led (ok tt) n n' (s, l) appended = (
    appended refl,
    ap (λ (x : NodeState). x.role) s,
    ap (λ (x : NodeState). x.leader_id) s,
    ap (λ (x : NodeState). x.current_term) s,
    ap (λ (x : NodeState). x.voted_for) s,
    ap (λ (x : NodeState). x.voter_set) s,
    ap (λ (x : NodeState). x.log_end_offset) s,
    ap (λ (x : NodeState). x.high_watermark) s,
    l,
  )

  -- `become_leader` leaves the node's state and its listener alone if it fails. If it succeeds, the log
  -- store has appended a LeaderChangeMessage of the node's term at its end and, if the log had no
  -- VotersRecord, then one with the node's voters behind it, both without an error; the node leads, in
  -- its term, with its vote and its voters, and names itself as the leader; its log end is the store's;
  -- if it is the only voter the whole log is committed, and otherwise the high watermark is as it was;
  -- and the listener has been told of the leader and the term.
  pub become_leader_lem : (n : RaftNode T) → Led (become_leader n).0 n (become_leader n).1
  become_leader_lem n =
      Outcome-Led (become_leader n).0 n (become_leader n).1 (become_leader-Outcome n)
        (become_leader-Appended n)
