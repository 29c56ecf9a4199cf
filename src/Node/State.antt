-- ===== src/Node/State.antt =====
-- The state of a node, and the steps that its handlers are made of.
use xraft.Prelude.{
  ℕ, ◌+◌, ◌-◌, ◌/◌, Bool, true, false, Option, none, some, List, leb, ◌==◌, length, any,
  if◌then◌else◌,
}
use xraft.Prelude.Exec.{Result, ok, err, Exec}
use xraft.Config.{RaftConfig}
use xraft.Types.{NodeId, Term, NodeState, QuorumState, LogEntry, EntryType}
use xraft.Node.Traits.{Traits, XraftError, storage_error, Io}

pub record RaftNode (T : Traits) : Type 0 where
  pub state : NodeState
  pub config : RaftConfig
  pub log_store : T.logs.Log
  pub quorum_state_store : T.quorums.Quorum
  pub snapshot_io : T.app.Snapshots
  pub outbox : T.net.Outbox
  pub inbox : T.net.Inbox
  pub clock : T.clocks.Time
  pub state_machine : T.app.Machine
  pub listener : T.app.Ear
  pub bootstrapped : Bool

-- A method of the node: it may fail, and keeps what it wrote.
abbrev pub Method : Traits → Type 0 → Type 0
Method T A = Exec (RaftNode T) XraftError A

-- `?` on an I/O error.
abbrev pub storage : {A : Type 0} → Io A → Result XraftError A
storage (ok a) = ok a
storage (err e) = err (storage_error e)

-- the quorum state that the handlers write: no leader, epoch zero
abbrev pub quorum_state : Option NodeId → NodeState → QuorumState
quorum_state voted_for s = record {
  current_term = s.current_term;
  voted_for = voted_for;
  leader_id = none;
  leader_epoch = 0;
  cluster_id = s.cluster_id;
}

-- `has_quorum`: a majority of a voter set that is not empty
unfoldable pub has_quorum : NodeState → Bool
has_quorum s =
    let total = length s.voter_set in
    if total == 0 then false else leb (total / 2 + 1) (length s.votes_received)

abbrev last_entry : ℕ → Io (Option LogEntry) → ℕ × Term
last_entry offset (ok (some entry)) = (offset, entry.term)
last_entry offset (ok none) = (offset, 0)
last_entry offset (err e) = (offset, 0)

abbrev is_voters_record : EntryType → Bool
is_voters_record EntryType.voters_record = true
is_voters_record _ = false

abbrev any_voters_record : Io (List LogEntry) → Bool
any_voters_record (ok entries) = any (λ e. is_voters_record e.entry_type) entries
any_voters_record (err e) = false

module _ {T : Traits} where
  abbrev pub modify : (NodeState → NodeState) → Method T (Unit {0})
  modify f n = (ok tt, record n { state = f n.state })

  -- `election_deadline = clock.now() + clock.random_election_timeout()`, the timeout drawn first
  unfoldable pub reset_election_timer : Method T (Unit {0})
  reset_election_timer n =
      let (timeout, c) = T.clocks.random_election_timeout n.clock in
      let (now, c') = T.clocks.now c in
      (ok tt, record n { clock = c'; state = record n.state { election_deadline = now + timeout } })

  unfoldable pub save_quorum_state : Option NodeId → Method T (Unit {0})
  save_quorum_state voted_for n =
      let (r, q) = T.quorums.save (quorum_state voted_for n.state) n.quorum_state_store in
      (storage r, record n { quorum_state_store = q })

  -- `last_log_info`: the offset and the term of the last entry in the log store
  unfoldable pub last_log_info : RaftNode T → ℕ × Term
  last_log_info n =
      let end = T.logs.log_end_offset n.log_store in
      if end == 0 then (0, 0) else last_entry (end - 1) (T.logs.entry_at (end - 1) n.log_store)

  unfoldable pub log_has_voters_record : RaftNode T → Bool
  log_has_voters_record n =
      let start = T.logs.log_start_offset n.log_store in
      let end = T.logs.log_end_offset n.log_store in
      if leb end start then false else any_voters_record (T.logs.read start end n.log_store)
