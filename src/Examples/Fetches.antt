-- ===== src/Examples/Fetches.antt =====
-- The theorems on Fetch, over a log that is a list.
use xraft.Prelude.{
  ℕ, zero, suc, ◌-◌, ◌≤◌, ◌≡◌, refl, ap, true, false, none, some, List, [], ◌∷◌, ◌++◌, arith,
  length, take, drop, length-append, length-take,
}
use xraft.Prelude.Exec.{err}
use xraft.Types.{Term, Bytes, LogEntry, EntryType, Role, new_unattached}
use xraft.Types.Rpc.{FetchResponse}
use xraft.Completion.{empty_queue, complete}
use xraft.Replication.Parts.{Parts, Follower, InvalidResponse, invalid_response}
use xraft.Replication.Follower.{DefaultSnapshotCoordinator, begin_snapshot_transfer}
use xraft.Replication.Fetch.{
  app_records, apply_entry, apply_entries, notify, execute_commit_notification,
  handle_fetch_response,
}
use xraft.Replication.Monotone.{LawfulLog, committed_entries_stay}
use xraft.Replication.Committed.{fed, Accepted, commit_notification_lem}
use xraft.Replication.Refused.{conflicting_response_moves_term}
use xraft.Examples.World.{counting_clock}

abbrev range : ℕ → ℕ → List LogEntry → List LogEntry
range a b l = take (b - a) (drop a l)

abbrev term_of : List LogEntry → Term
term_of [] = 0
term_of (e ∷ []) = e.term
term_of (e ∷ f ∷ es) = term_of (f ∷ es)

-- a state machine that keeps the offsets it was given
abbrev parts : Parts
parts = record {
  Log = List LogEntry;
  append_entries = λ es l. l ++ es;
  truncate_log = take;
  entries_in_range = range;
  log_end_offset = length;
  last_log_term = term_of;
  clocks = counting_clock;
  Machine = List ℕ;
  apply = λ offset payload m. (true, m ++ (offset ∷ []));
  Ear = List (List (ℕ × Bytes));
  handle_commit = λ batch heard. heard ++ (batch ∷ []);
  begin_shutdown = λ heard. heard;
  Coordinator = DefaultSnapshotCoordinator;
  begin_snapshot_transfer = begin_snapshot_transfer;
  is_transfer_in_progress = λ c. c.in_progress;
  deserialize = λ b. none;
}

take-append : (n : ℕ) (l es : List LogEntry) → n ≤ length l → take n (l ++ es) ≡ take n l
take-append zero l es h = refl
take-append (suc n) [] es h = absurd (omega arith)
take-append (suc n) (e ∷ l) es h = ap (λ x. e ∷ x) (take-append n l es (omega arith))

range-append :
    (k a : ℕ) (es l : List LogEntry)
    → k ≤ length l - a
    → take k (drop a (l ++ es)) ≡ take k (drop a l)
range-append k zero es l h = take-append k l es (omega arith)
range-append zero (suc a) es l h = refl
range-append (suc k) (suc a) es [] h = absurd (omega arith)
range-append (suc k) (suc a) es (e ∷ l) h = range-append (suc k) a es l (omega arith)

take-take : (m n : ℕ) (l : List LogEntry) → m ≤ n → take m (take n l) ≡ take m l
take-take zero n l h = refl
take-take (suc m) zero l h = absurd (omega arith)
take-take (suc m) (suc n) [] h = refl
take-take (suc m) (suc n) (e ∷ l) h = ap (λ x. e ∷ x) (take-take m n l (omega arith))

range-take :
    (k a n : ℕ) (l : List LogEntry) → k ≤ n - a → take k (drop a (take n l)) ≡ take k (drop a l)
range-take k zero n l h = take-take k n l (omega arith)
range-take zero (suc a) n l h = refl
range-take (suc k) (suc a) zero l h = absurd (omega arith)
range-take (suc k) (suc a) (suc n) [] h = refl
range-take (suc k) (suc a) (suc n) (e ∷ l) h = range-take (suc k) a n l (omega arith)

parts-LawfulLog : LawfulLog parts
parts-LawfulLog = record {
  append_grows = λ es l. omega (arith, length-append l es);
  append_keeps = λ es l a b h. range-append (b - a) a es l (omega arith);
  truncate_ends = λ n l h. omega (arith, length-take n l);
  truncate_keeps = λ n l a b h k. range-take (b - a) a n l (omega arith);
}

abbrev entry : ℕ → LogEntry
entry o = record { offset = o; term = 1; entry_type = EntryType.command; payload = o ∷ [] }

-- a follower of node 2 with three entries, one of them committed
abbrev fetching : Follower parts
fetching = record {
  max_fetch_bytes = 1024;
  fetch_interval = 50;
  state = record (new_unattached 1 0) {
    current_term = 1;
    role = Role.follower;
    leader_id = some 2;
    high_watermark = 1;
  };
  log = entry 0 ∷ entry 1 ∷ entry 2 ∷ [];
  fetch_deadline = 0;
  leader_epoch_checkpoint = [];
  state_machine = 0 ∷ [];
  listener = [];
  completion_queue = empty_queue;
  snapshot_coordinator = record { in_progress = false; max_fetch_bytes = 1024 };
  clock = 0;
}

-- one entry more, and everything committed
abbrev response : FetchResponse
response = record {
  leader_id = 2;
  leader_epoch = 1;
  high_watermark = 4;
  log_start_offset = 0;
  entries = entry 3 ∷ [];
  diverging_epoch = none;
  snapshot_id = none;
}

committed_entries_stay_example :
    let g = (handle_fetch_response response fetching).1 in
    (1 ≤ g.state.current_term)
    × (1 ≤ g.state.high_watermark)
    × (g.state.high_watermark ≤ length g.log)
    × (range 0 1 g.log ≡ entry 0 ∷ [])
committed_entries_stay_example =
    committed_entries_stay parts-LawfulLog response fetching 0 1 (omega arith) (omega arith)

commit_notification_lem_example :
    let g = (execute_commit_notification 1 3 fetching).1 in
    let records = app_records (entry 1 ∷ entry 2 ∷ []) in
    (g.state_machine ≡ fed parts records (0 ∷ []))
    × Accepted parts records (0 ∷ [])
    × (g.listener ≡ records ∷ [])
    × (g.completion_queue ≡ (complete 3 empty_queue).1)
unfolding execute_commit_notification apply_entries apply_entry notify
commit_notification_lem_example = commit_notification_lem 1 3 fetching

abbrev confused : FetchResponse
confused = record response {
  leader_epoch = 2;
  diverging_epoch = some (record { epoch = 1; end_offset = 2 });
  snapshot_id = some (record { end_offset = 2; epoch = 1 });
}

conflicting_response_moves_term_example :
    let g = (handle_fetch_response confused fetching).1 in
    ((handle_fetch_response confused fetching).0
      ≡ err (invalid_response InvalidResponse.conflicting_fields))
    × (g.state.current_term ≡ confused.leader_epoch)
    × (g.state.voted_for ≡ none)
    × (g.state.leader_id ≡ some confused.leader_id)
    × (g.state.role ≡ Role.follower)
    × (g.state.votes_received ≡ [])
    × (g.state.high_watermark ≡ fetching.state.high_watermark)
    × (g.state.voter_set ≡ fetching.state.voter_set)
    × (g.log ≡ fetching.log)
    × (g.state_machine ≡ fetching.state_machine)
    × (g.listener ≡ fetching.listener)
    × (g.completion_queue ≡ fetching.completion_queue)
conflicting_response_moves_term_example =
    conflicting_response_moves_term confused fetching (omega arith) refl
