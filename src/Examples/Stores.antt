-- ===== src/Examples/Stores.antt =====
-- The theorems on the stores, the queue, the codec and the membership state.
use xraft.Prelude.{
  ◌*◌, ◌<◌, ℕ, ◌+◌, ◌-◌, ◌≤◌, ◌≡◌, ◌≢◌, ◌↔◌, refl, true, false, Option, none, some, List, [], ◌∷◌,
  filter, arith, ltb, length, get_elem?, if◌then◌else◌,
}
use xraft.Prelude.Exec.{ok}
use xraft.Types.{LogEntry, EntryType, Bytes}
use xraft.Types.Rpc.{RpcEnvelope, RpcPayload}
use xraft.Storage.MemoryLog.{Inner, log_end_offset, entry_at, truncate_suffix}
use xraft.Storage.LogHistory.{Change, appended, suffix_cut, prefix_cut, AbstractLog}
use xraft.Storage.FilterLog as filtering
use xraft.Storage.FilterLog.{FilterLog, counted, agrees_with_counting}
use xraft.Storage.Index.{lookup, last_at_most, lookup-last_at_most}
use xraft.Completion.{DeferredCompletionQueue, complete}
use xraft.Completion.Delivery.{below, from, waiting, complete_lem}
use xraft.Codec.{Bincode, encode, decode, to_be_bytes}
use xraft.Codec.RoundTrip.{decode-encode}
use xraft.Membership.{
  VotersRecord, quorum_size, restore_from_snapshot, effective_voters, has_pending_change,
  propose_change,
}
use xraft.Membership.Changes.{
  Event, apply_all, log_steps, fresh_log, latest, membership_refines_log,
}

abbrev entry : ℕ → LogEntry
entry o = record { offset = o; term = 1; entry_type = EntryType.command; payload = o ∷ [] }

-- a log from offset 5
abbrev log : Inner
log = record { entries = entry 5 ∷ entry 6 ∷ entry 7 ∷ []; start_offset = 5; fsync_fails = false }

-- the same, by offsets
abbrev by_offset : AbstractLog
by_offset = record {
  start = 5;
  end = 8;
  at = λ o. if ltb o 5 then none else get_elem? log.entries (o - 5);
}

abbrev changes : List Change
changes = suffix_cut 6 ∷ appended (entry 6 ∷ entry 7 ∷ []) ∷ prefix_cut 7 ∷ []

-- every fourth entry is indexed
abbrev index : List (ℕ × ℕ)
index = (0, 0) ∷ (4, 210) ∷ (8, 430) ∷ []

lookup-last_at_most_example : lookup 6 index ≡ last_at_most 6 index
lookup-last_at_most_example = lookup-last_at_most 6 index (omega arith, (omega arith, tt))

abbrev queue : DeferredCompletionQueue
queue = record { pending = (3, 10 ∷ 11 ∷ []) ∷ (5, 12 ∷ []) ∷ []; sent = [] }

complete_lem_example :
    let done = complete 5 queue in
    (done.0 ≡ length (filter (below 5) (waiting queue.pending)))
    × (waiting done.1.pending ≡ filter (from 5) (waiting queue.pending))
    × (done.1.sent ≡ filter (below 5) (waiting queue.pending))
complete_lem_example = complete_lem 5 queue (omega arith, tt)

-- an encoding of the envelopes that ask to remove a voter
abbrev serialize : ℕ → ℕ → ℕ → RpcPayload → Option Bytes
serialize c l s (RpcPayload.remove_voter_request v) = some (c ∷ l ∷ s ∷ v ∷ [])
serialize c l s _ = none

abbrev deserialize : Bytes → Option RpcEnvelope
deserialize (c ∷ l ∷ s ∷ v ∷ []) = some (record {
  cluster_id = c;
  leader_epoch = l;
  source = s;
  payload = RpcPayload.remove_voter_request v;
})
deserialize _ = none

abbrev bincode : Bincode
bincode = record {
  serialize = λ e. serialize e.cluster_id e.leader_epoch e.source e.payload;
  deserialize = deserialize;
}

deserialize-serialize :
    (c l s : ℕ) (p : RpcPayload) (b : Bytes)
    → serialize c l s p ≡ some b
    → deserialize b ≡ some (record { cluster_id = c; leader_epoch = l; source = s; payload = p })
deserialize-serialize c l s p b h = ground arith

abbrev envelope : RpcEnvelope
envelope = record {
  cluster_id = 7;
  leader_epoch = 1;
  source = 1;
  payload = RpcPayload.remove_voter_request 3;
}

abbrev frame : Bytes
frame = 0 ∷ 0 ∷ 0 ∷ 4 ∷ 7 ∷ 1 ∷ 1 ∷ 3 ∷ []

encodes : encode bincode envelope ≡ ok frame
unfolding encode to_be_bytes
encodes = refl

decode-encode_example :
    (decode bincode 7 frame ≡ ok envelope)
    × ((payload : Bytes) × (a : ℕ) × (b : ℕ) × (c : ℕ) × (d : ℕ) × (bincode.serialize envelope
          ≡ some payload)
        × (frame ≡ a ∷ b ∷ c ∷ d ∷ payload)
        × (length payload ≡ ((a * 256 + b) * 256 + c) * 256 + d)
        × (a < 256)
        × (b < 256)
        × (c < 256)
        × (d < 256))
decode-encode_example =
    decode-encode bincode
      (λ e b. deserialize-serialize e.cluster_id e.leader_epoch e.source e.payload b) 7 envelope
      frame encodes

abbrev voters : VotersRecord
voters = record { voters = 1 ∷ 2 ∷ 3 ∷ []; offset = 0 }

two_of_three : quorum_size voters ≤ 2
unfolding quorum_size
two_of_three = omega arith

abbrev events : List Event
events = Event.proposed (1 ∷ 2 ∷ []) 4 ∷ Event.truncated_from 4 ∷ Event.proposed (1 ∷ 3 ∷ []) 4 ∷ []

membership_refines_log_example :
    let m = apply_all events (restore_from_snapshot voters) in
    let l = log_steps events (fresh_log voters) in
    (m.committed ≡ l.newest)
    × (effective_voters m ≡ latest l.uncommitted l.newest)
    × ((has_pending_change m ≡ true) ↔ (l.uncommitted ≢ []))
    × (((propose_change (1 ∷ []) 5 m).0 ≡ ok (record { voters = 1 ∷ []; offset = 5 }))
        ↔ (l.uncommitted ≡ []))
membership_refines_log_example = membership_refines_log voters events (1 ∷ []) 5

abbrev filter_log : FilterLog
filter_log = record { entries = entry 5 ∷ entry 6 ∷ entry 7 ∷ []; start_offset = 5 }

agrees_with_counting_example :
    (filtering.log_end_offset filter_log ≡ log_end_offset log)
    × (filtering.entry_at 6 filter_log ≡ entry_at 6 log)
    × (counted (filtering.truncate_suffix 6 filter_log).1 ≡ (truncate_suffix 6 log).1)
agrees_with_counting_example =
    agrees_with_counting filter_log 6 (refl, (refl, (refl, tt))) (omega arith)
