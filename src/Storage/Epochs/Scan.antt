-- ===== src/Storage/Epochs/Scan.antt =====
-- The epochs that the checkpoint of xraft-storage/src/leader_epoch_checkpoint.rs is left with when
-- `StorageEngine::open` (xraft-storage/src/lib.rs) has scanned the log.
use xraft.Prelude.{
  ℕ, ◌+◌, ◌≤◌, ◌<◌, ◌≡◌, ◌≢◌, refl, ap, sym, ◌∙◌, inl, inr, Bool-cases, Option, none, some,
  Option-cases, List, [], ◌∷◌, arith, ltb, leb, ◌==◌, max, if◌then◌else◌,
}
use xraft.Prelude.Exec.{ok}
use xraft.Types.{Bytes, LogEntry}
use xraft.Storage.Segment.{Encoding}
use xraft.Storage.Segment.Batches.{in_range}
use xraft.Storage.SegmentLog.{SegmentLog}
use xraft.Storage.SegmentLog.Contents.{IsLog, read-IsLog, in_range-empty}
use xraft.Storage.Epochs.{
  EpochMap, lookup, insert, or_last, lookup_le, MapEncoding, LeaderEpochCheckpoint,
  is_leader_change, scan, open_checkpoint, persist, rebuild, open_epochs,
}

-- The keys rise, from a lower bound on.
abbrev pub IsRising : ℕ → EpochMap → Type 0
IsRising low [] = Unit
IsRising low ((e, o) ∷ m) = (low ≤ e) × IsRising (e + 1) m

abbrev or_first : Option ℕ → Option ℕ → Option ℕ
or_first none later = later
or_first (some o) later = some o

-- where the first leader of the term began
abbrev pub first_change : ℕ → List LogEntry → Option ℕ
first_change term [] = none
first_change term (e ∷ es) =
    let rest = first_change term es in
    if is_leader_change e.entry_type then if e.term == term then some e.offset else rest else rest

-- What a lookup at or before an epoch must answer: the greatest epoch not beyond it that has a start.
abbrev pub IsLatest : (ℕ → Option ℕ) → ℕ → Option (ℕ × ℕ) → Type 0
IsLatest start epoch none = (e : ℕ) → e ≤ epoch → start e ≡ none
IsLatest start epoch (some (found, offset)) =
    (found ≤ epoch)
    × (start found ≡ some offset)
    × ((e : ℕ) → found < e → e ≤ epoch → start e ≡ none)

lookup-below : (low e : ℕ) (m : EpochMap) → IsRising low m → e < low → lookup e m ≡ none
unfolding lookup
lookup-below low e [] r b = refl
lookup-below low e ((k, o) ∷ m) (l, r) b = ground (arith, lookup-below (k + 1) e m r (omega arith))

lookup-insert :
    (e k v : ℕ) (m : EpochMap) → lookup e (insert k v m) ≡ (if k == e then some v else lookup e m)
unfolding lookup insert
lookup-insert e k v [] = ground arith
lookup-insert e k v ((j, o) ∷ m) = ground (arith, lookup-insert e k v m)

IsRising-weaken : (low high : ℕ) (m : EpochMap) → low ≤ high → IsRising high m → IsRising low m
IsRising-weaken low high [] h r = tt
IsRising-weaken low high ((e, o) ∷ m) h (l, r) = (omega arith, r)

insert-IsRising :
    (low k v : ℕ) (m : EpochMap) → low ≤ k → IsRising low m → IsRising low (insert k v m)
unfolding insert
insert-IsRising low k v [] l r = (l, tt)
insert-IsRising low k v ((j, o) ∷ m) l (h, r) = elim (Bool-cases (j == k)) [
  | inl q ↦ rw q (l, IsRising-weaken (k + 1) (j + 1) m (ground arith) r)
  | inr n ↦ elim (Bool-cases (ltb k j)) [
    | inl b ↦ rw n (rw b (l, (ground arith, r)))
    | inr a ↦ rw n (rw a (h, insert-IsRising (j + 1) k v m (ground arith) r))
  ]
]

-- one pair before the others
extend-IsLatest :
    (k o epoch : ℕ) (m : EpochMap) (q : Option (ℕ × ℕ))
    → k ≤ epoch
    → IsRising (k + 1) m
    → IsLatest (λ e. lookup e m) epoch q
    → IsLatest (λ e. lookup e ((k, o) ∷ m)) epoch (or_last (k, o) q)
unfolding lookup
extend-IsLatest k o epoch m none le r h =
    (le, ground arith, λ e b e_le. let later = h e e_le in ground arith)
extend-IsLatest k o epoch m (some (f, v)) le r (f_le, start, after) =
    let beyond : k < f = elim (Bool-cases (ltb k f)) [
      | inl b ↦ ground arith
      | inr b ↦ absurd (let missing = lookup-below (k + 1) f m r (ground arith) in ground arith)
    ] in
    (f_le, ground arith, λ e b e_le. let later = after e b e_le in ground arith)

lookup_le-IsLatest :
    (low epoch : ℕ) (m : EpochMap)
    → IsRising low m
    → IsLatest (λ e. lookup e m) epoch (lookup_le epoch m)
unfolding lookup_le lookup
lookup_le-IsLatest low epoch [] r = λ e le. refl
lookup_le-IsLatest low epoch ((k, o) ∷ m) (l, r) = elim (Bool-cases (leb k epoch)) [
  | inl b ↦ rw b (
      extend-IsLatest k o epoch m (lookup_le epoch m) (ground arith) r
        (lookup_le-IsLatest (k + 1) epoch m r))
  | inr n ↦
      let beyond : epoch < k = ground arith in
      rw n (λ e le. lookup-below k e ((k, o) ∷ m) (omega arith, r) (omega arith))
]

scan-IsRising : (es : List LogEntry) (m : EpochMap) → IsRising 0 m → IsRising 0 (scan es m)
unfolding scan
scan-IsRising [] m r = r
scan-IsRising (e ∷ es) m r = elim (Bool-cases (is_leader_change e.entry_type)) [
  | inr n ↦ rw n (scan-IsRising es m r)
  | inl c ↦ elim (Option-cases (lookup e.term m)) [
    | inl q ↦ rw c (
        rw q (
          scan-IsRising es (insert e.term e.offset m)
            (insert-IsRising 0 e.term e.offset m (omega arith) r)))
    | inr (o, q) ↦ rw c (rw q (scan-IsRising es m r))
  ]
]

lookup-scan :
    (term : ℕ) (es : List LogEntry) (m : EpochMap)
    → lookup term (scan es m) ≡ or_first (lookup term m) (first_change term es)
unfolding scan
lookup-scan term [] m = elim (Option-cases (lookup term m)) [
  | inl q ↦ rw q refl
  | inr (o, q) ↦ rw q refl
]
lookup-scan term (e ∷ es) m = ground (
  arith,
  lookup-scan term es m,
  lookup-scan term es (insert e.term e.offset m),
  lookup-insert term e.term e.offset m,
)

IsLatest-agrees :
    (f g : ℕ → Option ℕ) (epoch : ℕ) (q : Option (ℕ × ℕ))
    → ((e : ℕ) → f e ≡ g e)
    → IsLatest f epoch q
    → IsLatest g epoch q
IsLatest-agrees f g epoch none same h = λ e le. sym (same e) ∙ h e le
IsLatest-agrees f g epoch (some (found, offset)) same (le, start, after) =
    (le, sym (same found) ∙ start, λ e b e_le. sym (same e) ∙ after e b e_le)

unfolded-scan : (e : ℕ) (es : List LogEntry) → lookup e (scan es []) ≡ first_change e es
unfolding lookup
unfolded-scan e es = lookup-scan e es []

scanned-IsLatest :
    (epoch : ℕ) (es : List LogEntry)
    → IsLatest (λ e. first_change e es) epoch (lookup_le epoch (scan es []))
scanned-IsLatest epoch es =
    IsLatest-agrees (λ e. lookup e (scan es [])) (λ e. first_change e es) epoch
      (lookup_le epoch (scan es [])) (λ e. unfolded-scan e es)
      (lookup_le-IsLatest 0 epoch (scan es []) (scan-IsRising es [] tt))

module _ (C : MapEncoding)
    (round_trip : (m : EpochMap) (b : Bytes)
      → IsRising 0 m
      → C.serialize m ≡ some b
      → C.deserialize b ≡ some m)
    (not_empty : (m : EpochMap) → C.serialize m ≢ some []) where
  reopen :
      (m : EpochMap) (b : Bytes) (temp : Option Bytes)
      → IsRising 0 m
      → C.serialize m ≡ some b
      → open_checkpoint C (some b) temp ≡ ok (record { file = some b; temp = temp; epochs = m })
  unfolding open_checkpoint
  reopen m [] temp r h = absurd (not_empty m h)
  reopen m (b ∷ bs) temp r h = rw (round_trip m (b ∷ bs) r h) refl

  -- If `bincode` reads back the maps that it wrote, and writes something for each, then for a log whose
  -- segments are sound and follow one another, a checkpoint file that can be parsed, whatever it
  -- says, and a scanned map that `bincode` writes: opening the checkpoint succeeds, and the lookup at
  -- or before an epoch then finds the greatest epoch up to it in which a leader of the log, from its
  -- start on, took over, with the offset where it first did, and nothing if there is none. Opening
  -- the file again gives the same checkpoint.
  pub open_epochs_lem :
      (E : Encoding) (start : ℕ) (l : SegmentLog) (es : List LogEntry)
      → (file temp : Option Bytes) (found : LeaderEpochCheckpoint) (b : Bytes) → IsLog E l start es
      → open_checkpoint C file temp ≡ ok found
      → C.serialize (scan (in_range l.log_start_offset l.log_end_offset es) []) ≡ some b
      → let kept = in_range l.log_start_offset l.log_end_offset es in
        (c : LeaderEpochCheckpoint) × (open_epochs C E l file temp ≡ ok c)
        × ((epoch : ℕ) → IsLatest (λ e. first_change e kept) epoch (lookup_le epoch c.epochs))
        × (open_checkpoint C c.file c.temp ≡ ok c)
  unfolding open_epochs rebuild persist scan
  open_epochs_lem E start l es file temp found b h o w =
      let a = l.log_start_offset in
      let z = l.log_end_offset in
      let kept = in_range a z es in
      let c : LeaderEpochCheckpoint = record {
        file = some b;
        temp = none;
        epochs = scan kept [];
      } in
      let same : max a a ≡ a = omega arith in
      (
        c,
        elim (Bool-cases (ltb a z)) [
          | inl k ↦ rw o (rw k (rw (read-IsLog E a z start l es h) (rw same (rw w refl))))
          | inr k ↦
              let nothing : scan kept [] ≡ [] =
                ap (λ xs. scan xs []) (in_range-empty a z es (ground arith)) in
              let w' = ap C.serialize (sym nothing) ∙ w in
              rw o (
                rw k (
                  rw w' (
                    ap (λ m. ok (record { file = some b; temp = none; epochs = m }))
                      (sym nothing))))
        ],
        λ epoch. scanned-IsLatest epoch kept,
        reopen (scan kept []) b none (scan-IsRising kept [] tt) w,
      )
