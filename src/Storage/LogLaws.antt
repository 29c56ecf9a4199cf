-- ===== src/Storage/LogLaws.antt =====
-- The log store in memory (xraft-storage/src/memory_log_store.rs) against its abstract view: a range of
-- offsets with an entry at each.
use xraft.Prelude.{
  ℕ, ◌+◌, ◌-◌, ◌<◌, ◌≡◌, none, List, arith, Bool-cases, inl, inr, ltb, length, take, drop,
  get_elem?, min, max, if◌then◌else◌, length-append, length-take, length-drop, get_elem?-append,
  get_elem?-take, get_elem?-drop, get_elem?-none,
}
use xraft.Prelude.Exec.{ok, err}
use xraft.Types.{LogEntry}
use xraft.Node.Traits.{ErrorKind}
use xraft.Storage.MemoryLog.{
  Inner, log_end_offset, append, read, entry_at, truncate_suffix, truncate_prefix,
}

-- `append` either fails and changes nothing, exactly when `fsync` fails; or the new entries stand from
-- the old end on, and every offset before it has the entry that it had.
pub append_lem :
    (es : List LogEntry) (s : Inner) (o : ℕ)
    → let (r, t) = append es s in
      if s.fsync_fails
      then (r ≡ err ErrorKind.other) × (t ≡ s)
      else ((r ≡ ok tt)
          × (t.start_offset ≡ s.start_offset)
          × (log_end_offset t ≡ log_end_offset s + length es)
          × (entry_at o t ≡ (
              if ltb o (log_end_offset s)
              then entry_at o s
              else ok (get_elem? es (o - log_end_offset s)))))
unfolding append log_end_offset entry_at
append_lem es s o =
    ground (arith, length-append s.entries es, get_elem?-append (o - s.start_offset) s.entries es)

-- `truncate_suffix` removes exactly the entries from the offset on; the start stays.
pub truncate_suffix_lem :
    (from o : ℕ) (s : Inner)
    → let (r, t) = truncate_suffix from s in
      (r ≡ ok tt)
      × (t.start_offset ≡ s.start_offset)
      × (log_end_offset t ≡ min (log_end_offset s) (max from s.start_offset))
      × (entry_at o t ≡ (if ltb o from then entry_at o s else ok none))
unfolding truncate_suffix log_end_offset entry_at
truncate_suffix_lem from o s = ground (
  arith,
  length-take (from - s.start_offset) s.entries,
  get_elem?-take (o - s.start_offset) (from - s.start_offset) s.entries,
)

-- `truncate_prefix` removes exactly the entries before the offset; the start moves up to it.
pub truncate_prefix_lem :
    (to o : ℕ) (s : Inner)
    → let (r, t) = truncate_prefix to s in
      (r ≡ ok tt)
      × (t.start_offset ≡ max to s.start_offset)
      × (log_end_offset t ≡ max (log_end_offset s) to)
      × (entry_at o t ≡ (if ltb o to then ok none else entry_at o s))
unfolding truncate_prefix log_end_offset entry_at
truncate_prefix_lem to o s = ground (
  arith,
  length-drop (to - s.start_offset) s.entries,
  get_elem?-drop (o - to) (to - s.start_offset) s.entries,
  get_elem?-none (o - s.start_offset) s.entries,
)

-- `read` returns the entries that `entry_at` finds at the offsets of the range that the log has, in
-- their order.
pub read_lem :
    (a b : ℕ) (s : Inner)
    → (es : List LogEntry) × (read a b s ≡ ok es)
      × (length es ≡ min b (log_end_offset s) - max a s.start_offset)
      × ((i : ℕ)
          → ok (get_elem? es i)
            ≡ (if ltb i (length es) then entry_at (max a s.start_offset + i) s else ok none))
unfolding read log_end_offset entry_at
read_lem a b s =
    let start = a - s.start_offset in
    let end = min (b - s.start_offset) (length s.entries) in
    (
      take (end - start) (drop start s.entries),
      ground arith,
      omega (arith, length-take (end - start) (drop start s.entries), length-drop start s.entries),
      λ i. elim (Bool-cases (ltb i (length (take (end - start) (drop start s.entries))))) [
        | inr e ↦
            rw e (ground (arith, get_elem?-none i (take (end - start) (drop start s.entries))))
        | inl e ↦
            let below : i < end - start =
              ground (arith, length-take (end - start) (drop start s.entries)) in
            let index : max a s.start_offset + i - s.start_offset ≡ start + i = omega arith in
            rw
              (
                e,
                get_elem?-take i (end - start) (drop start s.entries),
                get_elem?-drop i start s.entries,
                index,
              )
              (ground arith)
      ],
    )
