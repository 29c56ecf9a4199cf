-- ===== src/Storage/FilterLog.antt =====
-- xraft-storage/src/memory_log.rs: the log store in memory that finds its entries by their offsets, and
-- its comparison with the store of memory_log_store.rs, which counts from its start.
use xraft.Prelude.{
  ℕ, zero, suc, ◌+◌, ◌-◌, ◌^◌, ◌≤◌, ◌<◌, ◌≡◌, ◌∙◌, ap, sym, inl, inr, Bool-cases, refl, false, ◌&&◌,
  Option, none, some, List, [], ◌∷◌, ◌++◌, arith, ltb, leb, ◌==◌, find, filter, last?, length, take,
  get_elem?, u64_add, if◌then◌else◌,
}
use xraft.Prelude.Exec.{ok}
use xraft.Types.{LogEntry}
use xraft.Node.Traits.{Io}
use xraft.Storage.MemoryLog
use xraft.Storage.MemoryLog.{Inner}

pub record FilterLog : Type 0 where
  pub entries : List LogEntry
  pub start_offset : ℕ

unfoldable pub append : List LogEntry → FilterLog → Io (Unit {0}) × FilterLog
append entries s = (ok tt, record s { entries = s.entries ++ entries })

unfoldable pub read : ℕ → ℕ → FilterLog → Io (List LogEntry)
read start_offset end_offset s =
    ok (filter (λ e. leb start_offset e.offset && ltb e.offset end_offset) s.entries)

unfoldable pub truncate_suffix : ℕ → FilterLog → Io (Unit {0}) × FilterLog
truncate_suffix from_offset s =
    (ok tt, record s { entries = filter (λ e. ltb e.offset from_offset) s.entries })

abbrev end_of : ℕ → Option LogEntry → ℕ
end_of start none = start
end_of start (some e) = u64_add e.offset 1

unfoldable pub log_end_offset : FilterLog → ℕ
log_end_offset s = end_of s.start_offset (last? s.entries)

unfoldable pub entry_at : ℕ → FilterLog → Io (Option LogEntry)
entry_at offset s = ok (find (λ e. e.offset == offset) s.entries)

-- The entries have consecutive offsets from the start on.
abbrev pub AreFrom : ℕ → List LogEntry → Type 0
AreFrom start [] = Unit
AreFrom start (e ∷ es) = (e.offset ≡ start) × AreFrom (start + 1) es

-- the same entries in the other store
abbrev pub counted : FilterLog → Inner
counted s = record { entries = s.entries; start_offset = s.start_offset; fsync_fails = false }

last-AreFrom :
    (start : ℕ) (es : List LogEntry)
    → AreFrom start es
    → start + length es < 2 ^ 64
    → end_of start (last? es) ≡ start + length es
last-AreFrom start [] h b = omega arith
last-AreFrom start (e ∷ []) h b = ground arith
last-AreFrom start (e ∷ f ∷ es) (h, k) b =
    ground (arith, last-AreFrom (start + 1) (f ∷ es) k (omega arith))

get_elem?-cons :
    (i : ℕ) (e : LogEntry) (es : List LogEntry)
    → get_elem? (e ∷ es) i ≡ (if i == 0 then some e else get_elem? es (i - 1))
get_elem?-cons zero e es = refl
get_elem?-cons (suc i) e es = ground arith

take-cons :
    (n : ℕ) (e : LogEntry) (es : List LogEntry)
    → take n (e ∷ es) ≡ (if n == 0 then [] else e ∷ take (n - 1) es)
take-cons zero e es = refl
take-cons (suc n) e es = ground arith

find-AreFrom :
    (start o : ℕ) (es : List LogEntry)
    → AreFrom start es
    → find (λ e. e.offset == o) es ≡ (if ltb o start then none else get_elem? es (o - start))
find-AreFrom start o [] h = ground arith
find-AreFrom start o (e ∷ es) (h, k) =
    let same : o - (start + 1) ≡ o - start - 1 = omega arith in
    ground (arith, get_elem?-cons (o - start) e es, find-AreFrom (start + 1) o es k)

none_before :
    (start from : ℕ) (es : List LogEntry)
    → AreFrom start es
    → from ≤ start
    → filter (λ e. ltb e.offset from) es ≡ []
none_before start from [] h le = refl
none_before start from (e ∷ es) (h, k) le =
    ground (arith, none_before (start + 1) from es k (omega arith))

take-[] : (n : ℕ) → take {A = LogEntry} n [] ≡ []
take-[] zero = refl
take-[] (suc n) = refl

filter-AreFrom :
    (start from : ℕ) (es : List LogEntry)
    → AreFrom start es
    → filter (λ e. ltb e.offset from) es ≡ take (from - start) es
filter-AreFrom start from [] h = sym (take-[] (from - start))
filter-AreFrom start from (e ∷ es) (h, k) = elim (Bool-cases (ltb e.offset from)) [
  | inl lt ↦
      let same : from - (start + 1) ≡ from - start - 1 = omega arith in
      let tail = filter-AreFrom (start + 1) from es k ∙ ap (λ n. take n es) same in
      ground (arith, take-cons (from - start) e es, tail)
  | inr ge ↦
      let all : from - start ≡ 0 = ground arith in
      none_before start from (e ∷ es) (h, k) (ground arith) ∙ ap (λ n. take n (e ∷ es)) (sym all)
]

-- On entries with consecutive offsets from the start, below the end of a `u64`, the store that filters
-- has the same end and the same entry at every offset as the store that counts, and cutting a suffix off
-- leaves both with the same entries.
pub agrees_with_counting :
    (s : FilterLog) (o : ℕ)
    → AreFrom s.start_offset s.entries
    → s.start_offset + length s.entries < 2 ^ 64
    → (log_end_offset s ≡ MemoryLog.log_end_offset (counted s))
      × (entry_at o s ≡ MemoryLog.entry_at o (counted s))
      × (counted (truncate_suffix o s).1 ≡ (MemoryLog.truncate_suffix o (counted s)).1)
unfolding log_end_offset entry_at truncate_suffix MemoryLog.log_end_offset MemoryLog.entry_at
    MemoryLog.truncate_suffix
agrees_with_counting s o h b = (
  last-AreFrom s.start_offset s.entries h b,
  ground (arith, find-AreFrom s.start_offset o s.entries h),
  ground (
    arith,
    filter-AreFrom s.start_offset o s.entries h,
    none_before s.start_offset o s.entries h,
  ),
)
