-- ===== src/Storage/LogHistory.antt =====
-- Whole histories of the log store in memory (xraft-storage/src/memory_log_store.rs) against an abstract
-- log: a range of offsets, and a function from offsets to entries.
use xraft.Prelude.{
  ℕ, ◌+◌, ◌-◌, ◌≡◌, Bool, true, false, Option, none, List, [], ◌∷◌, ltb, length, get_elem?, min,
  max, if◌then◌else◌,
}
use xraft.Prelude.Exec.{ok}
use xraft.Types.{LogEntry}
use xraft.Storage.MemoryLog.{
  Inner, log_end_offset, append, entry_at, truncate_suffix, truncate_prefix,
}

pub data Change : Type 0 where
  appended : List LogEntry → Change
  suffix_cut prefix_cut : ℕ → Change

pub record AbstractLog : Type 0 where
  pub start : ℕ
  pub end : ℕ
  pub at : ℕ → Option LogEntry

unfoldable pub on_store : List Change → Inner → Inner
on_store [] s = s
on_store (appended es ∷ cs) s = on_store cs (append es s).1
on_store (suffix_cut from ∷ cs) s = on_store cs (truncate_suffix from s).1
on_store (prefix_cut to ∷ cs) s = on_store cs (truncate_prefix to s).1

-- what a change means; where writing fails, nothing is appended
abbrev pub change : Bool → Change → AbstractLog → AbstractLog
change true (appended es) l = l
change false (appended es) l = record l {
  end = l.end + length es;
  at = λ o. if ltb o l.end then l.at o else get_elem? es (o - l.end);
}
change fails (suffix_cut from) l = record l {
  end = min l.end (max from l.start);
  at = λ o. if ltb o from then l.at o else none;
}
change fails (prefix_cut to) l = record {
  start = max to l.start;
  end = max l.end to;
  at = λ o. if ltb o to then none else l.at o;
}

unfoldable pub on_abstract : Bool → List Change → AbstractLog → AbstractLog
on_abstract fails [] l = l
on_abstract fails (c ∷ cs) l = on_abstract fails cs (change fails c l)

pub record Represents (s : Inner) (l : AbstractLog) : Type 0 where
  pub starts : s.start_offset ≡ l.start
  pub ends : log_end_offset s ≡ l.end
  pub holds : (o : ℕ) → entry_at o s ≡ ok (l.at o)
