-- ===== src/InvariantChecker/Entries.antt =====
-- Entries of one log that are kept in another, as xraft-test/src/invariant_checker.rs tests it.
use xraft.Prelude.{
  ℕ, ◌≡◌, refl, sym, ◌∙◌, ap, Bool, true, false, inl, inr, Bool-cases, Option, none, some, List, [],
  ◌∷◌, ◌==◌, arith,
}
use mathlib.Core.List.{Memᴰ}
use mathlib.Core.List.Memᴰ
use xraft.Types.{Bytes, LogEntry}
use xraft.InvariantChecker.{all, same_bytes, entry_at, same_entry, keeps_entry}

-- every entry of the first log is in the second, with its term and its payload
abbrev pub Keeps : List LogEntry → List LogEntry → Type 0
Keeps old log = all (keeps_entry log) old ≡ true

pub same_bytes-eq : (a b : Bytes) → same_bytes a b ≡ true → a ≡ b
same_bytes-eq [] [] h = refl
same_bytes-eq [] (b ∷ ys) h = cc
same_bytes-eq (a ∷ xs) [] h = cc
same_bytes-eq (a ∷ xs) (b ∷ ys) h = grind (arith, same_bytes-eq xs ys)

pub kept-found :
    (r : Option LogEntry) (e : LogEntry)
    → (elim r [ none ↦ false | some ce ↦ same_entry ce e ]) ≡ true
    → (f : LogEntry) × (r ≡ some f) × (f.term ≡ e.term) × (f.payload ≡ e.payload)
kept-found none e h = cc
kept-found (some f) e h = (f, refl, ground arith, same_bytes-eq f.payload e.payload (ground arith))

keeps_entry-same :
    (log : List LogEntry) (e f : LogEntry)
    → f.offset ≡ e.offset
    → f.term ≡ e.term
    → f.payload ≡ e.payload
    → keeps_entry log f ≡ keeps_entry log e
keeps_entry-same log e f o t b = rw (o, t, b) refl

pub all-found :
    (p : LogEntry → Bool) (o : ℕ) (log : List LogEntry) (f : LogEntry)
    → all p log ≡ true
    → entry_at o log ≡ some f
    → (p f ≡ true) × (f.offset ≡ o)
all-found p o [] f h k = cc
all-found p o (e ∷ es) f h k =
    let k' : (elim (e.offset == o) [ true ↦ some e | false ↦ entry_at o es ]) ≡ some f = k in
    elim (Bool-cases (e.offset == o)) [
      | inl s ↦
          let same : some e ≡ some f = rw s at k' in
          let q : e ≡ f = cc same in rw (← q) (ground arith, ground arith)
      | inr s ↦ all-found p o es f (ground arith) (rw s at k')
    ]

all-true : (es : List LogEntry) → all (λ e. true) es ≡ true
all-true [] = refl
all-true (e ∷ es) = all-true es

pub entry_at-offset :
    (o : ℕ) (log : List LogEntry) (f : LogEntry) → entry_at o log ≡ some f → f.offset ≡ o
entry_at-offset o log f k = (all-found (λ e. true) o log f (all-true log) k).1

keeps_entry_trans :
    (b c : List LogEntry) (e : LogEntry)
    → keeps_entry b e ≡ true
    → Keeps b c
    → keeps_entry c e ≡ true
keeps_entry_trans b c e h k =
    let (f, found, term, payload) = kept-found (entry_at e.offset b) e h in
    let (kept, offset) = all-found (keeps_entry c) e.offset b f k found in
    sym (keeps_entry-same c e f offset term payload) ∙ kept

pub Keeps-trans : (a b c : List LogEntry) → Keeps a b → Keeps b c → Keeps a c
Keeps-trans [] b c h k = refl
Keeps-trans (e ∷ es) b c h k =
    let first = keeps_entry_trans b c e (ground arith) k in
    rw first (Keeps-trans es b c (ground arith) k)

pub all-in :
    {A : Type 0} (p : A → Bool) (e : A) (es : List A) → all p es ≡ true → Memᴰ e es → p e ≡ true
all-in p e [] h i = absurd (Memᴰ.not-nil i)
all-in p e (f ∷ es) h i = elim (Memᴰ.cases_cons i) [
  | inl q ↦ ap p q ∙ ground arith
  | inr later ↦ all-in p e es (ground arith) later
]
