-- ===== src/Storage/Segment/Offsets.antt =====
-- Cutting a run of entries with consecutive offsets, as the batches of
-- xraft-storage/src/segment.rs hold them.
use xraft.Prelude.{
  ℕ, ◌+◌, ◌≤◌, ◌≡◌, refl, ap, ◌∙◌, List, [], ◌∷◌, ◌++◌, arith, append-nil, length, any, filter,
  filter-append, ltb, leb, Bool, true, false,
}
use xraft.Types.{LogEntry}
use xraft.Storage.FilterLog.{AreFrom}

-- the entries before an offset, and whether there is one from it on
abbrev pub kept : ℕ → List LogEntry → List LogEntry
kept from_offset = filter (λ e. ltb e.offset from_offset)

abbrev pub reaches : ℕ → List LogEntry → Bool
reaches from_offset = any (λ e. leb from_offset e.offset)

pub kept-all : (from : ℕ) (es : List LogEntry) → reaches from es ≡ false → kept from es ≡ es
kept-all from [] h = refl
kept-all from (e ∷ es) h = ground (arith, kept-all from es)

pub reaches-append :
    (from : ℕ) (xs ys : List LogEntry)
    → reaches from xs ≡ false
    → reaches from (xs ++ ys) ≡ reaches from ys
reaches-append from [] ys h = refl
reaches-append from (x ∷ xs) ys h = ground (arith, reaches-append from xs ys)

pub reaches-append_true :
    (from : ℕ) (xs ys : List LogEntry) → reaches from xs ≡ true → reaches from (xs ++ ys) ≡ true
reaches-append_true from [] ys h = absurd (ground arith)
reaches-append_true from (x ∷ xs) ys h = ground (arith, reaches-append_true from xs ys)

pub AreFrom-drop :
    (start n : ℕ) (xs ys : List LogEntry)
    → n ≡ start + length xs
    → AreFrom start (xs ++ ys)
    → AreFrom n ys
AreFrom-drop start n [] ys q h = let e : n ≡ start = omega arith in rw e h
AreFrom-drop start n (x ∷ xs) ys q (_, h) = AreFrom-drop (start + 1) n xs ys (omega arith) h

kept-later :
    (from start : ℕ) (es : List LogEntry) → AreFrom start es → from ≤ start → kept from es ≡ []
kept-later from start [] h le = refl
kept-later from start (e ∷ es) (h, k) le =
    ground (arith, kept-later from (start + 1) es k (omega arith))

reaches-below :
    (from start : ℕ) (xs ys : List LogEntry)
    → AreFrom start (xs ++ ys)
    → reaches from xs ≡ true
    → from ≤ start + length xs
reaches-below from start [] ys h r = absurd (ground arith)
reaches-below from start (x ∷ xs) ys (h, k) r =
    ground (arith, reaches-below from (start + 1) xs ys k)

-- a batch with an entry to cut is the last one with an entry to keep
pub kept-append :
    (from start : ℕ) (xs ys : List LogEntry)
    → AreFrom start (xs ++ ys)
    → reaches from xs ≡ true
    → kept from (xs ++ ys) ≡ kept from xs
kept-append from start xs ys h r =
    filter-append (λ (e : LogEntry). ltb e.offset from) xs ys
    ∙ ap (λ zs. kept from xs ++ zs)
        (kept-later from (start + length xs) ys
          (AreFrom-drop start (start + length xs) xs ys refl h)
          (reaches-below from start xs ys h r))
    ∙ append-nil (kept from xs)
