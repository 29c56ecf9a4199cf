-- ===== src/Storage/Index.antt =====
-- xraft-storage/src/segment_index.rs: the sparse index, from log offsets to byte positions. The file that
-- mirrors the entries is not modelled.
use xraft.Prelude.{
  ℕ, zero, suc, ◌+◌, ◌-◌, ◌/◌, ◌≤◌, ◌<◌, ◌≡◌, ◌↔◌, refl, Bool, true, false, Option, none, some,
  List, [], ◌∷◌, arith, Bool-cases, inl, inr, leb, leb→le, leb→lt, length, get_elem?, if◌then◌else◌,
}

-- `entries[i].0 <= target`
abbrev at_most : ℕ → Option (ℕ × ℕ) → Bool
at_most target none = false
at_most target (some (offset, position)) = leb offset target

-- `while lo < hi`, on fuel
unfoldable pub search_from : (fuel : ℕ) → List (ℕ × ℕ) → (target lo hi : ℕ) → ℕ
search_from zero entries target lo hi = lo
search_from (suc fuel) entries target lo hi =
    let mid = lo + (hi - lo) / 2 in
    let goes_right = at_most target (get_elem? entries mid) in
    let rest =
      search_from fuel entries target (if goes_right then mid + 1 else lo)
        (if goes_right then hi else mid) in
    if leb hi lo then lo else rest

abbrev position_before : List (ℕ × ℕ) → ℕ → Option ℕ
position_before entries zero = none
position_before entries (suc i) = elim (get_elem? entries i) [
  | none ↦ none
  | some (offset, position) ↦ some position
]

unfoldable pub lookup : ℕ → List (ℕ × ℕ) → Option ℕ
lookup target [] = none
lookup target (e ∷ es) =
    position_before (e ∷ es) (search_from (length (e ∷ es)) (e ∷ es) target 0 (length (e ∷ es)))

-- The position of the last entry whose offset is at most the target, read from the front.
unfoldable pub last_at_most : ℕ → List (ℕ × ℕ) → Option ℕ
last_at_most target [] = none
last_at_most target ((offset, position) ∷ es) = elim (leb offset target) [
  | true ↦ elim (last_at_most target es) [ none ↦ some position | some p ↦ some p ]
  | false ↦ none
]

-- offsets grow strictly
abbrev pub IsSorted : List (ℕ × ℕ) → Type 0
IsSorted [] = Unit
IsSorted (e ∷ []) = Unit
IsSorted (e ∷ f ∷ es) = (e.0 < f.0) × IsSorted (f ∷ es)

-- how many entries from the front are at most the target
unfoldable count : ℕ → List (ℕ × ℕ) → ℕ
count target [] = 0
count target (e ∷ es) = elim (leb e.0 target) [ true ↦ suc (count target es) | false ↦ 0 ]

count-length : (t : ℕ) (es : List (ℕ × ℕ)) → count t es ≤ length es
unfolding count
count-length t [] = omega arith
count-length t (e ∷ es) = ground (arith, count-length t es)

-- the entries at most the target are those before the count
count-at_most :
    (t i : ℕ) (es : List (ℕ × ℕ))
    → IsSorted es
    → i < length es
    → (at_most t (get_elem? es i) ≡ true) ↔ (i < count t es)
unfolding count
count-at_most t i [] s h = absurd (omega arith)
count-at_most t zero (e ∷ es) s h = ground arith
count-at_most t (suc i) (e ∷ []) s h = absurd (omega arith)
count-at_most t (suc i) (e ∷ f ∷ es) (lt, s) h =
    ground (arith, count-at_most t i (f ∷ es) s (omega arith))

search_from-count :
    (fuel : ℕ) (es : List (ℕ × ℕ)) (t lo hi : ℕ)
    → IsSorted es
    → hi ≤ lo + fuel
    → hi ≤ length es
    → lo ≤ count t es
    → count t es ≤ hi
    → search_from fuel es t lo hi ≡ count t es
unfolding search_from
search_from-count zero es t lo hi s f h a b = omega arith
search_from-count (suc fuel) es t lo hi s f h a b = elim (Bool-cases (leb hi lo)) [
  | inl done ↦ rw done (omega (arith, leb→le hi lo done))
  | inr more ↦
      let mid = lo + (hi - lo) / 2 in
      let lt : lo < hi = leb→lt hi lo more in
      let at_mid = count-at_most t mid es s (omega arith) in
      elim (Bool-cases (at_most t (get_elem? es mid))) [
        | inl right ↦
            rw (more, right)
              (search_from-count fuel es t (mid + 1) hi s (omega arith) h
                (omega (arith, at_mid.0 right)) b)
        | inr left ↦
            rw (more, left)
              (search_from-count fuel es t lo mid s (omega arith) (omega arith) a
                (ground (arith, at_mid)))
      ]
]

-- the position found among the later entries, or the first one's
or_first : ℕ → Option ℕ → Option ℕ
or_first position none = some position
or_first position (some p) = some p

position_before-suc :
    (k : ℕ) (e : ℕ × ℕ) (es : List (ℕ × ℕ))
    → k ≤ length es
    → or_first e.1 (position_before es k) ≡ position_before (e ∷ es) (suc k)
unfolding or_first
position_before-suc zero e es h = refl
position_before-suc (suc k) e [] h = absurd (omega arith)
position_before-suc (suc k) e (f ∷ es) h = ground (arith, position_before-suc k f es (omega arith))

last_at_most-count :
    (t : ℕ) (es : List (ℕ × ℕ)) → last_at_most t es ≡ position_before es (count t es)
unfolding last_at_most count or_first
last_at_most-count t [] = refl
last_at_most-count t (e ∷ es) =
    ground
      (arith, last_at_most-count t es, position_before-suc (count t es) e es (count-length t es))

-- On entries with growing offsets the binary search finds the position of the last entry whose offset
-- is at most the target, and none exactly when a scan from the front finds none.
pub lookup-last_at_most :
    (target : ℕ) (entries : List (ℕ × ℕ))
    → IsSorted entries
    → lookup target entries ≡ last_at_most target entries
unfolding lookup last_at_most
lookup-last_at_most target [] s = refl
lookup-last_at_most target (e ∷ es) s =
    rw
      (
        last_at_most-count target (e ∷ es),
        search_from-count (length (e ∷ es)) (e ∷ es) target 0 (length (e ∷ es)) s (omega arith)
            (omega arith) (omega arith) (count-length target (e ∷ es)),
      )
      refl
