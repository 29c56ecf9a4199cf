-- ===== src/Quorum.antt =====
-- Counting voters: lists of distinct ids within the ids of the voters.
use xraft.Prelude.{
  ◌+◌, ◌≤◌, ◌<◌, ◌≡◌, ◌⊎◌, ℕ, true, false, List, [], ◌∷◌, ◌++◌, arith, Bool-cases, inl, inr, ◌==◌,
  length, length-append, All,
}
use xraft.Prelude.Sets.{IsDistinct, contains}

-- Every id of the first list is in the second.
abbrev pub IsSubset : List ℕ → List ℕ → Type 0
IsSubset xs vs = All (λ x. contains x vs ≡ true) xs

-- the list without the first occurrence
remove : ℕ → List ℕ → List ℕ
remove a [] = []
remove a (v ∷ vs) = elim (v == a) [ true ↦ vs | false ↦ v ∷ remove a vs ]

length-remove : (a : ℕ) (vs : List ℕ) → contains a vs ≡ true → length vs ≡ length (remove a vs) + 1
unfolding remove
length-remove a [] h = cc
length-remove a (v ∷ vs) h = ground (arith, length-remove a vs)

contains-remove :
    (a b : ℕ) (vs : List ℕ)
    → contains b vs ≡ true
    → (a == b) ≡ false
    → contains b (remove a vs) ≡ true
unfolding remove
contains-remove a b [] h d = h
contains-remove a b (v ∷ vs) h d = ground (arith, contains-remove a b vs)

IsSubset-remove :
    (a : ℕ) (xs vs : List ℕ) → contains a xs ≡ false → IsSubset xs vs → IsSubset xs (remove a vs)
IsSubset-remove a [] vs d s = tt
IsSubset-remove a (x ∷ xs) vs d (h, s) =
    (contains-remove a x vs h (ground arith), IsSubset-remove a xs vs (ground arith) s)

length-IsSubset : (xs vs : List ℕ) → IsDistinct xs → IsSubset xs vs → length xs ≤ length vs
length-IsSubset [] vs d s = omega arith
length-IsSubset (x ∷ xs) vs (d, ds) (h, s) =
    omega (
      arith,
      length-remove x vs h,
      length-IsSubset xs (remove x vs) ds (IsSubset-remove x xs vs d s),
    )

IsSubset-append : (xs ys vs : List ℕ) → IsSubset xs vs → IsSubset ys vs → IsSubset (xs ++ ys) vs
IsSubset-append [] ys vs s t = t
IsSubset-append (x ∷ xs) ys vs (h, s) t = (h, IsSubset-append xs ys vs s t)

contains-append :
    (a : ℕ) (xs ys : List ℕ)
    → contains a xs ≡ false
    → contains a ys ≡ false
    → contains a (xs ++ ys) ≡ false
contains-append a [] ys h k = k
contains-append a (x ∷ xs) ys h k = ground (arith, contains-append a xs ys)

-- two lists either share an id or are distinct together
meet_or_IsDistinct :
    (xs ys : List ℕ)
    → IsDistinct xs
    → IsDistinct ys
    → ((a : ℕ) × (contains a xs ≡ true) × (contains a ys ≡ true)) ⊎ IsDistinct (xs ++ ys)
meet_or_IsDistinct [] ys d e = inr e
meet_or_IsDistinct (x ∷ xs) ys (d, ds) e = elim (Bool-cases (contains x ys)) [
  | inl h ↦ inl (x, ground arith, h)
  | inr h ↦ elim (meet_or_IsDistinct xs ys ds e) [
    | inl (a, p, q) ↦ inl (a, ground arith, q)
    | inr f ↦ inr (contains-append x xs ys d h, f)
  ]
]

pub majorities_meet :
    (xs ys vs : List ℕ)
    → IsDistinct xs
    → IsDistinct ys
    → IsSubset xs vs
    → IsSubset ys vs
    → length vs < length xs + length ys
    → (a : ℕ) × (contains a xs ≡ true) × (contains a ys ≡ true)
majorities_meet xs ys vs d e s t h = elim (meet_or_IsDistinct xs ys d e) [
  | inl m ↦ m
  | inr f ↦ absurd (
      omega (
        arith,
        length-append xs ys,
        length-IsSubset (xs ++ ys) vs f (IsSubset-append xs ys vs s t),
      ))
]
