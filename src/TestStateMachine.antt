-- ===== src/TestStateMachine.antt =====
-- xraft-test/src/test_state_machine.rs: the state machine of the integration tests. A `BTreeMap` is an
-- association list in the order of its keys.
pub mod Snapshots
use xraft.Prelude.{
  ℕ, zero, suc, ◌+◌, ◌*◌, ◌/◌, ◌%◌, Bool, true, false, List, [], ◌∷◌, ◌++◌, leb, ltb, length, take,
  drop, any, ◌==◌, compare, Ordering, if◌then◌else◌,
}
use xraft.Types.{Bytes}

-- `applied`, the history, the order of the offsets and the count of repeated ones
pub record TestStateMachine : Type 0 where
  pub applied : List (ℕ × Bytes)
  pub applied_history : List (ℕ × Bytes)
  pub apply_order : List ℕ
  pub duplicate_apply_count : ℕ

abbrev pub new : TestStateMachine
new = record { applied = []; applied_history = []; apply_order = []; duplicate_apply_count = 0 }

-- `BTreeMap::insert` and `BTreeMap::contains_key`
abbrev pub insert : ℕ → Bytes → List (ℕ × Bytes) → List (ℕ × Bytes)
insert k v [] = (k, v) ∷ []
insert k v ((j, w) ∷ rest) = elim (compare k j) [
  | Ordering.lt ↦ (k, v) ∷ (j, w) ∷ rest
  | Ordering.eq ↦ (k, v) ∷ rest
  | Ordering.gt ↦ (j, w) ∷ insert k v rest
]

abbrev pub contains_key : ℕ → List (ℕ × Bytes) → Bool
contains_key k = any (λ (j, w). j == k)

unfoldable pub apply : ℕ → Bytes → TestStateMachine → TestStateMachine
apply offset content m = record {
  applied = insert offset content m.applied;
  applied_history = m.applied_history ++ ((offset, content) ∷ []);
  apply_order = m.apply_order ++ (offset ∷ []);
  duplicate_apply_count =
      m.duplicate_apply_count + (if contains_key offset m.applied then 1 else 0);
}

unfoldable pub reset : TestStateMachine → TestStateMachine
reset m = new

-- the first `n` digits of a number to the base 256, the least one last: `to_be_bytes`
abbrev pub be_bytes : ℕ → ℕ → Bytes
be_bytes zero n = []
be_bytes (suc k) n = be_bytes k (n / 256) ++ (n % 256 ∷ [])

-- `from_be_bytes`
abbrev pub of_be_bytes : ℕ → Bytes → ℕ
of_be_bytes acc [] = acc
of_be_bytes acc (b ∷ bs) = of_be_bytes (acc * 256 + b) bs

abbrev pub encoded : ℕ × Bytes → Bytes
encoded (offset, content) = be_bytes 8 offset ++ (be_bytes 4 (length content) ++ content)

abbrev pub flat_encoded : List (ℕ × Bytes) → Bytes
flat_encoded [] = []
flat_encoded (r ∷ rs) = encoded r ++ flat_encoded rs

unfoldable pub snapshot : TestStateMachine → Bytes
snapshot m = flat_encoded m.applied

-- `history.push`, `applied.insert` and `order.push` for one record of a snapshot
abbrev pub restored : ℕ → Bytes → TestStateMachine → TestStateMachine
restored offset content m = record m {
  applied = insert offset content m.applied;
  applied_history = m.applied_history ++ ((offset, content) ∷ []);
  apply_order = m.apply_order ++ (offset ∷ []);
}

-- `while cursor + 12 <= data.len()`, on the bytes from the cursor on
unfoldable pub restore_from : (fuel : ℕ) → Bytes → TestStateMachine → TestStateMachine
restore_from zero bytes m = m
restore_from (suc fuel) bytes m =
    let offset = of_be_bytes 0 (take 8 bytes) in
    let len = of_be_bytes 0 (take 4 (drop 8 bytes)) in
    let rest = drop 12 bytes in
    elim (leb 12 (length bytes)) [
      | false ↦ m
      | true ↦ elim (ltb (length rest) len) [
        | true ↦ m
        | false ↦ restore_from fuel (drop len rest) (restored offset (take len rest) m)
      ]
    ]

-- `restore`, with more rounds than the snapshot has bytes
unfoldable pub restore : Bytes → TestStateMachine → TestStateMachine
restore bytes m = restore_from (suc (length bytes)) bytes (reset m)
