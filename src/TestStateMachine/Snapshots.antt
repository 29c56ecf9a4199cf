-- ===== src/TestStateMachine/Snapshots.antt =====
-- Snapshots of the state machine of xraft-test/src/test_state_machine.rs.
use xraft.Prelude.{
  ℕ, zero, suc, ◌+◌, ◌^◌, ◌≤◌, ◌<◌, ◌≡◌, refl, ap, ◌∙◌, List, [], ◌∷◌, ◌++◌, arith, append_assoc,
  append-nil, length, length-append, map, All, take-length-append, drop-length-append,
}
use xraft.Types.{Bytes}
use xraft.TestStateMachine.{
  TestStateMachine, insert, be_bytes, of_be_bytes, encoded, flat_encoded, snapshot, restored,
  restore_from, restore, reset,
}

-- the keys of a `BTreeMap`, from a lower bound on
abbrev pub AreSorted : ℕ → List (ℕ × Bytes) → Type 0
AreSorted low [] = Unit
AreSorted low ((k, v) ∷ rest) = (low ≤ k) × AreSorted (k + 1) rest

-- offsets are `u64`s, and a record is shorter than 2^32 bytes
abbrev pub Fit : List (ℕ × Bytes) → Type 0
Fit [] = Unit
Fit ((k, v) ∷ rest) = (k < 2 ^ 64) × (length v < 2 ^ 32) × Fit rest

of_be_bytes-be_bytes8 : (n : ℕ) → n < 2 ^ 64 → of_be_bytes 0 (be_bytes 8 n) ≡ n
of_be_bytes-be_bytes8 n h = omega arith

of_be_bytes-be_bytes4 : (n : ℕ) → n < 2 ^ 32 → of_be_bytes 0 (be_bytes 4 n) ≡ n
of_be_bytes-be_bytes4 n h = omega arith

restore_from-encoded :
    (fuel k : ℕ) (v rest : Bytes) (m : TestStateMachine)
    → k < 2 ^ 64
    → length v < 2 ^ 32
    → restore_from (suc fuel) (encoded (k, v) ++ rest) m ≡ restore_from fuel rest (restored k v m)
unfolding restore_from
restore_from-encoded fuel k v rest m h l = ground (
  arith,
  of_be_bytes-be_bytes8 k h,
  of_be_bytes-be_bytes4 (length v) l,
  length-append v rest,
  take-length-append v rest,
  drop-length-append v rest,
)

-- the keys of a list lie below a bound
abbrev AreBelow : ℕ → List (ℕ × Bytes) → Type 0
AreBelow low = All (λ (k, v). k < low)

AreBelow-snoc :
    (low k : ℕ) (v : Bytes) (pre : List (ℕ × Bytes))
    → AreBelow low pre
    → low ≤ k
    → AreBelow (k + 1) (pre ++ ((k, v) ∷ []))
AreBelow-snoc low k v [] h le = (omega arith, tt)
AreBelow-snoc low k v ((j, w) ∷ pre) (b, h) le = (omega arith, AreBelow-snoc low k v pre h le)

insert-end :
    (low k : ℕ) (v : Bytes) (pre : List (ℕ × Bytes))
    → AreBelow low pre
    → low ≤ k
    → insert k v pre ≡ pre ++ ((k, v) ∷ [])
insert-end low k v [] h le = refl
insert-end low k v ((j, w) ∷ pre) (b, h) le = ground (arith, insert-end low k v pre h le)

restore_from-flat :
    (rs pre : List (ℕ × Bytes)) (fuel low : ℕ) (history : List (ℕ × Bytes)) (order : List ℕ) (n : ℕ)
    → length (flat_encoded rs) < fuel
    → AreSorted low rs
    → Fit rs
    → AreBelow low pre
    → restore_from fuel (flat_encoded rs) (record {
      applied = pre;
      applied_history = history;
      apply_order = order;
      duplicate_apply_count = n;
    })
      ≡ record {
        applied = pre ++ rs;
        applied_history = history ++ rs;
        apply_order = order ++ map (λ (k, v). k) rs;
        duplicate_apply_count = n;
      }
unfolding restore_from
restore_from-flat rs pre zero low history order n f s t b = absurd (omega arith)
restore_from-flat [] pre (suc fuel) low history order n f s t b =
    ground (arith, append-nil pre, append-nil history, append-nil order)
restore_from-flat ((k, v) ∷ rs) pre (suc fuel) low history order n f (le, s) (h, l, t) b =
    restore_from-encoded fuel k v (flat_encoded rs)
      (record {
        applied = pre;
        applied_history = history;
        apply_order = order;
        duplicate_apply_count = n;
      })
      h l
    ∙ ap
        (λ xs. restore_from fuel (flat_encoded rs) (record {
          applied = xs;
          applied_history = history ++ ((k, v) ∷ []);
          apply_order = order ++ (k ∷ []);
          duplicate_apply_count = n;
        }))
        (insert-end low k v pre b le)
    ∙ restore_from-flat rs (pre ++ ((k, v) ∷ [])) fuel (k + 1) (history ++ ((k, v) ∷ []))
        (order ++ (k ∷ [])) n (omega (arith, length-append v (flat_encoded rs))) s t
        (AreBelow-snoc low k v pre b le)
    ∙ cc (
      append_assoc pre ((k, v) ∷ []) rs,
      append_assoc history ((k, v) ∷ []) rs,
      append_assoc order (k ∷ []) (map (λ (k, v). k) rs),
    )

-- Restoring a snapshot of a state machine whose offsets are `u64`s in increasing order, and whose records
-- are shorter than 2^32 bytes, gives, whatever machine it is restored to, one with the same records
-- applied; its history and its order are those of the records, and it counts no repeated one.
pub restore-snapshot :
    (m m' : TestStateMachine)
    → AreSorted 0 m.applied
    → Fit m.applied
    → restore (snapshot m) m' ≡ record {
      applied = m.applied;
      applied_history = m.applied;
      apply_order = map (λ (k, v). k) m.applied;
      duplicate_apply_count = 0;
    }
unfolding restore snapshot reset
restore-snapshot m m' s f =
    restore_from-flat m.applied [] (suc (length (flat_encoded m.applied))) 0 [] [] 0 (omega arith) s
      f tt
