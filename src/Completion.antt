-- ===== src/Completion.antt =====
-- xraft-core/src/deferred_completion.rs: client futures parked by log offset.
pub mod Delivery
pub mod Failure
use xraft.Prelude.{
  ℕ, ◌+◌, Bool, true, false, List, [], ◌∷◌, ◌++◌, map, ltb, leb, ◌==◌, length, if◌then◌else◌,
  compare, Ordering,
}

-- A sender is the number of its channel.
abbrev pub Sender : Type 0
Sender = ℕ

-- The `BTreeMap` is a list of offsets in order, each with its senders; what was sent is kept, since the
-- receivers see it.
pub record DeferredCompletionQueue : Type 0 where
  pub pending : List (ℕ × List Sender)
  pub sent : List (ℕ × Sender)

abbrev pub empty_queue : DeferredCompletionQueue
empty_queue = record { pending = []; sent = [] }

-- `entry(offset).or_default().push(sender)`
unfoldable pub push_at : ℕ → Sender → List (ℕ × List Sender) → List (ℕ × List Sender)
push_at offset sender [] = (offset, sender ∷ []) ∷ []
push_at offset sender ((o, senders) ∷ rest) = elim (compare offset o) [
  | Ordering.lt ↦ (offset, sender ∷ []) ∷ (o, senders) ∷ rest
  | Ordering.eq ↦ (o, senders ++ (sender ∷ [])) ∷ rest
  | Ordering.gt ↦ (o, senders) ∷ push_at offset sender rest
]

unfoldable pub park : ℕ → Sender → DeferredCompletionQueue → DeferredCompletionQueue
park offset sender q = record q { pending = push_at offset sender q.pending }

-- the keys of `range(..bound)` and of `range(bound..)`
unfoldable pub keys_below : ℕ → List (ℕ × List Sender) → List ℕ
keys_below bound [] = []
keys_below bound ((o, senders) ∷ rest) = elim (ltb o bound) [
  | true ↦ o ∷ keys_below bound rest
  | false ↦ keys_below bound rest
]

unfoldable pub keys_from : ℕ → List (ℕ × List Sender) → List ℕ
keys_from bound [] = []
keys_from bound ((o, senders) ∷ rest) = elim (leb bound o) [
  | true ↦ o ∷ keys_from bound rest
  | false ↦ keys_from bound rest
]

-- `pending.remove(&offset)`: the senders, none for a missing key, and what is left
unfoldable pub remove_key : ℕ → List (ℕ × List Sender) → List Sender × List (ℕ × List Sender)
remove_key offset [] = ([], [])
remove_key offset ((o, senders) ∷ rest) = elim (o == offset) [
  | true ↦ (senders, rest)
  | false ↦ let (found, left) = remove_key offset rest in (found, (o, senders) ∷ left)
]

-- the loop of `complete` over its offsets
unfoldable pub complete_keys : List ℕ → ℕ → DeferredCompletionQueue → ℕ × DeferredCompletionQueue
complete_keys [] count q = (count, q)
complete_keys (offset ∷ offsets) count q =
    let (senders, left) = remove_key offset q.pending in
    complete_keys offsets (count + length senders)
      (record { pending = left; sent = q.sent ++ map (λ s. (offset, s)) senders })

unfoldable pub complete : ℕ → DeferredCompletionQueue → ℕ × DeferredCompletionQueue
complete high_watermark q = complete_keys (keys_below high_watermark q.pending) 0 q

-- the loop of `fail_at_or_above`: the senders are dropped
unfoldable pub fail_keys : List ℕ → ℕ → DeferredCompletionQueue → ℕ × DeferredCompletionQueue
fail_keys [] count q = (count, q)
fail_keys (offset ∷ offsets) count q =
    let (senders, left) = remove_key offset q.pending in
    fail_keys offsets (count + length senders) (record q { pending = left })

unfoldable pub fail_at_or_above : ℕ → DeferredCompletionQueue → ℕ × DeferredCompletionQueue
fail_at_or_above threshold q = fail_keys (keys_from threshold q.pending) 0 q

-- `len`
unfoldable pub parked : List (ℕ × List Sender) → ℕ
parked [] = 0
parked ((o, senders) ∷ rest) = length senders + parked rest
