-- ===== src/Completion/Delivery.antt =====
-- The deliveries of the completion queue of xraft-core/src/deferred_completion.rs.
use xraft.Prelude.{
  sym, length-append, append-nil, append_assoc, ℕ, ◌+◌, ◌<◌, ◌≡◌, ◌∙◌, ap, refl, Bool, true, false,
  List, [], ◌∷◌, ◌++◌, map, filter, arith, Bool-cases, inl, inr, ltb, leb, length, if◌then◌else◌,
}
use xraft.Completion.{push_at}
use xraft.Completion.{
  Sender, DeferredCompletionQueue, keys_below, remove_key, complete_keys, complete,
}

-- the keys of the map, in order
abbrev pub IsOrdered : List (ℕ × List Sender) → Type 0
IsOrdered [] = Unit
IsOrdered (e ∷ []) = Unit
IsOrdered (e ∷ f ∷ rest) = (e.0 < f.0) × IsOrdered (f ∷ rest)

-- every waiting future with its offset, in the map's order
unfoldable pub waiting : List (ℕ × List Sender) → List (ℕ × Sender)
waiting [] = []
waiting ((o, senders) ∷ rest) = map (λ s. (o, s)) senders ++ waiting rest

abbrev pub tagged : ℕ → List Sender → List (ℕ × Sender)
tagged o senders = map (λ s. (o, s)) senders

abbrev pub below : ℕ → ℕ × Sender → Bool
below hw w = ltb w.0 hw

abbrev pub from : ℕ → ℕ × Sender → Bool
from hw w = leb hw w.0

-- filtering one offset's senders and the rest
pub filter-tagged :
    (p : ℕ × Sender → Bool) (o : ℕ) (senders : List Sender) (rest : List (ℕ × Sender)) (b : Bool)
    → ((s : Sender) → p (o, s) ≡ b)
    → filter p (tagged o senders ++ rest)
      ≡ (if b then tagged o senders ++ filter p rest else filter p rest)
filter-tagged p o [] rest b h = ground arith
filter-tagged p o (s ∷ senders) rest b h = ground (arith, h s, filter-tagged p o senders rest b h)

pub length-tagged : (o : ℕ) (senders : List Sender) → length (tagged o senders) ≡ length senders
length-tagged o [] = refl
length-tagged o (s ∷ senders) = omega (arith, length-tagged o senders)

-- in an ordered map whose first key is not below the bound, none is
none_below :
    (hw o : ℕ) (senders : List Sender) (rest : List (ℕ × List Sender))
    → IsOrdered ((o, senders) ∷ rest)
    → ltb o hw ≡ false
    → (keys_below hw rest ≡ [])
      × (filter (below hw) (waiting rest) ≡ [])
      × (filter (from hw) (waiting rest) ≡ waiting rest)
unfolding keys_below waiting
none_below hw o senders [] s h = (refl, refl, refl)
none_below hw o senders ((o', senders') ∷ rest) (lt, s) h =
    let h' : ltb o' hw ≡ false = ground arith in
    let (a, b, c) = none_below hw o' senders' rest s h' in
    (
      ground arith,
      filter-tagged (below hw) o' senders' (waiting rest) false (λ _. h') ∙ b,
      filter-tagged (from hw) o' senders' (waiting rest) true (λ _. ground arith)
          ∙ ap (λ x. tagged o' senders' ++ x) c,
    )

pub tail-IsOrdered :
    (e : ℕ × List Sender) (rest : List (ℕ × List Sender)) → IsOrdered (e ∷ rest) → IsOrdered rest
tail-IsOrdered e [] s = tt
tail-IsOrdered e (f ∷ rest) (_, s) = s

keys_below-cons :
    (hw o : ℕ) (senders : List Sender) (rest : List (ℕ × List Sender)) (b : Bool)
    → ltb o hw ≡ b
    → keys_below hw ((o, senders) ∷ rest)
      ≡ (if b then o ∷ keys_below hw rest else keys_below hw rest)
unfolding keys_below
keys_below-cons hw o senders rest b h = ground arith

complete_keys-cons :
    (o count : ℕ) (senders : List Sender) (os : List ℕ) (rest : List (ℕ × List Sender))
    (sent : List (ℕ × Sender))
    → complete_keys (o ∷ os) count (record { pending = (o, senders) ∷ rest; sent = sent })
      ≡ complete_keys os
          (count + length senders)
          (record { pending = rest; sent = sent ++ tagged o senders })
unfolding complete_keys remove_key
complete_keys-cons o count senders os rest sent = ground arith

complete_keys_lem :
    (hw count : ℕ) (p : List (ℕ × List Sender)) (sent : List (ℕ × Sender))
    → IsOrdered p
    → let done = complete_keys (keys_below hw p) count (record { pending = p; sent = sent }) in
      (done.0 ≡ count + length (filter (below hw) (waiting p)))
      × (waiting done.1.pending ≡ filter (from hw) (waiting p))
      × (done.1.sent ≡ sent ++ filter (below hw) (waiting p))
unfolding complete_keys keys_below waiting
complete_keys_lem hw count [] sent s = (omega arith, refl, sym (append-nil sent))
complete_keys_lem hw count ((o, senders) ∷ rest) sent s = elim (Bool-cases (ltb o hw)) [
  | inr e ↦
      let (a, b, c) = none_below hw o senders rest s e in
      let keys = keys_below-cons hw o senders rest false e ∙ a in
      let gone = filter-tagged (below hw) o senders (waiting rest) false (λ _. e) ∙ b in
      let left =
        filter-tagged (from hw) o senders (waiting rest) true (λ _. ground arith)
        ∙ ap (λ x. tagged o senders ++ x) c in
      (
        ap
              (λ ks.
                (complete_keys ks count (record { pending = (o, senders) ∷ rest; sent = sent })).0)
              keys
            ∙ omega (arith, ap length gone),
        ap
              (λ ks.
                waiting
                  (complete_keys ks count
                    (record { pending = (o, senders) ∷ rest; sent = sent })).1.pending)
              keys
            ∙ sym left,
        ap
              (λ ks.
                (complete_keys ks count
                  (record { pending = (o, senders) ∷ rest; sent = sent })).1.sent)
              keys
            ∙ sym (append-nil sent)
            ∙ ap (λ x. sent ++ x) (sym gone),
      )
  | inl e ↦
      let (x, y, z) =
        complete_keys_lem hw (count + length senders) rest (sent ++ tagged o senders)
          (tail-IsOrdered (o, senders) rest s) in
      let run =
        ap (λ ks. complete_keys ks count (record { pending = (o, senders) ∷ rest; sent = sent }))
          (keys_below-cons hw o senders rest true e)
        ∙ complete_keys-cons o count senders (keys_below hw rest) rest sent in
      let fired = filter-tagged (below hw) o senders (waiting rest) true (λ _. e) in
      let left = filter-tagged (from hw) o senders (waiting rest) false (λ _. ground arith) in
      (
        ap (λ d. d.0) run
            ∙ x
            ∙ omega (
              arith,
              ap length fired,
              length-tagged o senders,
              length-append (tagged o senders) (filter (below hw) (waiting rest)),
            ),
        ap (λ d. waiting d.1.pending) run ∙ y ∙ sym left,
        ap (λ d. d.1.sent) run
            ∙ z
            ∙ append_assoc sent (tagged o senders) (filter (below hw) (waiting rest))
            ∙ ap (λ l. sent ++ l) (sym fired),
      )
]

-- On an ordered queue `complete` fires exactly the futures parked below the high watermark, in the order
-- of their offsets and each with its own offset; it leaves the others parked as they were; and it
-- returns how many it fired.
pub complete_lem :
    (hw : ℕ) (q : DeferredCompletionQueue)
    → IsOrdered q.pending
    → let done = complete hw q in
      (done.0 ≡ length (filter (below hw) (waiting q.pending)))
      × (waiting done.1.pending ≡ filter (from hw) (waiting q.pending))
      × (done.1.sent ≡ q.sent ++ filter (below hw) (waiting q.pending))
unfolding complete
complete_lem hw q s =
    let (x, y, z) = complete_keys_lem hw 0 q.pending q.sent s in (omega (arith, x), y, z)

-- parking keeps the keys in order
pub push_at-IsOrdered :
    (o : ℕ) (s : Sender) (p : List (ℕ × List Sender)) → IsOrdered p → IsOrdered (push_at o s p)
unfolding push_at
push_at-IsOrdered o s [] h = tt
push_at-IsOrdered o s (e ∷ []) h = ground arith
push_at-IsOrdered o s (e ∷ f ∷ rest) (lt, h) = ground (arith, push_at-IsOrdered o s (f ∷ rest) h)
