-- ===== src/Completion/Failure.antt =====
-- The failures of the completion queue of xraft-core/src/deferred_completion.rs.
use xraft.Prelude.{
  ℕ, ◌+◌, ◌≡◌, ◌∙◌, ap, sym, refl, Bool, true, false, List, [], ◌∷◌, ◌++◌, filter, arith,
  Bool-cases, inl, inr, leb, ◌==◌, length, length-append, All, if◌then◌else◌,
}
use xraft.Completion.{
  Sender, DeferredCompletionQueue, keys_from, remove_key, fail_keys, fail_at_or_above,
}
use xraft.Completion.Delivery.{
  IsOrdered, waiting, below, from, tagged, filter-tagged, length-tagged, tail-IsOrdered,
}

-- no key is `o`
abbrev Avoids : ℕ → List ℕ → Type 0
Avoids o ks = All (λ k. (o == k) ≡ false) ks

keys_from-Avoids :
    (t o : ℕ) (senders : List Sender) (rest : List (ℕ × List Sender))
    → IsOrdered ((o, senders) ∷ rest)
    → Avoids o (keys_from t rest)
unfolding keys_from
keys_from-Avoids t o senders [] s = tt
keys_from-Avoids t o senders ((o', senders') ∷ []) (lt, s) = ground arith
keys_from-Avoids t o senders ((o', senders') ∷ f ∷ rest) (lt, (lt', s)) =
    ground (arith, keys_from-Avoids t o senders (f ∷ rest) (omega arith, s))

remove_key-skip :
    (k o : ℕ) (senders : List Sender) (p : List (ℕ × List Sender))
    → (o == k) ≡ false
    → remove_key k ((o, senders) ∷ p) ≡ ((remove_key k p).0, (o, senders) ∷ (remove_key k p).1)
unfolding remove_key
remove_key-skip k o senders p d = ground arith

-- a key that is not there is left in place
fail_keys-skip :
    (ks : List ℕ) (count o : ℕ) (senders : List Sender) (p : List (ℕ × List Sender))
    (sent : List (ℕ × Sender))
    → Avoids o ks
    → let done = fail_keys ks count (record { pending = p; sent = sent }) in
      fail_keys ks count (record { pending = (o, senders) ∷ p; sent = sent })
      ≡ (done.0, record done.1 { pending = (o, senders) ∷ done.1.pending })
unfolding fail_keys
fail_keys-skip [] count o senders p sent d = refl
fail_keys-skip (k ∷ ks) count o senders p sent (d, ds) =
    let r = remove_key k p in
    ap
      (λ (x : List Sender × List (ℕ × List Sender)).
        fail_keys ks (count + length x.0) (record { pending = x.1; sent = sent }))
      (remove_key-skip k o senders p d)
    ∙ fail_keys-skip ks (count + length r.0) o senders r.1 sent ds

keys_from-cons :
    (t o : ℕ) (senders : List Sender) (rest : List (ℕ × List Sender)) (b : Bool)
    → leb t o ≡ b
    → keys_from t ((o, senders) ∷ rest) ≡ (if b then o ∷ keys_from t rest else keys_from t rest)
unfolding keys_from
keys_from-cons t o senders rest b h = ground arith

fail_keys-cons :
    (o count : ℕ) (senders : List Sender) (os : List ℕ) (rest : List (ℕ × List Sender))
    (sent : List (ℕ × Sender))
    → fail_keys (o ∷ os) count (record { pending = (o, senders) ∷ rest; sent = sent })
      ≡ fail_keys os (count + length senders) (record { pending = rest; sent = sent })
unfolding fail_keys remove_key
fail_keys-cons o count senders os rest sent = ground arith

abbrev Failed :
    ℕ → ℕ → List (ℕ × List Sender) → List (ℕ × Sender) → ℕ × DeferredCompletionQueue → Type 0
Failed t count p sent done =
    (done.0 ≡ count + length (filter (from t) (waiting p)))
    × (waiting done.1.pending ≡ filter (below t) (waiting p))
    × (done.1.sent ≡ sent)

fail_keys_lem :
    (t count : ℕ) (p : List (ℕ × List Sender)) (sent : List (ℕ × Sender))
    → IsOrdered p
    → Failed t count p sent (fail_keys (keys_from t p) count (record { pending = p; sent = sent }))
unfolding fail_keys keys_from waiting
fail_keys_lem t count [] sent s = (omega arith, refl, refl)
fail_keys_lem t count ((o, senders) ∷ rest) sent s = elim (Bool-cases (leb t o)) [
  | inl e ↦
      let (x, y, z) =
        fail_keys_lem t (count + length senders) rest sent (tail-IsOrdered (o, senders) rest s) in
      let run =
        ap (λ ks. fail_keys ks count (record { pending = (o, senders) ∷ rest; sent = sent }))
          (keys_from-cons t o senders rest true e)
        ∙ fail_keys-cons o count senders (keys_from t rest) rest sent in
      let gone = filter-tagged (from t) o senders (waiting rest) true (λ _. e) in
      let left = filter-tagged (below t) o senders (waiting rest) false (λ _. ground arith) in
      (
        ap (λ d. d.0) run
            ∙ x
            ∙ omega (
              arith,
              ap length gone,
              length-tagged o senders,
              length-append (tagged o senders) (filter (from t) (waiting rest)),
            ),
        ap (λ d. waiting d.1.pending) run ∙ y ∙ sym left,
        ap (λ d. d.1.sent) run ∙ z,
      )
  | inr e ↦
      let (x, y, z) = fail_keys_lem t count rest sent (tail-IsOrdered (o, senders) rest s) in
      let run =
        ap (λ ks. fail_keys ks count (record { pending = (o, senders) ∷ rest; sent = sent }))
          (keys_from-cons t o senders rest false e)
        ∙ fail_keys-skip (keys_from t rest) count o senders rest sent
            (keys_from-Avoids t o senders rest s) in
      let gone = filter-tagged (from t) o senders (waiting rest) false (λ _. e) in
      let left = filter-tagged (below t) o senders (waiting rest) true (λ _. ground arith) in
      (
        ap (λ d. d.0) run ∙ x ∙ ap (λ l. count + length l) (sym gone),
        ap (λ d. waiting d.1.pending) run ∙ ap (λ l. tagged o senders ++ l) y ∙ sym left,
        ap (λ d. d.1.sent) run ∙ z,
      )
]

-- On an ordered queue `fail_at_or_above` drops exactly the futures parked at the threshold or above; the
-- others stay parked as they were, nothing is sent, and the result is how many were dropped.
pub fail_at_or_above_lem :
    (t : ℕ) (q : DeferredCompletionQueue)
    → IsOrdered q.pending
    → let done = fail_at_or_above t q in
      (done.0 ≡ length (filter (from t) (waiting q.pending)))
      × (waiting done.1.pending ≡ filter (below t) (waiting q.pending))
      × (done.1.sent ≡ q.sent)
unfolding fail_at_or_above
fail_at_or_above_lem t q s =
    let (x, y, z) = fail_keys_lem t 0 q.pending q.sent s in (omega (arith, x), y, z)
