-- ===== src/IoStage/Turns.antt =====
-- The turns that the two groups of a batch take, in the stage of xraft-core/src/io_action.rs.
use xraft.Prelude.{◌≡◌, ◌∙◌, refl, List, [], ◌∷◌, arith}
use xraft.Prelude.Exec.{ok, err}
use xraft.Node.Traits.{Io}
use xraft.Replication.Parts.{IoAction}
use xraft.IoStage.{
  Stores, Disk, Turn, store, transmit, then_rest, in_order, try_join, take_turn, take_turns,
  Progress,
}

module _ {ℓ} {A : Type ℓ} (f : IoAction → A → Io (Unit {0}) × A) where
  then_rest-ok :
      (r : Io (Unit {0}) × A) (k : A → Io (Unit {0}) × A) (t : A)
      → then_rest r k ≡ (ok tt, t)
      → (m : A) × (r ≡ (ok tt, m)) × (k m ≡ (ok tt, t))
  then_rest-ok (ok tt, m) k t h = (m, refl, h)
  then_rest-ok (err e, m) k t h = absurd (ground arith)

  in_order-step :
      (a : IoAction) (rest : List IoAction) (s t : A)
      → in_order f (a ∷ rest) s ≡ (ok tt, t)
      → (m : A) × (f a s ≡ (ok tt, m)) × (in_order f rest m ≡ (ok tt, t))
  unfolding in_order
  in_order-step a rest s t h = then_rest-ok (f a s) (in_order f rest) t h

-- What is left of a group of actions after these turns, one action less for each turn that it had.
unfoldable pub storage_left_after : List Turn → List IoAction → List IoAction
storage_left_after [] ss = ss
storage_left_after (Turn.network ∷ ts) ss = storage_left_after ts ss
storage_left_after (Turn.storage ∷ ts) [] = []
storage_left_after (Turn.storage ∷ ts) (s ∷ ss) = storage_left_after ts ss

unfoldable pub network_left_after : List Turn → List IoAction → List IoAction
network_left_after [] ns = ns
network_left_after (Turn.storage ∷ ts) ns = network_left_after ts ns
network_left_after (Turn.network ∷ ts) [] = []
network_left_after (Turn.network ∷ ts) (n ∷ ns) = network_left_after ts ns

storage_left_after_nil : (ts : List Turn) → storage_left_after ts [] ≡ []
unfolding storage_left_after
storage_left_after_nil [] = refl
storage_left_after_nil (Turn.network ∷ ts) = storage_left_after_nil ts
storage_left_after_nil (Turn.storage ∷ ts) = refl

network_left_after_nil : (ts : List Turn) → network_left_after ts [] ≡ []
unfolding network_left_after
network_left_after_nil [] = refl
network_left_after_nil (Turn.storage ∷ ts) = network_left_after_nil ts
network_left_after_nil (Turn.network ∷ ts) = refl

module _ {S : Stores} where
  pub try_join-ok :
      (turns : List Turn) (ss ns : List IoAction) (d d' : Disk S) (o o' : S.Outbox)
      → in_order (store S) ss d ≡ (ok tt, d')
      → in_order (transmit S) ns o ≡ (ok tt, o')
      → try_join turns ss ns (record { disk = d; transport = o })
        ≡ (ok tt, record { disk = d'; transport = o' })
  unfolding try_join take_turns take_turn
  try_join-ok [] ss ns d d' o o' h k = rw (h, k) refl
  try_join-ok (Turn.storage ∷ ts) [] ns d d' o o' h k = try_join-ok ts [] ns d d' o o' h k
  try_join-ok (Turn.storage ∷ ts) (s ∷ ss) ns d d' o o' h k =
      let (m, e, h') = in_order-step (store S) s ss d d' h in
      rw e (try_join-ok ts ss ns m d' o o' h' k)
  try_join-ok (Turn.network ∷ ts) ss [] d d' o o' h k = try_join-ok ts ss [] d d' o o' h k
  try_join-ok (Turn.network ∷ ts) ss (n ∷ ns) d d' o o' h k =
      let (m, e, k') = in_order-step (transmit S) n ns o o' k in
      rw e (try_join-ok ts ss ns d d' m o' h k')

  -- the progress after these turns, from which what is left of each group leads to the end
  unfoldable pub Interleaved :
      List Turn → (ss ns : List IoAction) → Disk S → S.Outbox → Progress S → Type 0
  Interleaved turns ss ns d' o' p =
      (p.storage_left ≡ storage_left_after turns ss)
      × (p.network_left ≡ network_left_after turns ns)
      × (in_order (store S) p.storage_left p.stage.disk ≡ (ok tt, d'))
      × (in_order (transmit S) p.network_left p.stage.transport ≡ (ok tt, o'))

  pub take_turns-ok :
      (turns : List Turn) (ss ns : List IoAction) (d d' : Disk S) (o o' : S.Outbox)
      → in_order (store S) ss d ≡ (ok tt, d')
      → in_order (transmit S) ns o ≡ (ok tt, o')
      → (p : Progress S) × (take_turns turns (record {
        storage_left = ss;
        network_left = ns;
        stage = record { disk = d; transport = o };
      })
          ≡ (ok tt, p))
        × Interleaved turns ss ns d' o' p
  unfolding take_turns take_turn Interleaved storage_left_after network_left_after
  take_turns-ok [] ss ns d d' o o' h k = (
    record { storage_left = ss; network_left = ns; stage = record { disk = d; transport = o } },
    refl,
    (refl, refl, h, k),
  )
  take_turns-ok (Turn.storage ∷ ts) [] ns d d' o o' h k =
      let (p, e, (a, b, x, y)) = take_turns-ok ts [] ns d d' o o' h k in
      (p, e, (a ∙ storage_left_after_nil ts, b, x, y))
  take_turns-ok (Turn.storage ∷ ts) (s ∷ ss) ns d d' o o' h k =
      let (m, e, h') = in_order-step (store S) s ss d d' h in
      let (p, q, rest) = take_turns-ok ts ss ns m d' o o' h' k in (p, rw e q, rest)
  take_turns-ok (Turn.network ∷ ts) ss [] d d' o o' h k =
      let (p, e, (a, b, x, y)) = take_turns-ok ts ss [] d d' o o' h k in
      (p, e, (a, b ∙ network_left_after_nil ts, x, y))
  take_turns-ok (Turn.network ∷ ts) ss (n ∷ ns) d d' o o' h k =
      let (m, e, k') = in_order-step (transmit S) n ns o o' k in
      let (p, q, rest) = take_turns-ok ts ss ns d d' m o' h k' in (p, rw e q, rest)
