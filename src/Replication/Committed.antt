-- ===== src/Replication/Committed.antt =====
-- The three phases of a commit notification (xraft-core/src/replication.rs).
use xraft.Prelude.{ℕ, ◌≡◌, ◌∙◌, sym, ap, refl, true, List, [], ◌∷◌, arith}
use xraft.Prelude.Exec.{ok, err, Result, continue, bind_ok}
use xraft.Types.{LogEntry, Bytes}
use xraft.Completion.{complete}
use xraft.Replication.Parts.{Parts, Follower, Handler, ReplicationError, state_machine_apply_error}
use xraft.Replication.Fetch.{
  app_records, apply_entry, apply_entries, notify, execute_commit_notification,
}

module _ (P : Parts) where
  -- the state machine fed with the records, in order
  unfoldable pub fed : List (ℕ × Bytes) → P.Machine → P.Machine
  fed [] m = m
  fed ((offset, payload) ∷ rest) m = fed rest (P.apply offset payload m).1

  -- every record was accepted
  unfoldable pub Accepted : List (ℕ × Bytes) → P.Machine → Type 0
  Accepted [] m = Unit
  Accepted ((offset, payload) ∷ rest) m =
      ((P.apply offset payload m).0 ≡ true) × Accepted rest (P.apply offset payload m).1

  -- a command that is refused shuts the node down
  abbrev pub shut_down : Result ReplicationError (Unit {0}) → P.Ear → P.Ear
  shut_down (err state_machine_apply_error) ear = P.begin_shutdown ear
  shut_down _ ear = ear

  -- what a commit notification for these records has done, by its result
  abbrev pub Outcome :
      List (ℕ × Bytes) → ℕ → Result ReplicationError (Unit {0}) → Follower P → Follower P → Type 0
  Outcome records new_hw (ok _) f g =
      (g.state_machine ≡ fed records f.state_machine)
      × Accepted records f.state_machine
      × (g.listener ≡ P.handle_commit records f.listener)
      × (g.completion_queue ≡ (complete new_hw f.completion_queue).1)
  Outcome records new_hw (err e) f g =
      (g.listener ≡ shut_down (err e) f.listener) × (g.completion_queue ≡ f.completion_queue)

module _ {P : Parts} where
  -- what one entry does, before the records of the others
  apply_entry-ok :
      (e : LogEntry) (es : List LogEntry) (f : Follower P)
      → (apply_entry e f).0 ≡ ok tt
      → let g = (apply_entry e f).1 in
        (fed P (app_records (e ∷ es)) f.state_machine ≡ fed P (app_records es) g.state_machine)
        × (Accepted P (app_records es) g.state_machine
            → Accepted P (app_records (e ∷ es)) f.state_machine)
        × (g.listener ≡ f.listener)
        × (g.completion_queue ≡ f.completion_queue)
  unfolding apply_entry fed Accepted app_records
  apply_entry-ok e es f h = ground arith

  apply_entries-ok :
      (es : List LogEntry) (f : Follower P)
      → (apply_entries es f).0 ≡ ok tt
      → let g = (apply_entries es f).1 in
        (g.state_machine ≡ fed P (app_records es) f.state_machine)
        × Accepted P (app_records es) f.state_machine
        × (g.listener ≡ f.listener)
        × (g.completion_queue ≡ f.completion_queue)
  unfolding apply_entries app_records fed Accepted
  apply_entries-ok [] f h = (refl, tt, refl, refl)
  apply_entries-ok (e ∷ es) f h =
      let (_, one, rest, same) = bind_ok (apply_entry e) (λ _. apply_entries es) f h in
      let (a, b, c, d) = apply_entry-ok e es f one in
      let (x, y, z, w) = apply_entries-ok es (apply_entry e f).1 rest in
      (
        ap (λ g. g.state_machine) same ∙ x ∙ sym a,
        b y,
        ap (λ g. g.listener) same ∙ z ∙ c,
        ap (λ g. g.completion_queue) same ∙ w ∙ d,
      )

  -- what the listener knows and which futures wait: as before, but for the shutdown
  Untold : Result ReplicationError (Unit {0}) → Follower P → Follower P → Type 0
  Untold r f g = (g.listener ≡ shut_down P r f.listener) × (g.completion_queue ≡ f.completion_queue)

  apply_entry-Untold :
      (e : LogEntry) (f : Follower P) → Untold (apply_entry e f).0 f (apply_entry e f).1
  unfolding apply_entry Untold
  apply_entry-Untold e f = ground arith

  then_Untold :
      (r : Result ReplicationError (Unit {0})) (k : Handler P (Unit {0})) (f g : Follower P)
      → Untold r f g
      → Untold (k g).0 g (k g).1
      → Untold (continue r (λ _. k) g).0 f (continue r (λ _. k) g).1
  unfolding Untold
  then_Untold (ok tt) k f g (l, q) (l', q') = (l' ∙ ap (shut_down P (k g).0) l, q' ∙ q)
  then_Untold (err e) k f g h h' = h

  apply_entries-Untold :
      (es : List LogEntry) (f : Follower P) → Untold (apply_entries es f).0 f (apply_entries es f).1
  unfolding apply_entries Untold
  apply_entries-Untold [] f = (refl, refl)
  apply_entries-Untold (e ∷ es) f =
      then_Untold (apply_entry e f).0 (apply_entries es) f (apply_entry e f).1
        (apply_entry-Untold e f) (apply_entries-Untold es (apply_entry e f).1)

  then_notify :
      (r : Result ReplicationError (Unit {0})) (es : List LogEntry) (new_hw : ℕ) (f g : Follower P)
      → (r ≡ ok tt
          → (g.state_machine ≡ fed P (app_records es) f.state_machine)
            × Accepted P (app_records es) f.state_machine)
      → Untold r f g
      → Outcome P
          (app_records es)
          new_hw
          (continue r (λ _. notify es new_hw) g).0
          f
          (continue r (λ _. notify es new_hw) g).1
  unfolding notify Untold
  then_notify (ok tt) es new_hw f g h (l, q) =
      let (a, b) = h refl in
      (a, b, ap (P.handle_commit (app_records es)) l, ap (λ x. (complete new_hw x).1) q)
  then_notify (err e) es new_hw f g h told = told

  -- A commit notification first hands the state machine the commands of the entries from the old to the
  -- new high watermark. If it succeeds, the state machine has accepted exactly these, in log order, the
  -- listener was told of the same records in one batch, and the futures below the new high watermark were
  -- completed. If it fails, no future was completed or dropped, and the listener was told of
  -- no record: it was told to shut down if the state machine refused a command, and nothing otherwise.
  pub commit_notification_lem :
      (old_hw new_hw : ℕ) (f : Follower P)
      → let done = execute_commit_notification old_hw new_hw f in
        Outcome P (app_records (P.entries_in_range old_hw new_hw f.log)) new_hw done.0 f done.1
  unfolding execute_commit_notification
  commit_notification_lem old_hw new_hw f =
      let es = P.entries_in_range old_hw new_hw f.log in
      then_notify (apply_entries es f).0 es new_hw f (apply_entries es f).1
        (λ h. let (a, b, _, _) = apply_entries-ok es f h in (a, b)) (apply_entries-Untold es f)
