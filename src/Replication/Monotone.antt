-- ===== src/Replication/Monotone.antt =====
-- The term, the high watermark and the committed entries of a follower, through the handling of a Fetch
-- response in xraft-core/src/replication.rs.
use xraft.Prelude.{
  ℕ, ◌≤◌, ◌≡◌, ◌∙◌, refl, false, Option, none, some, List, [], ◌∷◌, ◌++◌, arith, Bool-cases, inl,
  inr, ltb, ltb→lt, ltb→le, min,
}
use xraft.Prelude.Exec.{lift, bind_moves, pure}
use xraft.Types.{LogEntry}
use xraft.Types.Rpc.{FetchResponse, DivergingEpoch, SnapshotId}
use xraft.Replication.Parts.{Parts, Follower, QuorumState}
use xraft.Replication.Follower.{reset_timers}
use xraft.Replication.Fetch.{
  has_conflict, check_entries, validate_and_update_term, start_transfer, truncate_divergence,
  apply_entry, apply_entries, notify, execute_commit_notification, advance, append_received,
  append_log, persist, result, append_and_advance, accept_entries, process, handle_fetch_response,
}

-- What the log in memory is relied on for: appending keeps what is there, and truncating at an offset
-- that the log has keeps what is below it and ends the log there.
pub record LawfulLog (P : Parts) : Type 0 where
  pub append_grows :
      (es : List LogEntry) (l : P.Log)
      → P.log_end_offset l ≤ P.log_end_offset (P.append_entries es l)
  pub append_keeps :
      (es : List LogEntry) (l : P.Log) (a b : ℕ)
      → b ≤ P.log_end_offset l
      → P.entries_in_range a b (P.append_entries es l) ≡ P.entries_in_range a b l
  pub truncate_ends :
      (n : ℕ) (l : P.Log) → n ≤ P.log_end_offset l → P.log_end_offset (P.truncate_log n l) ≡ n
  pub truncate_keeps :
      (n : ℕ) (l : P.Log) (a b : ℕ)
      → n ≤ P.log_end_offset l
      → b ≤ n
      → P.entries_in_range a b (P.truncate_log n l) ≡ P.entries_in_range a b l

-- From `f` to `g` nothing committed was lost.
pub record Preserves {P : Parts} (f g : Follower P) : Type 0 where
  pub term_grows : f.state.current_term ≤ g.state.current_term
  pub high_watermark_grows : f.state.high_watermark ≤ g.state.high_watermark
  pub stays_bounded :
      f.state.high_watermark ≤ P.log_end_offset f.log
      → g.state.high_watermark ≤ P.log_end_offset g.log
  pub committed_stay :
      (a b : ℕ)
      → f.state.high_watermark ≤ P.log_end_offset f.log
      → b ≤ f.state.high_watermark
      → P.entries_in_range a b g.log ≡ P.entries_in_range a b f.log

module _ {P : Parts} where
  Preserves-refl : (f : Follower P) → Preserves f f
  Preserves-refl f = record {
    term_grows = omega arith;
    high_watermark_grows = omega arith;
    stays_bounded = λ h. h;
    committed_stay = λ a b h k. refl;
  }

  Preserves-trans : (f g h : Follower P) → Preserves f g → Preserves g h → Preserves f h
  Preserves-trans f g h p q = record {
    term_grows = omega (arith, p.term_grows, q.term_grows);
    high_watermark_grows = omega (arith, p.high_watermark_grows, q.high_watermark_grows);
    stays_bounded = λ x. q.stays_bounded (p.stays_bounded x);
    committed_stay = λ a b x y.
        q.committed_stay a b (p.stays_bounded x) (omega (arith, p.high_watermark_grows))
        ∙ p.committed_stay a b x y;
  }

  -- the log and the watermark untouched, the term not lower
  abbrev Keeps : Follower P → Follower P → Type 0
  Keeps f g =
      (f.state.current_term ≤ g.state.current_term)
      × (g.state.high_watermark ≡ f.state.high_watermark)
      × (g.log ≡ f.log)

  Keeps-Preserves : (f g : Follower P) → Keeps f g → Preserves f g
  Keeps-Preserves f g (t, h, l) = record {
    term_grows = t;
    high_watermark_grows = omega arith;
    stays_bounded = λ x. rw (h, l) x;
    committed_stay = λ a b x y. rw l refl;
  }

  Keeps-trans : (f g h : Follower P) → Keeps f g → Keeps g h → Keeps f h
  Keeps-trans f g h (a, b, c) (d, e, k) = (omega arith, e ∙ b, k ∙ c)

  validate-Keeps : (r : FetchResponse) (f : Follower P) → Keeps f (validate_and_update_term r f).1
  unfolding validate_and_update_term
  validate-Keeps r f = ground arith

  reset_timers-Keeps : (f : Follower P) → Keeps f (reset_timers f).1
  unfolding reset_timers
  reset_timers-Keeps f = (omega arith, refl, refl)

  start_transfer-Keeps :
      (r : FetchResponse) (sid : SnapshotId) (q : Option QuorumState) (f : Follower P)
      → Keeps f (start_transfer r sid q f).1
  unfolding start_transfer
  start_transfer-Keeps r sid q f = ground arith

  apply_entry-Keeps : (e : LogEntry) (f : Follower P) → Keeps f (apply_entry e f).1
  unfolding apply_entry
  apply_entry-Keeps e f = ground arith

  apply_entries-Keeps : (es : List LogEntry) (f : Follower P) → Keeps f (apply_entries es f).1
  unfolding apply_entries
  apply_entries-Keeps [] f = (omega arith, refl, refl)
  apply_entries-Keeps (e ∷ es) f =
      bind_moves Keeps Keeps-trans (apply_entry e) (λ _. apply_entries es) f (apply_entry-Keeps e f)
        (λ _ _. apply_entries-Keeps es (apply_entry e f).1)

  notification-Keeps : (a b : ℕ) (f : Follower P) → Keeps f (execute_commit_notification a b f).1
  unfolding execute_commit_notification notify
  notification-Keeps a b f =
      let es = P.entries_in_range a b f.log in
      bind_moves Keeps Keeps-trans (apply_entries es) (λ _. notify es b) f
        (apply_entries-Keeps es f) (λ _ _. (omega arith, refl, refl))

module _ {P : Parts} (laws : LawfulLog P) where
  truncate-Preserves :
      (d : DivergingEpoch) (q : Option QuorumState) (f : Follower P)
      → Preserves f (truncate_divergence d q f).1
  unfolding truncate_divergence
  truncate-Preserves d q f =
      let point = min d.end_offset (P.log_end_offset f.log) in
      elim (Bool-cases (ltb point f.state.high_watermark)) [
        | inl e ↦ rw e (Preserves-refl f)
        | inr e ↦
            let le = ltb→le point f.state.high_watermark e in
            rw e (record {
              term_grows = omega arith;
              high_watermark_grows = omega arith;
              stays_bounded = λ h. omega (arith, laws.truncate_ends point f.log (omega arith));
              committed_stay =
                  λ a b h k. laws.truncate_keeps point f.log a b (omega arith) (omega arith);
            })
      ]

  advance-Preserves : (leader_hw : ℕ) (f : Follower P) → Preserves f (advance leader_hw f).1
  unfolding advance
  advance-Preserves leader_hw f =
      let new_hw = min leader_hw (P.log_end_offset f.log) in
      elim (Bool-cases (ltb f.state.high_watermark new_hw)) [
        | inr e ↦ rw e (Preserves-refl f)
        | inl e ↦
            let g : Follower P = record f { state = record f.state { high_watermark = new_hw } } in
            let lt = ltb→lt f.state.high_watermark new_hw e in
            rw e (
              Preserves-trans f g (execute_commit_notification f.state.high_watermark new_hw g).1
                (record {
                  term_grows = omega arith;
                  high_watermark_grows = omega arith;
                  stays_bounded = λ h. omega arith;
                  committed_stay = λ a b h k. refl;
                })
                (Keeps-Preserves g (execute_commit_notification f.state.high_watermark new_hw g).1
                  (notification-Keeps f.state.high_watermark new_hw g)))
      ]

  append-Preserves : (es : List LogEntry) (f : Follower P) → Preserves f (append_received es f)
  append-Preserves [] f = Preserves-refl f
  append-Preserves (e ∷ es) f = record {
    term_grows = omega arith;
    high_watermark_grows = omega arith;
    stays_bounded = λ h. omega (arith, laws.append_grows (e ∷ es) f.log);
    committed_stay = λ a b h k. laws.append_keeps (e ∷ es) f.log a b (omega arith);
  }

  append_and_advance-Preserves :
      (r : FetchResponse) (q : Option QuorumState) (f : Follower P)
      → Preserves f (append_and_advance r q f).1
  unfolding append_and_advance
  append_and_advance-Preserves r q f =
      let g = append_received r.entries f in
      Preserves-trans f g (append_and_advance r q f).1 (append-Preserves r.entries f) (
        bind_moves Preserves Preserves-trans (advance r.high_watermark)
          (λ _. pure (result (append_log r.entries ++ persist q) false)) g
          (advance-Preserves r.high_watermark g)
          (λ _ _. Preserves-refl (advance r.high_watermark g).1))

  accept-Preserves :
      (r : FetchResponse) (q : Option QuorumState) (f : Follower P)
      → Preserves f (accept_entries r q f).1
  unfolding accept_entries
  accept-Preserves r q f =
      bind_moves Preserves Preserves-trans (lift (check_entries (P.log_end_offset f.log) r.entries))
        (λ _. append_and_advance r q) f (Preserves-refl f)
        (λ _ _. append_and_advance-Preserves r q f)

  process-Preserves :
      (r : FetchResponse) (sid : Option SnapshotId) (d : Option DivergingEpoch)
      (q : Option QuorumState) (f : Follower P)
      → Preserves f (process r sid d q f).1
  process-Preserves r (some sid) d q f =
      Keeps-Preserves f (start_transfer r sid q f).1 (start_transfer-Keeps r sid q f)
  process-Preserves r none (some d) q f = truncate-Preserves d q f
  process-Preserves r none none q f = accept-Preserves r q f

  fetch_response-Preserves :
      (r : FetchResponse) (f : Follower P) → Preserves f (handle_fetch_response r f).1
  unfolding handle_fetch_response
  fetch_response-Preserves r f =
      let m = (validate_and_update_term r f).1 in
      bind_moves Preserves Preserves-trans (validate_and_update_term r) _ f
        (Keeps-Preserves f m (validate-Keeps r f))
        (λ q _. elim (Bool-cases (has_conflict r)) [
          | inl e ↦ rw e (Preserves-refl m)
          | inr e ↦ rw e (
              bind_moves Preserves Preserves-trans reset_timers
                (λ _. process r r.snapshot_id r.diverging_epoch q) m
                (Keeps-Preserves m (reset_timers m).1 (reset_timers-Keeps m))
                (λ _ _. process-Preserves r r.snapshot_id r.diverging_epoch q (reset_timers m).1))
        ])

  -- If appending to the log in memory keeps what is there and truncating it keeps what is below and ends
  -- it there, then whatever a Fetch response holds, and whether it is accepted or refused, on a node whose
  -- high watermark is within its log: the term and the high watermark do not fall, the high watermark stays
  -- within the log, and every range of entries below the old high watermark reads the same afterwards.
  pub committed_entries_stay :
      (r : FetchResponse) (f : Follower P) (a b : ℕ)
      → f.state.high_watermark ≤ P.log_end_offset f.log
      → b ≤ f.state.high_watermark
      → let g = (handle_fetch_response r f).1 in
        (f.state.current_term ≤ g.state.current_term)
        × (f.state.high_watermark ≤ g.state.high_watermark)
        × (g.state.high_watermark ≤ P.log_end_offset g.log)
        × (P.entries_in_range a b g.log ≡ P.entries_in_range a b f.log)
  committed_entries_stay r f a b h k =
      let p = fetch_response-Preserves r f in
      (p.term_grows, p.high_watermark_grows, p.stays_bounded h, p.committed_stay a b h k)
