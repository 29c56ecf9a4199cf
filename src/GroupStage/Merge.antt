-- ===== src/GroupStage/Merge.antt =====
-- The three groups of xraft-core/src/io_stage.rs against one action after the other.
use xraft.Prelude.{
  ℕ, ◌+◌, ◌≤◌, ◌<◌, ◌≡◌, refl, sym, ap, ◌∙◌, Bool, List, [], ◌∷◌, ◌++◌, map, leb, arith, inl, inr,
  Bool-cases, All, append_assoc,
}
use xraft.GroupStage.{
  Objects, IoAction, append_log, truncate_suffix, truncate_prefix, save_snapshot, send_rpc,
  IoResult, IoStage, Group, group_of, is_log, is_snapshot, is_net, log_action, snapshot_action,
  net_action, execute_group, enumerate, insert_by_key, sort_by_key, of_group, execute,
}

abbrev Above : ℕ → List (ℕ × IoResult) → Type 0
Above k = All (λ p. k ≤ p.0)

insert_by_key-All :
    (k : ℕ) (p : ℕ × IoResult) (ps : List (ℕ × IoResult))
    → k ≤ p.0
    → Above k ps
    → Above k (insert_by_key p ps)
unfolding insert_by_key
insert_by_key-All k p [] h a = (h, tt)
insert_by_key-All k p (q ∷ qs) h (g, a) = elim (Bool-cases (leb p.0 q.0)) [
  | inl e ↦ rw e (h, (g, a))
  | inr e ↦ rw e (g, insert_by_key-All k p qs h a)
]

sort_by_key-All : (k : ℕ) (ps : List (ℕ × IoResult)) → Above k ps → Above k (sort_by_key ps)
unfolding sort_by_key
sort_by_key-All k [] a = tt
sort_by_key-All k (p ∷ ps) (h, a) =
    insert_by_key-All k p (sort_by_key ps) h (sort_by_key-All k ps a)

-- the least key comes first
insert_by_key-least :
    (p : ℕ × IoResult) (ps : List (ℕ × IoResult)) → Above (p.0 + 1) ps → insert_by_key p ps ≡ p ∷ ps
unfolding insert_by_key
insert_by_key-least p [] a = refl
insert_by_key-least p (q ∷ qs) (h, a) = ground arith

insert_by_key-after :
    (q p : ℕ × IoResult) (ps : List (ℕ × IoResult))
    → p.0 < q.0
    → insert_by_key q (p ∷ ps) ≡ p ∷ insert_by_key q ps
unfolding insert_by_key
insert_by_key-after q p ps h = ground arith

-- and it does so wherever it stood
sort_by_key-least :
    (p : ℕ × IoResult) (ps qs : List (ℕ × IoResult))
    → Above (p.0 + 1) ps
    → Above (p.0 + 1) qs
    → sort_by_key (ps ++ (p ∷ qs)) ≡ p ∷ sort_by_key (ps ++ qs)
unfolding sort_by_key
sort_by_key-least p [] qs a b =
    insert_by_key-least p (sort_by_key qs) (sort_by_key-All (p.0 + 1) qs b)
sort_by_key-least p (q ∷ ps) qs (h, a) b =
    ap (insert_by_key q) (sort_by_key-least p ps qs a b)
    ∙ insert_by_key-after q p (sort_by_key (ps ++ qs)) (omega arith)

Above-append : (k : ℕ) (ps qs : List (ℕ × IoResult)) → Above k ps → Above k qs → Above k (ps ++ qs)
Above-append k [] qs a b = b
Above-append k (p ∷ ps) qs (h, a) b = (h, Above-append k ps qs a b)

module _ {O : Objects} where
  -- one action, on the object that it is for
  abbrev pub perform : IoAction O → IoStage O → IoResult × IoStage O
  perform a s = elim (group_of a) [
    | Group.log_group ↦ let (r, l) = log_action O a s.log_store in (r, record s { log_store = l })
    | Group.snapshot_group ↦
        let (r, i) = snapshot_action O a s.snapshot_io in (r, record s { snapshot_io = i })
    | Group.net_group ↦ let (r, n) = net_action O a s.network in (r, record s { network = n })
  ]

  -- the batch, action by action in its order, each with its result
  unfoldable pub one_by_one : List (IoAction O) → IoStage O → List IoResult × IoStage O
  one_by_one [] s = ([], s)
  one_by_one (a ∷ rest) s =
      let (r, s') = perform a s in let (rs, s'') = one_by_one rest s' in (r ∷ rs, s'')

  results-Above :
      {S : Type 0} (f : IoAction O → S → IoResult × S) (p : Group → Bool) (k j : ℕ)
      → (batch : List (IoAction O)) (s : S) → k ≤ j
      → Above k (execute_group f (of_group p (enumerate j batch)) s).0
  unfolding execute_group enumerate
  results-Above f p k j [] s h = tt
  results-Above f p k j (a ∷ rest) s h = elim (Bool-cases (p (group_of a))) [
    | inl e ↦ rw e (h, results-Above f p k (j + 1) rest (f a s).1 (omega arith))
    | inr e ↦ rw e (results-Above f p k (j + 1) rest s (omega arith))
  ]

  -- what `execute` makes of a batch that is numbered from `k` on
  abbrev executed : ℕ → List (IoAction O) → IoStage O → List IoResult × IoStage O
  executed k batch s =
      let all = enumerate k batch in
      let (log_results, l) = execute_group (log_action O) (of_group is_log all) s.log_store in
      let (snap_results, i) =
        execute_group (snapshot_action O) (of_group is_snapshot all) s.snapshot_io in
      let (net_results, n) = execute_group (net_action O) (of_group is_net all) s.network in
      (
        map (λ p. p.1) (sort_by_key (log_results ++ (snap_results ++ net_results))),
        record { log_store = l; snapshot_io = i; network = n },
      )

  -- the results of a group, from `k` on
  abbrev logs : ℕ → List (IoAction O) → IoStage O → List (ℕ × IoResult)
  logs k batch s =
      (execute_group (log_action O) (of_group is_log (enumerate k batch)) s.log_store).0

  abbrev snaps : ℕ → List (IoAction O) → IoStage O → List (ℕ × IoResult)
  snaps k batch s =
      (execute_group (snapshot_action O) (of_group is_snapshot (enumerate k batch)) s.snapshot_io).0

  abbrev nets : ℕ → List (IoAction O) → IoStage O → List (ℕ × IoResult)
  nets k batch s = (execute_group (net_action O) (of_group is_net (enumerate k batch)) s.network).0

  abbrev merged : List (ℕ × IoResult) → IoStage O → List IoResult × IoStage O
  merged rs s = (map (λ p. p.1) (sort_by_key rs), s)

  abbrev after : IoResult → List IoResult × IoStage O → List IoResult × IoStage O
  after r (rs, s) = (r ∷ rs, s)

  -- the first result of the batch, wherever its group has it, comes first
  merge-first :
      (k : ℕ) (r : IoResult) (ps qs : List (ℕ × IoResult)) (batch : List (IoAction O))
      → (s : IoStage O) → Above (k + 1) ps
      → Above (k + 1) qs
      → ps ++ qs ≡ logs (k + 1) batch s ++ (snaps (k + 1) batch s ++ nets (k + 1) batch s)
      → merged (ps ++ ((k, r) ∷ qs)) (executed (k + 1) batch s).1
        ≡ after r (executed (k + 1) batch s)
  merge-first k r ps qs batch s a b e =
      let t = (executed (k + 1) batch s).1 in
      let least : merged (ps ++ ((k, r) ∷ qs)) t ≡ after r (merged (ps ++ qs) t) =
        ap (λ rs. (map (λ (p : ℕ × IoResult). p.1) rs, t)) (sort_by_key-least (k, r) ps qs a b) in
      least ∙ ap (λ rs. after r (merged rs t)) e

  log-first :
      (k : ℕ) (r : IoResult) (batch : List (IoAction O)) (s : IoStage O)
      → merged
          ((k, r) ∷ (logs (k + 1) batch s ++ (snaps (k + 1) batch s ++ nets (k + 1) batch s)))
          (executed (k + 1) batch s).1
        ≡ after r (executed (k + 1) batch s)
  log-first k r batch s =
      merge-first k r [] (logs (k + 1) batch s ++ (snaps (k + 1) batch s ++ nets (k + 1) batch s))
        batch s tt
        (Above-append (k + 1) (logs (k + 1) batch s) _
          (results-Above (log_action O) is_log (k + 1) (k + 1) batch s.log_store (omega arith))
          (Above-append (k + 1) (snaps (k + 1) batch s) (nets (k + 1) batch s)
            (results-Above (snapshot_action O) is_snapshot (k + 1) (k + 1) batch s.snapshot_io
              (omega arith))
            (results-Above (net_action O) is_net (k + 1) (k + 1) batch s.network (omega arith))))
        refl

  executed-one_by_one :
      (k : ℕ) (batch : List (IoAction O)) (s : IoStage O) → executed k batch s ≡ one_by_one batch s
  unfolding one_by_one execute_group enumerate sort_by_key
  executed-one_by_one k [] s = refl
  executed-one_by_one k (append_log entries ∷ rest) s =
      let (r, s') = perform (append_log entries) s in
      log-first k r rest s' ∙ ap (after r) (executed-one_by_one (k + 1) rest s')
  executed-one_by_one k (truncate_suffix from ∷ rest) s =
      let (r, s') = perform (truncate_suffix from) s in
      log-first k r rest s' ∙ ap (after r) (executed-one_by_one (k + 1) rest s')
  executed-one_by_one k (truncate_prefix up_to ∷ rest) s =
      let (r, s') = perform (truncate_prefix up_to) s in
      log-first k r rest s' ∙ ap (after r) (executed-one_by_one (k + 1) rest s')
  executed-one_by_one k (save_snapshot snapshot ∷ rest) s =
      let (r, s') = perform (save_snapshot snapshot) s in
      merge-first k r (logs (k + 1) rest s') (snaps (k + 1) rest s' ++ nets (k + 1) rest s') rest s'
        (results-Above (log_action O) is_log (k + 1) (k + 1) rest s'.log_store (omega arith))
        (Above-append (k + 1) (snaps (k + 1) rest s') (nets (k + 1) rest s')
          (results-Above (snapshot_action O) is_snapshot (k + 1) (k + 1) rest s'.snapshot_io
            (omega arith))
          (results-Above (net_action O) is_net (k + 1) (k + 1) rest s'.network (omega arith)))
        refl
      ∙ ap (after r) (executed-one_by_one (k + 1) rest s')
  executed-one_by_one k (send_rpc node_id message ∷ rest) s =
      let (r, s') = perform (send_rpc node_id message) s in
      let ls = logs (k + 1) rest s' in
      let ss = snaps (k + 1) rest s' in
      let ns = nets (k + 1) rest s' in
      ap (λ rs. merged rs (executed (k + 1) rest s').1) (sym (append_assoc ls ss ((k, r) ∷ ns)))
      ∙ merge-first k r (ls ++ ss) ns rest s'
          (Above-append (k + 1) ls ss
            (results-Above (log_action O) is_log (k + 1) (k + 1) rest s'.log_store (omega arith))
            (results-Above (snapshot_action O) is_snapshot (k + 1) (k + 1) rest s'.snapshot_io
              (omega arith)))
          (results-Above (net_action O) is_net (k + 1) (k + 1) rest s'.network (omega arith))
          (append_assoc ls ss ns)
      ∙ ap (after r) (executed-one_by_one (k + 1) rest s')

  -- Executing a batch in three groups and putting the results in order leaves the three objects as they
  -- are when the actions run one after the other in the order of the batch, and gives the result that
  -- each has then, also where some of them fail.
  pub execute-one_by_one :
      (batch : List (IoAction O)) (s : IoStage O) → execute batch s ≡ one_by_one batch s
  unfolding execute
  execute-one_by_one batch s = executed-one_by_one 0 batch s
