-- ===== src/Examples/QuorumFiles.antt =====
-- A quorum state file whose saves fail now and then, written as five numbers.
use xraft.Prelude.{ℕ, zero, suc, ◌≡◌, refl, Option, none, some, [], ◌∷◌, true}
use xraft.Prelude.Exec.{ok}
use xraft.Types.{Bytes, QuorumState}
use xraft.Storage.QuorumFile.{Json, Fault, QuorumStateFile, open_file, save, load}
use xraft.Storage.QuorumFile.Histories.{
  saved, restarted, last_saved, run, IsFaithful, is_ok, run_lem,
}

abbrev number : Option ℕ → ℕ
number none = 0
number (some n) = suc n

abbrev optional : ℕ → Option ℕ
optional zero = none
optional (suc n) = some n

optional-number : (o : Option ℕ) → optional (number o) ≡ o
optional-number none = refl
optional-number (some n) = refl

abbrev parse : Bytes → Option QuorumState
parse (t ∷ v ∷ l ∷ e ∷ c ∷ []) = some (record {
  current_term = t;
  voted_for = optional v;
  leader_id = optional l;
  leader_epoch = e;
  cluster_id = c;
})
parse _ = none

abbrev numbers : Json
numbers = record {
  to_string_pretty = λ s. some (
      s.current_term
      ∷ number s.voted_for
      ∷ number s.leader_id
      ∷ s.leader_epoch
      ∷ s.cluster_id
      ∷ []);
  from_str = parse;
}

numbers-IsFaithful : IsFaithful numbers
numbers-IsFaithful s = (_, refl, rw (optional-number s.voted_for, optional-number s.leader_id) refl)

abbrev voted : ℕ → QuorumState
voted candidate = record {
  current_term = 4;
  voted_for = some candidate;
  leader_id = none;
  leader_epoch = 3;
  cluster_id = 7;
}

abbrev new_file : QuorumStateFile
new_file = record { state_file = none; temp = none; cached = none }

-- a torn temporary file is of no consequence
run_lem_example :
    (q : QuorumStateFile) × (run numbers
        (saved none (voted 2)
          ∷ saved (some (Fault.short_write 3)) (voted 9)
          ∷ restarted
          ∷ saved (some Fault.no_rename) (voted 8)
          ∷ restarted
          ∷ [])
        new_file
      ≡ ok q)
    × (load q ≡ ok (some (voted 2)))
    × (is_ok (save numbers none (voted 5) q).0 ≡ true)
unfolding open_file last_saved
run_lem_example =
    run_lem numbers numbers-IsFaithful none none new_file refl
      (saved none (voted 2)
        ∷ saved (some (Fault.short_write 3)) (voted 9)
        ∷ restarted
        ∷ saved (some Fault.no_rename) (voted 8)
        ∷ restarted
        ∷ [])
      none (voted 5)
