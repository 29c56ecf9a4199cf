-- ===== src/Prelude/Sets.antt =====
-- `HashSet<u64>` as a list without repetitions.
use Prim.Native.Nat.{ℕ}
use mathlib.Core.Path.{◌≡◌}
use mathlib.Core.Bool.{Bool, false}
use mathlib.Core.List.{List, [], ◌∷◌}
use xraft.Prelude.Tests.{◌==◌, if◌then◌else◌}
use xraft.Prelude.Lists.{any}

abbrev pub contains : ℕ → List ℕ → Bool
contains a xs = any (λ x. x == a) xs

abbrev pub insert : ℕ → List ℕ → List ℕ
insert a xs = if contains a xs then xs else a ∷ xs

abbrev pub IsDistinct : List ℕ → Type 0
IsDistinct [] = Unit
IsDistinct (x ∷ xs) = (contains x xs ≡ false) × IsDistinct xs
