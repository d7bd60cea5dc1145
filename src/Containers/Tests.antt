-- ===== src/Containers/Tests.antt =====
-- The witnesses of the theorems on the container benchmarks.
use mathlib.Core.List.{Perm}
use mathlib.Core.List.Perm
use cpp_autotime.Prelude.{
  ℕ, ◌+◌, ◌*◌, ◌%◌, ◌≡◌, refl, true, some, List, [], ◌∷◌, ◌==◌, arith, ==_iff,
}
use cpp_autotime.Prelude.Int.{ℤ}
use cpp_autotime.Benchmarks.Defs.{Benchmark}
use cpp_autotime.Containers.{specialisation}
use cpp_autotime.Containers.Recipes.{set_of}
use cpp_autotime.Containers.Names.{Matches, specialisation-Matches}
use cpp_autotime.Containers.Generic.{make_data, find_result}
use cpp_autotime.Containers.Lookup.{make_data-Perm, find_result-counts}

specialisation-Matches_example :
    Matches Benchmark.deque_int32_find1 (specialisation Benchmark.deque_int32_find1)
specialisation-Matches_example = specialisation-Matches Benchmark.deque_int32_find1

abbrev pairs_kept : List (ℤ × ℕ) → List (ℤ × ℕ)
pairs_kept pairs = pairs

abbrev lcg : ℕ → ℕ × ℕ
lcg g = (g, (g * 5 + 3) % 16)

make_data-Perm_example : Perm (make_data lcg (λ i. i) pairs_kept 1 3) (0 ∷ 1 ∷ 2 ∷ [])
make_data-Perm_example = make_data-Perm lcg (λ i. i) pairs_kept 1 3 (λ pairs. Perm.refl pairs)

abbrev kept : List ℕ → List ℕ
kept elements = elements

find_result-counts_example :
    find_result (λ a b. a == b) set_of true kept (5 ∷ 7 ∷ 5 ∷ []) 10 ≡ some 10
find_result-counts_example =
    find_result-counts (λ a b. a == b) (λ a. (==_iff a a).1 refl) set_of true kept (5 ∷ 7 ∷ 5 ∷ [])
      10 (λ xs. Perm.refl xs) (omega arith) (omega arith) (omega arith)
