-- ===== src/CpuInfo/Tests.antt =====
-- A file of two processors, and the witness of the theorem on the search in it.
use cpp_autotime.Prelude.{ℕ, ◌≡◌, refl, List, [], ◌∷◌, ◌++◌}
use cpp_autotime.CpuInfo.{found, key, matches, find_speed}
use cpp_autotime.CpuInfo.Lines.{text, find_speed-eq}

-- "processor", "cpu MHz : 800" with the last digit in the place of the number, an empty line.
abbrev two_cores : List (List ℕ)
two_cores = (key ++ 58 ∷ 55 ∷ []) ∷ [] ∷ (112 ∷ 114 ∷ []) ∷ (key ++ 9 ∷ 58 ∷ 56 ∷ []) ∷ []

second_core : find_speed 5 1 0 (text ((112 ∷ []) ∷ two_cores)) ≡ found (56 ∷ 10 ∷ [])
unfolding find_speed matches
second_core = refl

find_speed-eq_example : find_speed 5 1 0 (text ((112 ∷ []) ∷ two_cores)) ≡ found (56 ∷ 10 ∷ [])
find_speed-eq_example = find_speed-eq 1 (112 ∷ []) two_cores refl refl
