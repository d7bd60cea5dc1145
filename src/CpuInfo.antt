-- ===== src/CpuInfo.antt =====
-- The search of `GetCoreClockTick` (lib/os.cpp) for the clock speed of a core in /proc/cpuinfo. A
-- stream is the bytes that are left and whether it is good; what `>>` makes of the text after the
-- colon is the C++ library's.
pub mod Lines
mod Tests
use cpp_autotime.Prelude.{
  ℕ, zero, suc, ◌+◌, Bool, true, false, ◌==◌, Option, none, some, List, [], ◌∷◌, if◌then◌else◌,
}

-- `ignore` up to and with a byte.
abbrev pub ignore_until : ℕ → List ℕ → List ℕ
ignore_until delim [] = []
ignore_until delim (x ∷ xs) = if x == delim then xs else ignore_until delim xs

abbrev pub newline : ℕ
newline = 10

abbrev pub colon : ℕ
colon = 58

-- "cpu MHz"
abbrev pub key : List ℕ
key = 99 ∷ 112 ∷ 117 ∷ 32 ∷ 77 ∷ 72 ∷ 122 ∷ []

-- `Matches` on a good stream: its result, the bytes left, and whether the stream is good. `get`
-- passes over the byte that differs.
unfoldable pub matches : List ℕ → List ℕ → Bool × List ℕ × Bool
matches [] xs = (true, xs, true)
matches (c ∷ expected) [] = (false, [], false)
matches (c ∷ expected) (x ∷ xs) = if x == c then matches expected xs else (false, xs, true)

-- What a search comes to: the text after the colon, that there is no such core, or no end in time.
pub data Found : Type 0 where
  found : List ℕ → Found
  missing unfinished : Found

-- What a round of the loop makes of `Matches`, for the next rounds with a count and the bytes left.
abbrev pub after_match : ℕ → ℕ → Bool × List ℕ × Bool → (ℕ → List ℕ → Found) → Found
after_match core_id count (true, xs, good) next =
    if count == core_id then found (ignore_until colon xs) else next (count + 1) xs
after_match core_id count (false, xs, true) next = next count xs
after_match core_id count (false, xs, false) next = missing

-- The loop of `GetCoreClockTick`, over a good stream.
unfoldable pub find_speed : ℕ → ℕ → ℕ → List ℕ → Found
find_speed zero core_id count xs = unfinished
find_speed (suc fuel) core_id count xs =
    after_match core_id count (matches key (ignore_until newline xs)) (find_speed fuel core_id)
