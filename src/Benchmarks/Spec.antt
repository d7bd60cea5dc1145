-- ===== src/Benchmarks/Spec.antt =====
-- `ParseSpecification` of bench/list.cpp. An offset `ofs` into `spec` is here the text from it on,
-- and `npos` the empty text or `none`.
pub mod Fields
pub mod Loop
pub mod RoundTrip
use Prim.Native.Char.{Char, code}
use Prim.Native.String.{String, [], ◌∷◌, count}
use text.Mathlib.Text.{◌==◌}
use cpp_autotime.Prelude.{
  ℕ, zero, suc, ◌+◌, Bool, true, false, Option, none, some, List, ◌==◌ as nat_eq, if◌then◌else◌,
}
use cpp_autotime.Enums.{from_string, range_of}
use cpp_autotime.Sets.{insert, insert_all, lookup}
use cpp_autotime.Benchmarks.Defs.{Benchmark}
use cpp_autotime.Benchmarks.Category.{Category}
use cpp_autotime.Benchmarks.Enum.{benchmark_enum, category_enum}
use cpp_autotime.Benchmarks.Maps.{category_benchmark_map}

-- The set, or the name of which the exception speaks. The last is not a result of the code: it
-- says that the fuel ran out.
pub data Parsed : Type 0 where
  parsed : List Benchmark → Parsed
  invalid_name : String → Parsed
  out_of_fuel : Parsed

unfoldable pub is_comma : Char → Bool
is_comma c = nat_eq (code c) b','

-- `spec.find_first_not_of( ',', ofs )`
unfoldable pub skip_commas : String → String
skip_commas [] = []
skip_commas (c ∷ s) = let rest = skip_commas s in if is_comma c then rest else c ∷ s

-- `spec.find_first_of( ',', begin )`
unfoldable pub find_comma : String → Option String
find_comma [] = none
find_comma (c ∷ s) = let rest = find_comma s in if is_comma c then some (c ∷ s) else rest

-- `spec.substr( begin, len )`
unfoldable pub until_comma : String → String
until_comma [] = []
until_comma (c ∷ s) = let rest = until_comma s in if is_comma c then [] else c ∷ rest

-- The benchmarks of `category_iter`, where it is not `map.end()`.
unfoldable pub insert_found : Option (List Benchmark) → List Benchmark → List Benchmark
insert_found none result = result
insert_found (some benchmarks) result = insert_all benchmarks result

-- The last two tests on `name`, where the second index is not searched unless the first has no
-- such name; `none` is the exception.
unfoldable pub select_found :
    Option Category → Option Benchmark → List Benchmark → Option (List Benchmark)
select_found (some cat) _ result = some (insert_found (lookup cat category_benchmark_map) result)
select_found none (some bench) result = some (insert bench result)
select_found none none result = none

-- The chain of tests on `name`
unfoldable pub select : String → List Benchmark → Option (List Benchmark)
select name result =
    if name == "all"
    then some (insert_all range_of result)
    else select_found (from_string name) (from_string name) result

-- The loop, where `rest` is the text from `ofs` on.
unfoldable pub parse_from : ℕ → String → List Benchmark → Parsed
parse_from zero rest result = out_of_fuel
parse_from (suc fuel) rest result =
    let begin = skip_commas rest in
    let name = until_comma begin in
    if begin == "" then parsed result else elim (select name result) [
      | none ↦ invalid_name name
      | some selected ↦ elim (find_comma begin) [
        | none ↦ parsed selected
        | some ofs ↦ parse_from fuel ofs selected
      ]
    ]

-- `ParseSpecification`
unfoldable pub parse_specification : String → Parsed
parse_specification spec = parse_from (count spec + 1) spec List.[]

-- All of the above, for the `unfolding` line of a test.
unfoldable pub parse_ops : Unit {0}
unfolding is_comma skip_commas find_comma until_comma insert_found select_found select parse_from
    category_benchmark_map from_string range_of insert insert_all lookup
parse_ops = tt
