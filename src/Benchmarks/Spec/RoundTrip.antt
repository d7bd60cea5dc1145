-- ===== src/Benchmarks/Spec/RoundTrip.antt =====
-- A specification that lists benchmarks.
use Prim.Native.Char.{Char}
use Prim.Native.String.{String, ◌++◌ as cat}
use text.Mathlib.Text.{◌==◌}
use cpp_autotime.Prelude.{◌≡◌, Bool, true, false, not, ◌&&◌, Option, none, some, List, [], ◌∷◌, map}
use cpp_autotime.Enums.{to_str, from_string}
use cpp_autotime.Benchmarks.Defs
use cpp_autotime.Benchmarks.Defs.{Benchmark}
use cpp_autotime.Benchmarks.Names
use cpp_autotime.Benchmarks.Category
use cpp_autotime.Benchmarks.Category.{Category}
use cpp_autotime.Benchmarks.Enum.{benchmark_enum, category_enum}
use cpp_autotime.Benchmarks.Spec.{is_comma}

abbrev pub has_no_comma : String → Bool
has_no_comma String.[] = true
has_no_comma (String.◌∷◌ c s) = not (is_comma c) && has_no_comma s

-- Each name with a comma after it.
abbrev pub join : List String → String
join [] = ""
join (name ∷ names) = cat name (String.◌∷◌ "," (join names))

abbrev is_none : Option Category → Bool
is_none none = true
is_none (some _) = false

-- A name that only a benchmark has.
abbrev is_plain : String → Bool
is_plain name =
    has_no_comma name && (not (name == "") && (not (name == "all") && is_none (from_string name)))

abbrev all_plain : List Benchmark → Bool
all_plain [] = true
all_plain (b ∷ bs) = is_plain (to_str b) && all_plain bs

-- What the code relies on of the name of a benchmark.
record IsPlain (b : Benchmark) : Type 0 where
  no_comma : has_no_comma (to_str b) ≡ true
  not_empty : (to_str b == "") ≡ false
  not_all : (to_str b == "all") ≡ false
  no_category : from_string {E = Category} (to_str b) ≡ none

names_of : List Benchmark → List String
names_of bs = map to_str bs
