-- ===== src/Benchmarks/Tests.antt =====
-- Runs of bench/list.cpp, and inputs at which the theorems about it apply.
use cpp_autotime.Prelude.{◌≡◌, ◌≢◌, ◌↔◌, refl, some, List, [], ◌∷◌}
use cpp_autotime.Enums.{to_str, from_string, list}
use cpp_autotime.Enums.Laws.{Elem}
use cpp_autotime.Sets.{lookup}
use cpp_autotime.Benchmarks.Defs.{Benchmark}
use cpp_autotime.Benchmarks.Category.{Category}
use cpp_autotime.Benchmarks.Enum.{
  benchmark_enum, category_enum, list_mode_enum, ListMode, mode_value, mode_to_cstr,
}
use cpp_autotime.Benchmarks.RoundTrip.{benchmark_from_to}
use cpp_autotime.Benchmarks.Maps.{category_benchmark_map, benchmark_category_map, categories_of}
use cpp_autotime.Benchmarks.Groups.{categories_of_lem}
use cpp_autotime.Benchmarks.Membership.{categories_with, one_category}
use cpp_autotime.Benchmarks.Spec.{parse_specification}
use cpp_autotime.Benchmarks.Spec.Fields.{fields, nonempty}
use cpp_autotime.Benchmarks.Spec.Loop.{select_all, parse_specification_lem}

the_modes : list ListMode ", " ≡ "benchmarks, categories, joint"
unfolding list mode_value mode_to_cstr
the_modes = refl

benchmark_from_to_example :
    (to_str Benchmark.mutex_trylock ≢ "")
    × (from_string (to_str Benchmark.mutex_trylock) ≡ some Benchmark.mutex_trylock)
benchmark_from_to_example = benchmark_from_to Benchmark.mutex_trylock

one_category_example :
    (c : Category) × (categories_with Benchmark.chmod category_benchmark_map ≡ c ∷ [])
    × (lookup Benchmark.chmod benchmark_category_map ≡ some c)
one_category_example = one_category Benchmark.chmod

parse_specification_example :
    parse_specification ",mutex,,all" ≡ select_all (nonempty (fields ",mutex,,all")) []
parse_specification_example = parse_specification_lem ",mutex,,all"

-- Two benchmarks, against their order.
abbrev two : List Benchmark
two = Benchmark.mutex_trylock ∷ Benchmark.asio_run ∷ []

categories_of_example : Elem Category.mutex (categories_of two) ↔ (
    (b : Benchmark) × Elem b two × (categories_with b category_benchmark_map ≡ Category.mutex ∷ []))
categories_of_example = categories_of_lem two Category.mutex
