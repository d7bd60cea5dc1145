-- ===== src/Containers/Lists.antt =====
-- The specialisations of `MakeTimers` in bench/container_benchmarks.cpp for std::list, with the size
-- of the container.
use cpp_autotime.Prelude.{true, List, [], ◌∷◌, ◌^◌}
use cpp_autotime.Benchmarks.Defs.{Benchmark}
use cpp_autotime.Containers.Recipes.{
  Timers, insert, count, find, copy, destroy, list_of, int32, int64, float, double, string,
}

abbrev pub list_insert_timers : List (Benchmark × Timers)
list_insert_timers =
    (Benchmark.list_int32_insert16, insert list_of int32 (2 ^ 4))
    ∷ (Benchmark.list_int32_insert256, insert list_of int32 (2 ^ 8))
    ∷ (Benchmark.list_int32_insert4k, insert list_of int32 (2 ^ 12))
    ∷ (Benchmark.list_int32_insert64k, insert list_of int32 (2 ^ 16))
    ∷ (Benchmark.list_int32_insert1m, insert list_of int32 (2 ^ 20))
    ∷ (Benchmark.list_int64_insert4k, insert list_of int64 (2 ^ 12))
    ∷ (Benchmark.list_float_insert4k, insert list_of float (2 ^ 12))
    ∷ (Benchmark.list_double_insert4k, insert list_of double (2 ^ 12))
    ∷ (Benchmark.list_string_insert4k, insert list_of string (2 ^ 12))
    ∷ []

abbrev pub list_count_timers : List (Benchmark × Timers)
list_count_timers =
    (Benchmark.list_int32_iterate16, count list_of int32 (2 ^ 4))
    ∷ (Benchmark.list_int32_iterate256, count list_of int32 (2 ^ 8))
    ∷ (Benchmark.list_int32_iterate4k, count list_of int32 (2 ^ 12))
    ∷ (Benchmark.list_int32_iterate64k, count list_of int32 (2 ^ 16))
    ∷ (Benchmark.list_int32_iterate1m, count list_of int32 (2 ^ 20))
    ∷ (Benchmark.list_int64_iterate64k, count list_of int64 (2 ^ 16))
    ∷ (Benchmark.list_float_iterate64k, count list_of float (2 ^ 16))
    ∷ (Benchmark.list_double_iterate64k, count list_of double (2 ^ 16))
    ∷ (Benchmark.list_string_iterate64k, count list_of string (2 ^ 16))
    ∷ []

abbrev pub list_find_timers : List (Benchmark × Timers)
list_find_timers =
    (Benchmark.list_int32_find1, find list_of int32 true (2 ^ 0))
    ∷ (Benchmark.list_int32_find16, find list_of int32 true (2 ^ 4))
    ∷ (Benchmark.list_int32_find256, find list_of int32 true (2 ^ 8))
    ∷ (Benchmark.list_int32_find4k, find list_of int32 true (2 ^ 12))
    ∷ (Benchmark.list_int32_find64k, find list_of int32 true (2 ^ 16))
    ∷ (Benchmark.list_int32_find1m, find list_of int32 true (2 ^ 20))
    ∷ (Benchmark.list_int64_find64k, find list_of int64 true (2 ^ 16))
    ∷ (Benchmark.list_float_find64k, find list_of float true (2 ^ 16))
    ∷ (Benchmark.list_double_find64k, find list_of double true (2 ^ 16))
    ∷ (Benchmark.list_string_find64k, find list_of string true (2 ^ 16))
    ∷ []

abbrev pub list_copy_timers : List (Benchmark × Timers)
list_copy_timers =
    (Benchmark.list_int32_copy16, copy list_of int32 (2 ^ 4))
    ∷ (Benchmark.list_int32_copy256, copy list_of int32 (2 ^ 8))
    ∷ (Benchmark.list_int32_copy4k, copy list_of int32 (2 ^ 12))
    ∷ (Benchmark.list_int32_copy64k, copy list_of int32 (2 ^ 16))
    ∷ (Benchmark.list_int32_copy1m, copy list_of int32 (2 ^ 20))
    ∷ (Benchmark.list_int64_copy64k, copy list_of int64 (2 ^ 16))
    ∷ (Benchmark.list_float_copy64k, copy list_of float (2 ^ 16))
    ∷ (Benchmark.list_double_copy64k, copy list_of double (2 ^ 16))
    ∷ (Benchmark.list_string_copy64k, copy list_of string (2 ^ 16))
    ∷ []

abbrev pub list_destroy_timers : List (Benchmark × Timers)
list_destroy_timers =
    (Benchmark.list_int32_destroy16, destroy list_of int32 (2 ^ 4))
    ∷ (Benchmark.list_int32_destroy256, destroy list_of int32 (2 ^ 8))
    ∷ (Benchmark.list_int32_destroy4k, destroy list_of int32 (2 ^ 12))
    ∷ (Benchmark.list_int32_destroy64k, destroy list_of int32 (2 ^ 16))
    ∷ (Benchmark.list_int32_destroy1m, destroy list_of int32 (2 ^ 20))
    ∷ (Benchmark.list_int64_destroy64k, destroy list_of int64 (2 ^ 16))
    ∷ (Benchmark.list_float_destroy64k, destroy list_of float (2 ^ 16))
    ∷ (Benchmark.list_double_destroy64k, destroy list_of double (2 ^ 16))
    ∷ (Benchmark.list_string_destroy64k, destroy list_of string (2 ^ 16))
    ∷ []
