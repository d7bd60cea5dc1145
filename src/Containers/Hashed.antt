-- ===== src/Containers/Hashed.antt =====
-- The specialisations of `MakeTimers` in bench/container_benchmarks.cpp for std::unordered_set, with the size
-- of the container.
use cpp_autotime.Prelude.{true, List, [], ◌∷◌, ◌^◌}
use cpp_autotime.Benchmarks.Defs.{Benchmark}
use cpp_autotime.Containers.Recipes.{
  Timers, insert, count, find, copy, destroy, unordered_set_of, int32, int64, float, double, string,
}

abbrev pub hashset_insert_timers : List (Benchmark × Timers)
hashset_insert_timers =
    (Benchmark.hashset_int32_insert16, insert unordered_set_of int32 (2 ^ 4))
    ∷ (Benchmark.hashset_int32_insert256, insert unordered_set_of int32 (2 ^ 8))
    ∷ (Benchmark.hashset_int32_insert4k, insert unordered_set_of int32 (2 ^ 12))
    ∷ (Benchmark.hashset_int32_insert64k, insert unordered_set_of int32 (2 ^ 16))
    ∷ (Benchmark.hashset_int32_insert1m, insert unordered_set_of int32 (2 ^ 20))
    ∷ (Benchmark.hashset_int64_insert4k, insert unordered_set_of int64 (2 ^ 12))
    ∷ (Benchmark.hashset_float_insert4k, insert unordered_set_of float (2 ^ 12))
    ∷ (Benchmark.hashset_double_insert4k, insert unordered_set_of double (2 ^ 12))
    ∷ (Benchmark.hashset_string_insert4k, insert unordered_set_of string (2 ^ 12))
    ∷ []

abbrev pub hashset_count_timers : List (Benchmark × Timers)
hashset_count_timers =
    (Benchmark.hashset_int32_iterate16, count unordered_set_of int32 (2 ^ 4))
    ∷ (Benchmark.hashset_int32_iterate256, count unordered_set_of int32 (2 ^ 8))
    ∷ (Benchmark.hashset_int32_iterate4k, count unordered_set_of int32 (2 ^ 12))
    ∷ (Benchmark.hashset_int32_iterate64k, count unordered_set_of int32 (2 ^ 16))
    ∷ (Benchmark.hashset_int32_iterate1m, count unordered_set_of int32 (2 ^ 20))
    ∷ (Benchmark.hashset_int64_iterate64k, count unordered_set_of int64 (2 ^ 16))
    ∷ (Benchmark.hashset_float_iterate64k, count unordered_set_of float (2 ^ 16))
    ∷ (Benchmark.hashset_double_iterate64k, count unordered_set_of double (2 ^ 16))
    ∷ (Benchmark.hashset_string_iterate64k, count unordered_set_of string (2 ^ 16))
    ∷ []

abbrev pub hashset_find_timers : List (Benchmark × Timers)
hashset_find_timers =
    (Benchmark.hashset_int32_find1, find unordered_set_of int32 true (2 ^ 0))
    ∷ (Benchmark.hashset_int32_find16, find unordered_set_of int32 true (2 ^ 4))
    ∷ (Benchmark.hashset_int32_find256, find unordered_set_of int32 true (2 ^ 8))
    ∷ (Benchmark.hashset_int32_find4k, find unordered_set_of int32 true (2 ^ 12))
    ∷ (Benchmark.hashset_int32_find64k, find unordered_set_of int32 true (2 ^ 16))
    ∷ (Benchmark.hashset_int32_find1m, find unordered_set_of int32 true (2 ^ 20))
    ∷ (Benchmark.hashset_int64_find64k, find unordered_set_of int64 true (2 ^ 16))
    ∷ (Benchmark.hashset_float_find64k, find unordered_set_of float true (2 ^ 16))
    ∷ (Benchmark.hashset_double_find64k, find unordered_set_of double true (2 ^ 16))
    ∷ (Benchmark.hashset_string_find64k, find unordered_set_of string true (2 ^ 16))
    ∷ []

abbrev pub hashset_copy_timers : List (Benchmark × Timers)
hashset_copy_timers =
    (Benchmark.hashset_int32_copy16, copy unordered_set_of int32 (2 ^ 4))
    ∷ (Benchmark.hashset_int32_copy256, copy unordered_set_of int32 (2 ^ 8))
    ∷ (Benchmark.hashset_int32_copy4k, copy unordered_set_of int32 (2 ^ 12))
    ∷ (Benchmark.hashset_int32_copy64k, copy unordered_set_of int32 (2 ^ 16))
    ∷ (Benchmark.hashset_int32_copy1m, copy unordered_set_of int32 (2 ^ 20))
    ∷ (Benchmark.hashset_int64_copy64k, copy unordered_set_of int64 (2 ^ 16))
    ∷ (Benchmark.hashset_float_copy64k, copy unordered_set_of float (2 ^ 16))
    ∷ (Benchmark.hashset_double_copy64k, copy unordered_set_of double (2 ^ 16))
    ∷ (Benchmark.hashset_string_copy64k, copy unordered_set_of string (2 ^ 16))
    ∷ []

abbrev pub hashset_destroy_timers : List (Benchmark × Timers)
hashset_destroy_timers =
    (Benchmark.hashset_int32_destroy16, destroy unordered_set_of int32 (2 ^ 4))
    ∷ (Benchmark.hashset_int32_destroy256, destroy unordered_set_of int32 (2 ^ 8))
    ∷ (Benchmark.hashset_int32_destroy4k, destroy unordered_set_of int32 (2 ^ 12))
    ∷ (Benchmark.hashset_int32_destroy64k, destroy unordered_set_of int32 (2 ^ 16))
    ∷ (Benchmark.hashset_int32_destroy1m, destroy unordered_set_of int32 (2 ^ 20))
    ∷ (Benchmark.hashset_int64_destroy64k, destroy unordered_set_of int64 (2 ^ 16))
    ∷ (Benchmark.hashset_float_destroy64k, destroy unordered_set_of float (2 ^ 16))
    ∷ (Benchmark.hashset_double_destroy64k, destroy unordered_set_of double (2 ^ 16))
    ∷ (Benchmark.hashset_string_destroy64k, destroy unordered_set_of string (2 ^ 16))
    ∷ []
