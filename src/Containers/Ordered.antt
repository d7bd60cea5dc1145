-- ===== src/Containers/Ordered.antt =====
-- The specialisations of `MakeTimers` in bench/container_benchmarks.cpp for std::set, with the size
-- of the container.
use cpp_autotime.Prelude.{false, List, [], ◌∷◌, ◌^◌}
use cpp_autotime.Benchmarks.Defs.{Benchmark}
use cpp_autotime.Containers.Recipes.{
  Timers, insert, count, find, copy, destroy, set_of, int32, int64, float, double, string,
}

abbrev pub set_insert_timers : List (Benchmark × Timers)
set_insert_timers =
    (Benchmark.set_int32_insert16, insert set_of int32 (2 ^ 4))
    ∷ (Benchmark.set_int32_insert256, insert set_of int32 (2 ^ 8))
    ∷ (Benchmark.set_int32_insert4k, insert set_of int32 (2 ^ 12))
    ∷ (Benchmark.set_int32_insert64k, insert set_of int32 (2 ^ 16))
    ∷ (Benchmark.set_int32_insert1m, insert set_of int32 (2 ^ 20))
    ∷ (Benchmark.set_int64_insert4k, insert set_of int64 (2 ^ 12))
    ∷ (Benchmark.set_float_insert4k, insert set_of float (2 ^ 12))
    ∷ (Benchmark.set_double_insert4k, insert set_of double (2 ^ 12))
    ∷ (Benchmark.set_string_insert4k, insert set_of string (2 ^ 12))
    ∷ []

abbrev pub set_count_timers : List (Benchmark × Timers)
set_count_timers =
    (Benchmark.set_int32_iterate16, count set_of int32 (2 ^ 4))
    ∷ (Benchmark.set_int32_iterate256, count set_of int32 (2 ^ 8))
    ∷ (Benchmark.set_int32_iterate4k, count set_of int32 (2 ^ 12))
    ∷ (Benchmark.set_int32_iterate64k, count set_of int32 (2 ^ 16))
    ∷ (Benchmark.set_int32_iterate1m, count set_of int32 (2 ^ 20))
    ∷ (Benchmark.set_int64_iterate64k, count set_of int64 (2 ^ 16))
    ∷ (Benchmark.set_float_iterate64k, count set_of float (2 ^ 16))
    ∷ (Benchmark.set_double_iterate64k, count set_of double (2 ^ 16))
    ∷ (Benchmark.set_string_iterate64k, count set_of string (2 ^ 16))
    ∷ []

abbrev pub set_find_timers : List (Benchmark × Timers)
set_find_timers =
    (Benchmark.set_int32_find1, find set_of int32 false (2 ^ 0))
    ∷ (Benchmark.set_int32_find16, find set_of int32 false (2 ^ 4))
    ∷ (Benchmark.set_int32_find256, find set_of int32 false (2 ^ 8))
    ∷ (Benchmark.set_int32_find4k, find set_of int32 false (2 ^ 12))
    ∷ (Benchmark.set_int32_find64k, find set_of int32 false (2 ^ 16))
    ∷ (Benchmark.set_int32_find1m, find set_of int32 false (2 ^ 20))
    ∷ (Benchmark.set_int64_find64k, find set_of int64 false (2 ^ 16))
    ∷ (Benchmark.set_float_find64k, find set_of float false (2 ^ 16))
    ∷ (Benchmark.set_double_find64k, find set_of double false (2 ^ 16))
    ∷ (Benchmark.set_string_find64k, find set_of string false (2 ^ 16))
    ∷ []

abbrev pub set_copy_timers : List (Benchmark × Timers)
set_copy_timers =
    (Benchmark.set_int32_copy16, copy set_of int32 (2 ^ 4))
    ∷ (Benchmark.set_int32_copy256, copy set_of int32 (2 ^ 8))
    ∷ (Benchmark.set_int32_copy4k, copy set_of int32 (2 ^ 12))
    ∷ (Benchmark.set_int32_copy64k, copy set_of int32 (2 ^ 16))
    ∷ (Benchmark.set_int32_copy1m, copy set_of int32 (2 ^ 20))
    ∷ (Benchmark.set_int64_copy64k, copy set_of int64 (2 ^ 16))
    ∷ (Benchmark.set_float_copy64k, copy set_of float (2 ^ 16))
    ∷ (Benchmark.set_double_copy64k, copy set_of double (2 ^ 16))
    ∷ (Benchmark.set_string_copy64k, copy set_of string (2 ^ 16))
    ∷ []

abbrev pub set_destroy_timers : List (Benchmark × Timers)
set_destroy_timers =
    (Benchmark.set_int32_destroy16, destroy set_of int32 (2 ^ 4))
    ∷ (Benchmark.set_int32_destroy256, destroy set_of int32 (2 ^ 8))
    ∷ (Benchmark.set_int32_destroy4k, destroy set_of int32 (2 ^ 12))
    ∷ (Benchmark.set_int32_destroy64k, destroy set_of int32 (2 ^ 16))
    ∷ (Benchmark.set_int32_destroy1m, destroy set_of int32 (2 ^ 20))
    ∷ (Benchmark.set_int64_destroy64k, destroy set_of int64 (2 ^ 16))
    ∷ (Benchmark.set_float_destroy64k, destroy set_of float (2 ^ 16))
    ∷ (Benchmark.set_double_destroy64k, destroy set_of double (2 ^ 16))
    ∷ (Benchmark.set_string_destroy64k, destroy set_of string (2 ^ 16))
    ∷ []
