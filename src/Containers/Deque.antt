-- ===== src/Containers/Deque.antt =====
-- The specialisations of `MakeTimers` in bench/container_benchmarks.cpp for std::deque, with the size
-- of the container.
use cpp_autotime.Prelude.{true, List, [], ◌∷◌, ◌^◌}
use cpp_autotime.Benchmarks.Defs.{Benchmark}
use cpp_autotime.Containers.Recipes.{
  Timers, insert, count, find, copy, destroy, deque_of, int32, int64, float, double, string,
}

abbrev pub deque_insert_timers : List (Benchmark × Timers)
deque_insert_timers =
    (Benchmark.deque_int32_insert16, insert deque_of int32 (2 ^ 4))
    ∷ (Benchmark.deque_int32_insert256, insert deque_of int32 (2 ^ 8))
    ∷ (Benchmark.deque_int32_insert4k, insert deque_of int32 (2 ^ 12))
    ∷ (Benchmark.deque_int32_insert64k, insert deque_of int32 (2 ^ 16))
    ∷ (Benchmark.deque_int32_insert1m, insert deque_of int32 (2 ^ 20))
    ∷ (Benchmark.deque_int64_insert4k, insert deque_of int64 (2 ^ 12))
    ∷ (Benchmark.deque_float_insert4k, insert deque_of float (2 ^ 12))
    ∷ (Benchmark.deque_double_insert4k, insert deque_of double (2 ^ 12))
    ∷ (Benchmark.deque_string_insert4k, insert deque_of string (2 ^ 12))
    ∷ []

abbrev pub deque_count_timers : List (Benchmark × Timers)
deque_count_timers =
    (Benchmark.deque_int32_iterate16, count deque_of int32 (2 ^ 4))
    ∷ (Benchmark.deque_int32_iterate256, count deque_of int32 (2 ^ 8))
    ∷ (Benchmark.deque_int32_iterate4k, count deque_of int32 (2 ^ 12))
    ∷ (Benchmark.deque_int32_iterate64k, count deque_of int32 (2 ^ 16))
    ∷ (Benchmark.deque_int32_iterate1m, count deque_of int32 (2 ^ 20))
    ∷ (Benchmark.deque_int64_iterate64k, count deque_of int64 (2 ^ 16))
    ∷ (Benchmark.deque_float_iterate64k, count deque_of float (2 ^ 16))
    ∷ (Benchmark.deque_double_iterate64k, count deque_of double (2 ^ 16))
    ∷ (Benchmark.deque_string_iterate64k, count deque_of string (2 ^ 16))
    ∷ []

abbrev pub deque_find_timers : List (Benchmark × Timers)
deque_find_timers =
    (Benchmark.deque_int32_find1, find deque_of int32 true (2 ^ 0))
    ∷ (Benchmark.deque_int32_find16, find deque_of int32 true (2 ^ 4))
    ∷ (Benchmark.deque_int32_find256, find deque_of int32 true (2 ^ 8))
    ∷ (Benchmark.deque_int32_find4k, find deque_of int32 true (2 ^ 12))
    ∷ (Benchmark.deque_int32_find64k, find deque_of int32 true (2 ^ 16))
    ∷ (Benchmark.deque_int32_find1m, find deque_of int32 true (2 ^ 20))
    ∷ (Benchmark.deque_int64_find64k, find deque_of int64 true (2 ^ 16))
    ∷ (Benchmark.deque_float_find64k, find deque_of float true (2 ^ 16))
    ∷ (Benchmark.deque_double_find64k, find deque_of double true (2 ^ 16))
    ∷ (Benchmark.deque_string_find64k, find deque_of string true (2 ^ 16))
    ∷ []

abbrev pub deque_copy_timers : List (Benchmark × Timers)
deque_copy_timers =
    (Benchmark.deque_int32_copy16, copy deque_of int32 (2 ^ 4))
    ∷ (Benchmark.deque_int32_copy256, copy deque_of int32 (2 ^ 8))
    ∷ (Benchmark.deque_int32_copy4k, copy deque_of int32 (2 ^ 12))
    ∷ (Benchmark.deque_int32_copy64k, copy deque_of int32 (2 ^ 16))
    ∷ (Benchmark.deque_int32_copy1m, copy deque_of int32 (2 ^ 20))
    ∷ (Benchmark.deque_int64_copy64k, copy deque_of int64 (2 ^ 16))
    ∷ (Benchmark.deque_float_copy64k, copy deque_of float (2 ^ 16))
    ∷ (Benchmark.deque_double_copy64k, copy deque_of double (2 ^ 16))
    ∷ (Benchmark.deque_string_copy64k, copy deque_of string (2 ^ 16))
    ∷ []

abbrev pub deque_destroy_timers : List (Benchmark × Timers)
deque_destroy_timers =
    (Benchmark.deque_int32_destroy16, destroy deque_of int32 (2 ^ 4))
    ∷ (Benchmark.deque_int32_destroy256, destroy deque_of int32 (2 ^ 8))
    ∷ (Benchmark.deque_int32_destroy4k, destroy deque_of int32 (2 ^ 12))
    ∷ (Benchmark.deque_int32_destroy64k, destroy deque_of int32 (2 ^ 16))
    ∷ (Benchmark.deque_int32_destroy1m, destroy deque_of int32 (2 ^ 20))
    ∷ (Benchmark.deque_int64_destroy64k, destroy deque_of int64 (2 ^ 16))
    ∷ (Benchmark.deque_float_destroy64k, destroy deque_of float (2 ^ 16))
    ∷ (Benchmark.deque_double_destroy64k, destroy deque_of double (2 ^ 16))
    ∷ (Benchmark.deque_string_destroy64k, destroy deque_of string (2 ^ 16))
    ∷ []
