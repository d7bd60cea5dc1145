-- ===== src/Containers/Vector.antt =====
-- The specialisations of `MakeTimers` in bench/container_benchmarks.cpp for std::vector, with the size
-- of the container.
use cpp_autotime.Prelude.{true, List, [], ◌∷◌, ◌^◌}
use cpp_autotime.Benchmarks.Defs.{Benchmark}
use cpp_autotime.Containers.Recipes.{
  Timers, insert, count, find, copy, destroy, vector_of, int32, int64, float, double, string,
}

abbrev pub vec_insert_timers : List (Benchmark × Timers)
vec_insert_timers =
    (Benchmark.vec_int32_insert16, insert vector_of int32 (2 ^ 4))
    ∷ (Benchmark.vec_int32_insert256, insert vector_of int32 (2 ^ 8))
    ∷ (Benchmark.vec_int32_insert4k, insert vector_of int32 (2 ^ 12))
    ∷ (Benchmark.vec_int32_insert64k, insert vector_of int32 (2 ^ 16))
    ∷ (Benchmark.vec_int32_insert1m, insert vector_of int32 (2 ^ 20))
    ∷ (Benchmark.vec_int64_insert4k, insert vector_of int64 (2 ^ 12))
    ∷ (Benchmark.vec_float_insert4k, insert vector_of float (2 ^ 12))
    ∷ (Benchmark.vec_double_insert4k, insert vector_of double (2 ^ 12))
    ∷ (Benchmark.vec_string_insert4k, insert vector_of string (2 ^ 12))
    ∷ []

abbrev pub vec_count_timers : List (Benchmark × Timers)
vec_count_timers =
    (Benchmark.vec_int32_iterate16, count vector_of int32 (2 ^ 4))
    ∷ (Benchmark.vec_int32_iterate256, count vector_of int32 (2 ^ 8))
    ∷ (Benchmark.vec_int32_iterate4k, count vector_of int32 (2 ^ 12))
    ∷ (Benchmark.vec_int32_iterate64k, count vector_of int32 (2 ^ 16))
    ∷ (Benchmark.vec_int32_iterate1m, count vector_of int32 (2 ^ 20))
    ∷ (Benchmark.vec_int64_iterate64k, count vector_of int64 (2 ^ 16))
    ∷ (Benchmark.vec_float_iterate64k, count vector_of float (2 ^ 16))
    ∷ (Benchmark.vec_double_iterate64k, count vector_of double (2 ^ 16))
    ∷ (Benchmark.vec_string_iterate64k, count vector_of string (2 ^ 16))
    ∷ []

abbrev pub vec_find_timers : List (Benchmark × Timers)
vec_find_timers =
    (Benchmark.vec_int32_find1, find vector_of int32 true (2 ^ 0))
    ∷ (Benchmark.vec_int32_find16, find vector_of int32 true (2 ^ 4))
    ∷ (Benchmark.vec_int32_find256, find vector_of int32 true (2 ^ 8))
    ∷ (Benchmark.vec_int32_find4k, find vector_of int32 true (2 ^ 12))
    ∷ (Benchmark.vec_int32_find64k, find vector_of int32 true (2 ^ 16))
    ∷ (Benchmark.vec_int32_find1m, find vector_of int32 true (2 ^ 20))
    ∷ (Benchmark.vec_int64_find64k, find vector_of int64 true (2 ^ 16))
    ∷ (Benchmark.vec_float_find64k, find vector_of float true (2 ^ 16))
    ∷ (Benchmark.vec_double_find64k, find vector_of double true (2 ^ 16))
    ∷ (Benchmark.vec_string_find64k, find vector_of string true (2 ^ 16))
    ∷ []

abbrev pub vec_copy_timers : List (Benchmark × Timers)
vec_copy_timers =
    (Benchmark.vec_int32_copy4k, copy vector_of int32 (2 ^ 12))
    ∷ (Benchmark.vec_int32_copy64k, copy vector_of int32 (2 ^ 16))
    ∷ (Benchmark.vec_int32_copy1m, copy vector_of int32 (2 ^ 20))
    ∷ (Benchmark.vec_int64_copy64k, copy vector_of int64 (2 ^ 16))
    ∷ (Benchmark.vec_float_copy64k, copy vector_of float (2 ^ 16))
    ∷ (Benchmark.vec_double_copy64k, copy vector_of double (2 ^ 16))
    ∷ (Benchmark.vec_string_copy64k, copy vector_of string (2 ^ 16))
    ∷ []

abbrev pub vec_destroy_timers : List (Benchmark × Timers)
vec_destroy_timers =
    (Benchmark.vec_int32_destroy64k, destroy vector_of int32 (2 ^ 16))
    ∷ (Benchmark.vec_int32_destroy1m, destroy vector_of int32 (2 ^ 20))
    ∷ (Benchmark.vec_int64_destroy64k, destroy vector_of int64 (2 ^ 16))
    ∷ (Benchmark.vec_float_destroy64k, destroy vector_of float (2 ^ 16))
    ∷ (Benchmark.vec_double_destroy64k, destroy vector_of double (2 ^ 16))
    ∷ (Benchmark.vec_string_destroy64k, destroy vector_of string (2 ^ 16))
    ∷ []
