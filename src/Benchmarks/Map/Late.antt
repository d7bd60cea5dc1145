-- ===== src/Benchmarks/Map/Late.antt =====
-- The initializer of `CategoryBenchmarkMap` in bench/list.cpp, entries std_set to work.
use cpp_autotime.Prelude.{List, [], ◌∷◌}
use cpp_autotime.Benchmarks.Defs.{Benchmark}
use cpp_autotime.Benchmarks.Category.{Category}

abbrev pub std_set_entry : Category × List Benchmark
std_set_entry = (
  Category.std_set,
  Benchmark.set_int32_copy16 ∷ Benchmark.set_int32_copy256 ∷ Benchmark.set_int32_copy4k
      ∷ Benchmark.set_int32_copy64k ∷ Benchmark.set_int32_copy1m ∷ Benchmark.set_int32_destroy16
      ∷ Benchmark.set_int32_destroy256 ∷ Benchmark.set_int32_destroy4k
      ∷ Benchmark.set_int32_destroy64k ∷ Benchmark.set_int32_destroy1m ∷ Benchmark.set_int32_find1
      ∷ Benchmark.set_int32_find16 ∷ Benchmark.set_int32_find256 ∷ Benchmark.set_int32_find4k
      ∷ Benchmark.set_int32_find64k ∷ Benchmark.set_int32_find1m ∷ Benchmark.set_int32_insert16
      ∷ Benchmark.set_int32_insert256 ∷ Benchmark.set_int32_insert4k ∷ Benchmark.set_int32_insert64k
      ∷ Benchmark.set_int32_insert1m ∷ Benchmark.set_int32_iterate16
      ∷ Benchmark.set_int32_iterate256 ∷ Benchmark.set_int32_iterate4k
      ∷ Benchmark.set_int32_iterate64k ∷ Benchmark.set_int32_iterate1m ∷ Benchmark.set_int64_copy64k
      ∷ Benchmark.set_int64_destroy64k ∷ Benchmark.set_int64_find64k ∷ Benchmark.set_int64_insert4k
      ∷ Benchmark.set_int64_iterate64k ∷ Benchmark.set_float_copy64k
      ∷ Benchmark.set_float_destroy64k ∷ Benchmark.set_float_find64k ∷ Benchmark.set_float_insert4k
      ∷ Benchmark.set_float_iterate64k ∷ Benchmark.set_double_copy64k
      ∷ Benchmark.set_double_destroy64k ∷ Benchmark.set_double_find64k
      ∷ Benchmark.set_double_insert4k ∷ Benchmark.set_double_iterate64k
      ∷ Benchmark.set_string_copy64k ∷ Benchmark.set_string_destroy64k
      ∷ Benchmark.set_string_find64k ∷ Benchmark.set_string_insert4k
      ∷ Benchmark.set_string_iterate64k ∷ [],
)

abbrev pub std_vector_entry : Category × List Benchmark
std_vector_entry = (
  Category.std_vector,
  Benchmark.vec_int32_copy4k ∷ Benchmark.vec_int32_copy64k ∷ Benchmark.vec_int32_copy1m
      ∷ Benchmark.vec_int32_destroy64k ∷ Benchmark.vec_int32_destroy1m ∷ Benchmark.vec_int32_find1
      ∷ Benchmark.vec_int32_find16 ∷ Benchmark.vec_int32_find256 ∷ Benchmark.vec_int32_find4k
      ∷ Benchmark.vec_int32_find64k ∷ Benchmark.vec_int32_find1m ∷ Benchmark.vec_int32_insert16
      ∷ Benchmark.vec_int32_insert256 ∷ Benchmark.vec_int32_insert4k ∷ Benchmark.vec_int32_insert64k
      ∷ Benchmark.vec_int32_insert1m ∷ Benchmark.vec_int32_iterate16
      ∷ Benchmark.vec_int32_iterate256 ∷ Benchmark.vec_int32_iterate4k
      ∷ Benchmark.vec_int32_iterate64k ∷ Benchmark.vec_int32_iterate1m ∷ Benchmark.vec_int64_copy64k
      ∷ Benchmark.vec_int64_destroy64k ∷ Benchmark.vec_int64_find64k ∷ Benchmark.vec_int64_insert4k
      ∷ Benchmark.vec_int64_iterate64k ∷ Benchmark.vec_float_copy64k
      ∷ Benchmark.vec_float_destroy64k ∷ Benchmark.vec_float_find64k ∷ Benchmark.vec_float_insert4k
      ∷ Benchmark.vec_float_iterate64k ∷ Benchmark.vec_double_copy64k
      ∷ Benchmark.vec_double_destroy64k ∷ Benchmark.vec_double_find64k
      ∷ Benchmark.vec_double_insert4k ∷ Benchmark.vec_double_iterate64k
      ∷ Benchmark.vec_string_copy64k ∷ Benchmark.vec_string_destroy64k
      ∷ Benchmark.vec_string_find64k ∷ Benchmark.vec_string_insert4k
      ∷ Benchmark.vec_string_iterate64k ∷ [],
)

abbrev pub string_from_entry : Category × List Benchmark
string_from_entry = (
  Category.string_from,
  Benchmark.string_from_smallint ∷ Benchmark.string_from_maxint ∷ Benchmark.string_from_maxint64
      ∷ Benchmark.string_from_smallfloat ∷ Benchmark.string_from_bigfloat
      ∷ Benchmark.string_from_smalldouble ∷ Benchmark.string_from_bigdouble ∷ [],
)

abbrev pub string_to_entry : Category × List Benchmark
string_to_entry = (
  Category.string_to,
  Benchmark.string_to_smallint ∷ Benchmark.string_to_maxint ∷ Benchmark.string_to_maxint64
      ∷ Benchmark.string_to_smallfloat_os ∷ Benchmark.string_to_smallfloat_ts
      ∷ Benchmark.string_to_bigfloat_os ∷ Benchmark.string_to_bigfloat_ts
      ∷ Benchmark.string_to_smalldouble_os ∷ Benchmark.string_to_smalldouble_ts
      ∷ Benchmark.string_to_bigdouble_os ∷ Benchmark.string_to_bigdouble_ts ∷ [],
)

abbrev pub thread_entry : Category × List Benchmark
thread_entry = (Category.thread, Benchmark.thread_create_destroy ∷ Benchmark.thread_pingpong ∷ [])

abbrev pub work_entry : Category × List Benchmark
work_entry = (
  Category.work,
  Benchmark.fibonacci_u64 ∷ Benchmark.mandelbrot_256 ∷ Benchmark.trigonometry ∷ [],
)
