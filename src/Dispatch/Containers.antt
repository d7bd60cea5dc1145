-- ===== src/Dispatch/Containers.antt =====
-- The cases of `MakeTimers( Benchmark )` in bench/dispatch.cpp, poll to std_list.
use cpp_autotime.Prelude.{List, [], ◌∷◌}
use cpp_autotime.Benchmarks.Defs.{Benchmark}

abbrev pub poll_cases : List Benchmark
poll_cases =
    Benchmark.epoll_1 ∷ Benchmark.epoll_8 ∷ Benchmark.epoll_64 ∷ Benchmark.epoll_768
    ∷ Benchmark.poll_1 ∷ Benchmark.poll_8 ∷ Benchmark.poll_64 ∷ Benchmark.poll_768
    ∷ Benchmark.select_1 ∷ Benchmark.select_8 ∷ Benchmark.select_64 ∷ Benchmark.select_768 ∷ []

abbrev pub process_cases : List Benchmark
process_cases =
    Benchmark.fork ∷ Benchmark.fork_waitpid ∷ Benchmark.fork_exec_waitpid ∷ Benchmark.system ∷ []

abbrev pub std_deque_cases : List Benchmark
std_deque_cases =
    Benchmark.deque_int32_copy16 ∷ Benchmark.deque_int32_copy256 ∷ Benchmark.deque_int32_copy4k
    ∷ Benchmark.deque_int32_copy64k ∷ Benchmark.deque_int32_copy1m ∷ Benchmark.deque_int32_destroy16
    ∷ Benchmark.deque_int32_destroy256 ∷ Benchmark.deque_int32_destroy4k
    ∷ Benchmark.deque_int32_destroy64k ∷ Benchmark.deque_int32_destroy1m
    ∷ Benchmark.deque_int32_find1 ∷ Benchmark.deque_int32_find16 ∷ Benchmark.deque_int32_find256
    ∷ Benchmark.deque_int32_find4k ∷ Benchmark.deque_int32_find64k ∷ Benchmark.deque_int32_find1m
    ∷ Benchmark.deque_int32_insert16 ∷ Benchmark.deque_int32_insert256
    ∷ Benchmark.deque_int32_insert4k ∷ Benchmark.deque_int32_insert64k
    ∷ Benchmark.deque_int32_insert1m ∷ Benchmark.deque_int32_iterate16
    ∷ Benchmark.deque_int32_iterate256 ∷ Benchmark.deque_int32_iterate4k
    ∷ Benchmark.deque_int32_iterate64k ∷ Benchmark.deque_int32_iterate1m
    ∷ Benchmark.deque_int64_copy64k ∷ Benchmark.deque_int64_destroy64k
    ∷ Benchmark.deque_int64_find64k ∷ Benchmark.deque_int64_insert4k
    ∷ Benchmark.deque_int64_iterate64k ∷ Benchmark.deque_float_copy64k
    ∷ Benchmark.deque_float_destroy64k ∷ Benchmark.deque_float_find64k
    ∷ Benchmark.deque_float_insert4k ∷ Benchmark.deque_float_iterate64k
    ∷ Benchmark.deque_double_copy64k ∷ Benchmark.deque_double_destroy64k
    ∷ Benchmark.deque_double_find64k ∷ Benchmark.deque_double_insert4k
    ∷ Benchmark.deque_double_iterate64k ∷ Benchmark.deque_string_copy64k
    ∷ Benchmark.deque_string_destroy64k ∷ Benchmark.deque_string_find64k
    ∷ Benchmark.deque_string_insert4k ∷ Benchmark.deque_string_iterate64k ∷ []

abbrev pub std_hash_cases : List Benchmark
std_hash_cases =
    Benchmark.hash_int8 ∷ Benchmark.hash_int16 ∷ Benchmark.hash_int32 ∷ Benchmark.hash_int64
    ∷ Benchmark.hash_float ∷ Benchmark.hash_double ∷ Benchmark.hash_string_1
    ∷ Benchmark.hash_string_16 ∷ Benchmark.hash_string_256 ∷ Benchmark.hash_string_4k
    ∷ Benchmark.hash_string_64k ∷ []

abbrev pub std_hashset_cases : List Benchmark
std_hashset_cases =
    Benchmark.hashset_int32_copy16 ∷ Benchmark.hashset_int32_copy256
    ∷ Benchmark.hashset_int32_copy4k ∷ Benchmark.hashset_int32_copy64k
    ∷ Benchmark.hashset_int32_copy1m ∷ Benchmark.hashset_int32_destroy16
    ∷ Benchmark.hashset_int32_destroy256 ∷ Benchmark.hashset_int32_destroy4k
    ∷ Benchmark.hashset_int32_destroy64k ∷ Benchmark.hashset_int32_destroy1m
    ∷ Benchmark.hashset_int32_find1 ∷ Benchmark.hashset_int32_find16
    ∷ Benchmark.hashset_int32_find256 ∷ Benchmark.hashset_int32_find4k
    ∷ Benchmark.hashset_int32_find64k ∷ Benchmark.hashset_int32_find1m
    ∷ Benchmark.hashset_int32_insert16 ∷ Benchmark.hashset_int32_insert256
    ∷ Benchmark.hashset_int32_insert4k ∷ Benchmark.hashset_int32_insert64k
    ∷ Benchmark.hashset_int32_insert1m ∷ Benchmark.hashset_int32_iterate16
    ∷ Benchmark.hashset_int32_iterate256 ∷ Benchmark.hashset_int32_iterate4k
    ∷ Benchmark.hashset_int32_iterate64k ∷ Benchmark.hashset_int32_iterate1m
    ∷ Benchmark.hashset_int64_copy64k ∷ Benchmark.hashset_int64_destroy64k
    ∷ Benchmark.hashset_int64_find64k ∷ Benchmark.hashset_int64_insert4k
    ∷ Benchmark.hashset_int64_iterate64k ∷ Benchmark.hashset_float_copy64k
    ∷ Benchmark.hashset_float_destroy64k ∷ Benchmark.hashset_float_find64k
    ∷ Benchmark.hashset_float_insert4k ∷ Benchmark.hashset_float_iterate64k
    ∷ Benchmark.hashset_double_copy64k ∷ Benchmark.hashset_double_destroy64k
    ∷ Benchmark.hashset_double_find64k ∷ Benchmark.hashset_double_insert4k
    ∷ Benchmark.hashset_double_iterate64k ∷ Benchmark.hashset_string_copy64k
    ∷ Benchmark.hashset_string_destroy64k ∷ Benchmark.hashset_string_find64k
    ∷ Benchmark.hashset_string_insert4k ∷ Benchmark.hashset_string_iterate64k ∷ []

abbrev pub std_list_cases : List Benchmark
std_list_cases =
    Benchmark.list_int32_copy16 ∷ Benchmark.list_int32_copy256 ∷ Benchmark.list_int32_copy4k
    ∷ Benchmark.list_int32_copy64k ∷ Benchmark.list_int32_copy1m ∷ Benchmark.list_int32_destroy16
    ∷ Benchmark.list_int32_destroy256 ∷ Benchmark.list_int32_destroy4k
    ∷ Benchmark.list_int32_destroy64k ∷ Benchmark.list_int32_destroy1m ∷ Benchmark.list_int32_find1
    ∷ Benchmark.list_int32_find16 ∷ Benchmark.list_int32_find256 ∷ Benchmark.list_int32_find4k
    ∷ Benchmark.list_int32_find64k ∷ Benchmark.list_int32_find1m ∷ Benchmark.list_int32_insert16
    ∷ Benchmark.list_int32_insert256 ∷ Benchmark.list_int32_insert4k
    ∷ Benchmark.list_int32_insert64k ∷ Benchmark.list_int32_insert1m
    ∷ Benchmark.list_int32_iterate16 ∷ Benchmark.list_int32_iterate256
    ∷ Benchmark.list_int32_iterate4k ∷ Benchmark.list_int32_iterate64k
    ∷ Benchmark.list_int32_iterate1m ∷ Benchmark.list_int64_copy64k
    ∷ Benchmark.list_int64_destroy64k ∷ Benchmark.list_int64_find64k ∷ Benchmark.list_int64_insert4k
    ∷ Benchmark.list_int64_iterate64k ∷ Benchmark.list_float_copy64k
    ∷ Benchmark.list_float_destroy64k ∷ Benchmark.list_float_find64k ∷ Benchmark.list_float_insert4k
    ∷ Benchmark.list_float_iterate64k ∷ Benchmark.list_double_copy64k
    ∷ Benchmark.list_double_destroy64k ∷ Benchmark.list_double_find64k
    ∷ Benchmark.list_double_insert4k ∷ Benchmark.list_double_iterate64k
    ∷ Benchmark.list_string_copy64k ∷ Benchmark.list_string_destroy64k
    ∷ Benchmark.list_string_find64k ∷ Benchmark.list_string_insert4k
    ∷ Benchmark.list_string_iterate64k ∷ []
