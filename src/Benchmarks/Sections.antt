-- ===== src/Benchmarks/Sections.antt =====
-- The enumerators of `enum class Benchmark` by value, section by section of bench/list.hpp.
use cpp_autotime.Prelude.{List, [], ◌∷◌, ◌++◌}
use cpp_autotime.Benchmarks.Defs.{Benchmark}

abbrev asio_section : List Benchmark
asio_section =
    Benchmark.asio_dispatch ∷ Benchmark.asio_dispatch_wait ∷ Benchmark.asio_dispatch_strand
    ∷ Benchmark.asio_dispatch_strand_wait ∷ Benchmark.asio_dispatch_threaded
    ∷ Benchmark.asio_dispatch_threaded_wait ∷ Benchmark.asio_dispatch_strand_threaded_wait
    ∷ Benchmark.asio_post ∷ Benchmark.asio_post_wait ∷ Benchmark.asio_post_threaded
    ∷ Benchmark.asio_post_threaded_wait ∷ Benchmark.asio_post_tail ∷ Benchmark.asio_post_tail_strand
    ∷ Benchmark.asio_post_pingpong ∷ Benchmark.asio_reset ∷ Benchmark.asio_run ∷ []

abbrev atomic_section : List Benchmark
atomic_section =
    Benchmark.atomic_increment ∷ Benchmark.atomic_cmp_exchg_weak_xpctd
    ∷ Benchmark.atomic_cmp_exchg_weak_other ∷ Benchmark.atomic_cmp_exchg_strong_xpctd
    ∷ Benchmark.atomic_cmp_exchg_strong_other ∷ Benchmark.atomic_pingpong ∷ []

abbrev condvar_section : List Benchmark
condvar_section =
    Benchmark.condvar_broadcast ∷ Benchmark.condvar_create_destroy ∷ Benchmark.condvar_signal
    ∷ Benchmark.condvar_signal_watched ∷ []

abbrev directory_section : List Benchmark
directory_section =
    Benchmark.chmod ∷ Benchmark.chown ∷ Benchmark.directory_iter_0 ∷ Benchmark.directory_iter_1
    ∷ Benchmark.directory_iter_64 ∷ Benchmark.directory_iter_4k ∷ Benchmark.flock
    ∷ Benchmark.inotify ∷ Benchmark.mkdir ∷ Benchmark.readdir_0 ∷ Benchmark.readdir_1
    ∷ Benchmark.readdir_64 ∷ Benchmark.readdir_4k ∷ Benchmark.rmdir ∷ []

abbrev exception_section : List Benchmark
exception_section =
    Benchmark.exception_catch_all ∷ Benchmark.exception_catch_std ∷ Benchmark.exception_noexcept
    ∷ Benchmark.exception_try ∷ []

abbrev file_section : List Benchmark
file_section =
    Benchmark.file_append ∷ Benchmark.file_close ∷ Benchmark.file_create
    ∷ Benchmark.file_fdatasync_0 ∷ Benchmark.file_fdatasync_1 ∷ Benchmark.file_fdatasync_block
    ∷ Benchmark.file_fstat ∷ Benchmark.file_fsync_0 ∷ Benchmark.file_fsync_1
    ∷ Benchmark.file_fsync_block ∷ Benchmark.file_lseek_random ∷ Benchmark.file_open_nonexistent
    ∷ Benchmark.file_open_ro ∷ Benchmark.file_open_rw ∷ Benchmark.file_open_trunc
    ∷ Benchmark.file_read_256 ∷ Benchmark.file_read_4k ∷ Benchmark.file_read_64k
    ∷ Benchmark.file_read_1m ∷ Benchmark.file_read_16m ∷ Benchmark.file_read_direct_4k
    ∷ Benchmark.file_read_direct_64k ∷ Benchmark.file_read_direct_1m
    ∷ Benchmark.file_read_direct_16m ∷ Benchmark.file_stat ∷ Benchmark.file_stat_nonexistent
    ∷ Benchmark.file_unlink ∷ Benchmark.file_write_256 ∷ Benchmark.file_write_4k
    ∷ Benchmark.file_write_64k ∷ Benchmark.file_write_1m ∷ Benchmark.file_write_16m
    ∷ Benchmark.file_write_direct_4k ∷ Benchmark.file_write_direct_64k
    ∷ Benchmark.file_write_direct_1m ∷ Benchmark.file_write_direct_16m ∷ []

abbrev function_section : List Benchmark
function_section =
    Benchmark.function_args0 ∷ Benchmark.function_args1 ∷ Benchmark.function_args2
    ∷ Benchmark.function_args3 ∷ Benchmark.function_args4 ∷ Benchmark.function_args5
    ∷ Benchmark.function_args6 ∷ Benchmark.function_args7 ∷ Benchmark.member_function
    ∷ Benchmark.member_function_shptr ∷ Benchmark.virtual_function ∷ []

abbrev heap_section : List Benchmark
heap_section =
    Benchmark.new_delete_16 ∷ Benchmark.new_delete_256 ∷ Benchmark.new_delete_4k
    ∷ Benchmark.new_delete_64k ∷ Benchmark.new_delete_1m ∷ Benchmark.new_delete_16m
    ∷ Benchmark.new_delete_256m ∷ Benchmark.new_delete_cold_16 ∷ Benchmark.new_delete_cold_4k
    ∷ Benchmark.new_delete_cold_1m ∷ Benchmark.new_delete_cold_256m ∷ []

abbrev istream_section : List Benchmark
istream_section =
    Benchmark.istream_string4 ∷ Benchmark.istream_string64 ∷ Benchmark.istream_smallint
    ∷ Benchmark.istream_maxint ∷ Benchmark.istream_maxint64 ∷ Benchmark.istream_smallfloat
    ∷ Benchmark.istream_bigfloat ∷ Benchmark.istream_smalldouble ∷ Benchmark.istream_bigdouble ∷ []

abbrev memory_section : List Benchmark
memory_section =
    Benchmark.memcpy_256 ∷ Benchmark.memcpy_4k ∷ Benchmark.memcpy_64k ∷ Benchmark.memcpy_1m
    ∷ Benchmark.memcpy_16m ∷ Benchmark.memcpy_256m ∷ Benchmark.strcmp_16 ∷ Benchmark.strcmp_256
    ∷ Benchmark.strcmp_4k ∷ Benchmark.strcmp_64k ∷ Benchmark.strcmp_1m ∷ Benchmark.strcmp_16m
    ∷ Benchmark.strcmp_256m ∷ Benchmark.strlen_256 ∷ Benchmark.strlen_4k ∷ Benchmark.strlen_64k
    ∷ Benchmark.strlen_1m ∷ Benchmark.strlen_16m ∷ Benchmark.strlen_256m ∷ Benchmark.strncpy_16
    ∷ Benchmark.strncpy_256 ∷ Benchmark.strncpy_4k ∷ Benchmark.strncpy_64k ∷ Benchmark.strncpy_1m
    ∷ Benchmark.strncpy_16m ∷ Benchmark.strncpy_256m ∷ Benchmark.memset_256 ∷ Benchmark.memset_4k
    ∷ Benchmark.memset_64k ∷ Benchmark.memset_1m ∷ Benchmark.memset_16m ∷ Benchmark.memset_256m
    ∷ Benchmark.memread_256 ∷ Benchmark.memread_4k ∷ Benchmark.memread_64k ∷ Benchmark.memread_1m
    ∷ Benchmark.memread_16m ∷ Benchmark.memread_256m ∷ Benchmark.cache_false_sharing ∷ []

abbrev mutex_section : List Benchmark
mutex_section =
    Benchmark.mutex_create_destroy ∷ Benchmark.mutex_lock_release ∷ Benchmark.mutex_trylock ∷ []

abbrev ostream_section : List Benchmark
ostream_section =
    Benchmark.ostream_string4 ∷ Benchmark.ostream_string64 ∷ Benchmark.ostream_cstr4
    ∷ Benchmark.ostream_cstr64 ∷ Benchmark.ostream_smallint ∷ Benchmark.ostream_maxint
    ∷ Benchmark.ostream_maxint64 ∷ Benchmark.ostream_smallfloat ∷ Benchmark.ostream_bigfloat
    ∷ Benchmark.ostream_smalldouble ∷ Benchmark.ostream_bigdouble ∷ Benchmark.ostream_endl ∷ []

abbrev overhead_section : List Benchmark
overhead_section =
    Benchmark.overhead_nullary ∷ Benchmark.overhead_nullary_fn ∷ Benchmark.overhead_nullary_ptr ∷ []

abbrev pipe_section : List Benchmark
pipe_section =
    Benchmark.pipe_open_close ∷ Benchmark.pipe_read ∷ Benchmark.pipe_write
    ∷ Benchmark.pipe_write_read_256 ∷ Benchmark.pipe_write_read_1k ∷ Benchmark.pipe_write_read_4k
    ∷ Benchmark.pipe_write_read_16k ∷ Benchmark.pipe_write_read_64k ∷ Benchmark.pipe_pingpong_256
    ∷ Benchmark.pipe_pingpong_1k ∷ Benchmark.pipe_pingpong_4k ∷ Benchmark.pipe_pingpong_16k
    ∷ Benchmark.pipe_pingpong_64k ∷ Benchmark.pipe_asio_read ∷ Benchmark.pipe_asio_read_async
    ∷ Benchmark.pipe_asio_write ∷ Benchmark.pipe_asio_write_async
    ∷ Benchmark.pipe_asio_write_read_256 ∷ Benchmark.pipe_asio_write_read_1k
    ∷ Benchmark.pipe_asio_write_read_4k ∷ Benchmark.pipe_asio_write_read_16k
    ∷ Benchmark.pipe_asio_write_read_64k ∷ Benchmark.pipe_asio_pingpong
    ∷ Benchmark.pipe_asio_pingpong_threaded ∷ []

abbrev poll_section : List Benchmark
poll_section =
    Benchmark.epoll_1 ∷ Benchmark.epoll_8 ∷ Benchmark.epoll_64 ∷ Benchmark.epoll_768
    ∷ Benchmark.poll_1 ∷ Benchmark.poll_8 ∷ Benchmark.poll_64 ∷ Benchmark.poll_768
    ∷ Benchmark.select_1 ∷ Benchmark.select_8 ∷ Benchmark.select_64 ∷ Benchmark.select_768 ∷ []

abbrev process_section : List Benchmark
process_section =
    Benchmark.fork ∷ Benchmark.fork_waitpid ∷ Benchmark.fork_exec_waitpid ∷ Benchmark.system ∷ []

abbrev std_deque_section : List Benchmark
std_deque_section =
    Benchmark.deque_int32_copy16 ∷ Benchmark.deque_int32_copy256 ∷ Benchmark.deque_int32_copy4k
    ∷ Benchmark.deque_int32_copy64k ∷ Benchmark.deque_int32_copy1m ∷ Benchmark.deque_int32_destroy16
    ∷ Benchmark.deque_int32_destroy256 ∷ Benchmark.deque_int32_destroy4k
    ∷ Benchmark.deque_int32_destroy64k ∷ Benchmark.deque_int32_destroy1m
    ∷ Benchmark.deque_int32_find1 ∷ Benchmark.deque_int32_find16 ∷ Benchmark.deque_int32_find256
    ∷ Benchmark.deque_int32_find4k ∷ Benchmark.deque_int32_find64k ∷ Benchmark.deque_int32_find1m
    ∷ Benchmark.deque_int32_insert16 ∷ Benchmark.deque_int32_insert256
    ∷ Benchmark.deque_int32_insert4k ∷ Benchmark.deque_int32_insert64k
    ∷ Benchmark.deque_int32_insert1m ∷ Benchmark.deque_int32_iterate16
    ∷ Benchmark.deque_int32_iterate256 ∷ Benchmark.deque_int32_iterate4k
    ∷ Benchmark.deque_int32_iterate64k ∷ Benchmark.deque_int32_iterate1m
    ∷ Benchmark.deque_int64_copy64k ∷ Benchmark.deque_int64_destroy64k
    ∷ Benchmark.deque_int64_find64k ∷ Benchmark.deque_int64_insert4k
    ∷ Benchmark.deque_int64_iterate64k ∷ Benchmark.deque_float_copy64k
    ∷ Benchmark.deque_float_destroy64k ∷ Benchmark.deque_float_find64k
    ∷ Benchmark.deque_float_insert4k ∷ Benchmark.deque_float_iterate64k
    ∷ Benchmark.deque_double_copy64k ∷ Benchmark.deque_double_destroy64k
    ∷ Benchmark.deque_double_find64k ∷ Benchmark.deque_double_insert4k
    ∷ Benchmark.deque_double_iterate64k ∷ Benchmark.deque_string_copy64k
    ∷ Benchmark.deque_string_destroy64k ∷ Benchmark.deque_string_find64k
    ∷ Benchmark.deque_string_insert4k ∷ Benchmark.deque_string_iterate64k ∷ []

abbrev std_hash_section : List Benchmark
std_hash_section =
    Benchmark.hash_int8 ∷ Benchmark.hash_int16 ∷ Benchmark.hash_int32 ∷ Benchmark.hash_int64
    ∷ Benchmark.hash_float ∷ Benchmark.hash_double ∷ Benchmark.hash_string_1
    ∷ Benchmark.hash_string_16 ∷ Benchmark.hash_string_256 ∷ Benchmark.hash_string_4k
    ∷ Benchmark.hash_string_64k ∷ []

abbrev std_hashset_section : List Benchmark
std_hashset_section =
    Benchmark.hashset_int32_copy16 ∷ Benchmark.hashset_int32_copy256
    ∷ Benchmark.hashset_int32_copy4k ∷ Benchmark.hashset_int32_copy64k
    ∷ Benchmark.hashset_int32_copy1m ∷ Benchmark.hashset_int32_destroy16
    ∷ Benchmark.hashset_int32_destroy256 ∷ Benchmark.hashset_int32_destroy4k
    ∷ Benchmark.hashset_int32_destroy64k ∷ Benchmark.hashset_int32_destroy1m
    ∷ Benchmark.hashset_int32_find1 ∷ Benchmark.hashset_int32_find16
    ∷ Benchmark.hashset_int32_find256 ∷ Benchmark.hashset_int32_find4k
    ∷ Benchmark.hashset_int32_find64k ∷ Benchmark.hashset_int32_find1m
    ∷ Benchmark.hashset_int32_insert16 ∷ Benchmark.hashset_int32_insert256
    ∷ Benchmark.hashset_int32_insert4k ∷ Benchmark.hashset_int32_insert64k
    ∷ Benchmark.hashset_int32_insert1m ∷ Benchmark.hashset_int32_iterate16
    ∷ Benchmark.hashset_int32_iterate256 ∷ Benchmark.hashset_int32_iterate4k
    ∷ Benchmark.hashset_int32_iterate64k ∷ Benchmark.hashset_int32_iterate1m
    ∷ Benchmark.hashset_int64_copy64k ∷ Benchmark.hashset_int64_destroy64k
    ∷ Benchmark.hashset_int64_find64k ∷ Benchmark.hashset_int64_insert4k
    ∷ Benchmark.hashset_int64_iterate64k ∷ Benchmark.hashset_float_copy64k
    ∷ Benchmark.hashset_float_destroy64k ∷ Benchmark.hashset_float_find64k
    ∷ Benchmark.hashset_float_insert4k ∷ Benchmark.hashset_float_iterate64k
    ∷ Benchmark.hashset_double_copy64k ∷ Benchmark.hashset_double_destroy64k
    ∷ Benchmark.hashset_double_find64k ∷ Benchmark.hashset_double_insert4k
    ∷ Benchmark.hashset_double_iterate64k ∷ Benchmark.hashset_string_copy64k
    ∷ Benchmark.hashset_string_destroy64k ∷ Benchmark.hashset_string_find64k
    ∷ Benchmark.hashset_string_insert4k ∷ Benchmark.hashset_string_iterate64k ∷ []

abbrev std_list_section : List Benchmark
std_list_section =
    Benchmark.list_int32_copy16 ∷ Benchmark.list_int32_copy256 ∷ Benchmark.list_int32_copy4k
    ∷ Benchmark.list_int32_copy64k ∷ Benchmark.list_int32_copy1m ∷ Benchmark.list_int32_destroy16
    ∷ Benchmark.list_int32_destroy256 ∷ Benchmark.list_int32_destroy4k
    ∷ Benchmark.list_int32_destroy64k ∷ Benchmark.list_int32_destroy1m ∷ Benchmark.list_int32_find1
    ∷ Benchmark.list_int32_find16 ∷ Benchmark.list_int32_find256 ∷ Benchmark.list_int32_find4k
    ∷ Benchmark.list_int32_find64k ∷ Benchmark.list_int32_find1m ∷ Benchmark.list_int32_insert16
    ∷ Benchmark.list_int32_insert256 ∷ Benchmark.list_int32_insert4k
    ∷ Benchmark.list_int32_insert64k ∷ Benchmark.list_int32_insert1m
    ∷ Benchmark.list_int32_iterate16 ∷ Benchmark.list_int32_iterate256
    ∷ Benchmark.list_int32_iterate4k ∷ Benchmark.list_int32_iterate64k
    ∷ Benchmark.list_int32_iterate1m ∷ Benchmark.list_int64_copy64k
    ∷ Benchmark.list_int64_destroy64k ∷ Benchmark.list_int64_find64k ∷ Benchmark.list_int64_insert4k
    ∷ Benchmark.list_int64_iterate64k ∷ Benchmark.list_float_copy64k
    ∷ Benchmark.list_float_destroy64k ∷ Benchmark.list_float_find64k ∷ Benchmark.list_float_insert4k
    ∷ Benchmark.list_float_iterate64k ∷ Benchmark.list_double_copy64k
    ∷ Benchmark.list_double_destroy64k ∷ Benchmark.list_double_find64k
    ∷ Benchmark.list_double_insert4k ∷ Benchmark.list_double_iterate64k
    ∷ Benchmark.list_string_copy64k ∷ Benchmark.list_string_destroy64k
    ∷ Benchmark.list_string_find64k ∷ Benchmark.list_string_insert4k
    ∷ Benchmark.list_string_iterate64k ∷ []

abbrev std_set_section : List Benchmark
std_set_section =
    Benchmark.set_int32_copy16 ∷ Benchmark.set_int32_copy256 ∷ Benchmark.set_int32_copy4k
    ∷ Benchmark.set_int32_copy64k ∷ Benchmark.set_int32_copy1m ∷ Benchmark.set_int32_destroy16
    ∷ Benchmark.set_int32_destroy256 ∷ Benchmark.set_int32_destroy4k
    ∷ Benchmark.set_int32_destroy64k ∷ Benchmark.set_int32_destroy1m ∷ Benchmark.set_int32_find1
    ∷ Benchmark.set_int32_find16 ∷ Benchmark.set_int32_find256 ∷ Benchmark.set_int32_find4k
    ∷ Benchmark.set_int32_find64k ∷ Benchmark.set_int32_find1m ∷ Benchmark.set_int32_insert16
    ∷ Benchmark.set_int32_insert256 ∷ Benchmark.set_int32_insert4k ∷ Benchmark.set_int32_insert64k
    ∷ Benchmark.set_int32_insert1m ∷ Benchmark.set_int32_iterate16 ∷ Benchmark.set_int32_iterate256
    ∷ Benchmark.set_int32_iterate4k ∷ Benchmark.set_int32_iterate64k ∷ Benchmark.set_int32_iterate1m
    ∷ Benchmark.set_int64_copy64k ∷ Benchmark.set_int64_destroy64k ∷ Benchmark.set_int64_find64k
    ∷ Benchmark.set_int64_insert4k ∷ Benchmark.set_int64_iterate64k ∷ Benchmark.set_float_copy64k
    ∷ Benchmark.set_float_destroy64k ∷ Benchmark.set_float_find64k ∷ Benchmark.set_float_insert4k
    ∷ Benchmark.set_float_iterate64k ∷ Benchmark.set_double_copy64k
    ∷ Benchmark.set_double_destroy64k ∷ Benchmark.set_double_find64k ∷ Benchmark.set_double_insert4k
    ∷ Benchmark.set_double_iterate64k ∷ Benchmark.set_string_copy64k
    ∷ Benchmark.set_string_destroy64k ∷ Benchmark.set_string_find64k ∷ Benchmark.set_string_insert4k
    ∷ Benchmark.set_string_iterate64k ∷ []

abbrev std_vector_section : List Benchmark
std_vector_section =
    Benchmark.vec_int32_copy4k ∷ Benchmark.vec_int32_copy64k ∷ Benchmark.vec_int32_copy1m
    ∷ Benchmark.vec_int32_destroy64k ∷ Benchmark.vec_int32_destroy1m ∷ Benchmark.vec_int32_find1
    ∷ Benchmark.vec_int32_find16 ∷ Benchmark.vec_int32_find256 ∷ Benchmark.vec_int32_find4k
    ∷ Benchmark.vec_int32_find64k ∷ Benchmark.vec_int32_find1m ∷ Benchmark.vec_int32_insert16
    ∷ Benchmark.vec_int32_insert256 ∷ Benchmark.vec_int32_insert4k ∷ Benchmark.vec_int32_insert64k
    ∷ Benchmark.vec_int32_insert1m ∷ Benchmark.vec_int32_iterate16 ∷ Benchmark.vec_int32_iterate256
    ∷ Benchmark.vec_int32_iterate4k ∷ Benchmark.vec_int32_iterate64k ∷ Benchmark.vec_int32_iterate1m
    ∷ Benchmark.vec_int64_copy64k ∷ Benchmark.vec_int64_destroy64k ∷ Benchmark.vec_int64_find64k
    ∷ Benchmark.vec_int64_insert4k ∷ Benchmark.vec_int64_iterate64k ∷ Benchmark.vec_float_copy64k
    ∷ Benchmark.vec_float_destroy64k ∷ Benchmark.vec_float_find64k ∷ Benchmark.vec_float_insert4k
    ∷ Benchmark.vec_float_iterate64k ∷ Benchmark.vec_double_copy64k
    ∷ Benchmark.vec_double_destroy64k ∷ Benchmark.vec_double_find64k ∷ Benchmark.vec_double_insert4k
    ∷ Benchmark.vec_double_iterate64k ∷ Benchmark.vec_string_copy64k
    ∷ Benchmark.vec_string_destroy64k ∷ Benchmark.vec_string_find64k ∷ Benchmark.vec_string_insert4k
    ∷ Benchmark.vec_string_iterate64k ∷ []

abbrev string_from_section : List Benchmark
string_from_section =
    Benchmark.string_from_smallint ∷ Benchmark.string_from_maxint ∷ Benchmark.string_from_maxint64
    ∷ Benchmark.string_from_smallfloat ∷ Benchmark.string_from_bigfloat
    ∷ Benchmark.string_from_smalldouble ∷ Benchmark.string_from_bigdouble ∷ []

abbrev string_to_section : List Benchmark
string_to_section =
    Benchmark.string_to_smallint ∷ Benchmark.string_to_maxint ∷ Benchmark.string_to_maxint64
    ∷ Benchmark.string_to_smallfloat_os ∷ Benchmark.string_to_smallfloat_ts
    ∷ Benchmark.string_to_bigfloat_os ∷ Benchmark.string_to_bigfloat_ts
    ∷ Benchmark.string_to_smalldouble_os ∷ Benchmark.string_to_smalldouble_ts
    ∷ Benchmark.string_to_bigdouble_os ∷ Benchmark.string_to_bigdouble_ts ∷ []

abbrev thread_section : List Benchmark
thread_section = Benchmark.thread_create_destroy ∷ Benchmark.thread_pingpong ∷ []

abbrev work_section : List Benchmark
work_section = Benchmark.fibonacci_u64 ∷ Benchmark.mandelbrot_256 ∷ Benchmark.trigonometry ∷ []

abbrev pub enumerators : List Benchmark
enumerators =
    asio_section
    ++ (atomic_section
        ++ (condvar_section
            ++ (directory_section
                ++ (exception_section
                    ++ (file_section
                        ++ (function_section
                            ++ (heap_section
                                ++ (istream_section
                                    ++ (memory_section
                                        ++ (mutex_section
                                            ++ (ostream_section
                                                ++ (overhead_section
                                                    ++ (pipe_section
                                                        ++ (poll_section
                                                            ++ (process_section
                                                            ++ (std_deque_section
                                                            ++ (std_hash_section
                                                            ++ (std_hashset_section
                                                            ++ (std_list_section
                                                            ++ (std_set_section
                                                            ++ (std_vector_section
                                                            ++ (string_from_section
                                                            ++ (string_to_section
                                                            ++ (thread_section
                                                            ++ work_section))))))))))))))))))))))))
