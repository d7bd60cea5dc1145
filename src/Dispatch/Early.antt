-- ===== src/Dispatch/Early.antt =====
-- The cases of `MakeTimers( Benchmark )` in bench/dispatch.cpp, asio to pipe.
use cpp_autotime.Prelude.{List, [], ◌∷◌}
use cpp_autotime.Benchmarks.Defs.{Benchmark}

abbrev pub asio_cases : List Benchmark
asio_cases =
    Benchmark.asio_dispatch ∷ Benchmark.asio_dispatch_wait ∷ Benchmark.asio_dispatch_strand
    ∷ Benchmark.asio_dispatch_strand_wait ∷ Benchmark.asio_dispatch_threaded
    ∷ Benchmark.asio_dispatch_threaded_wait ∷ Benchmark.asio_dispatch_strand_threaded_wait
    ∷ Benchmark.asio_post ∷ Benchmark.asio_post_wait ∷ Benchmark.asio_post_threaded
    ∷ Benchmark.asio_post_threaded_wait ∷ Benchmark.asio_post_tail ∷ Benchmark.asio_post_tail_strand
    ∷ Benchmark.asio_post_pingpong ∷ Benchmark.asio_reset ∷ Benchmark.asio_run ∷ []

abbrev pub atomic_cases : List Benchmark
atomic_cases =
    Benchmark.atomic_increment ∷ Benchmark.atomic_cmp_exchg_weak_xpctd
    ∷ Benchmark.atomic_cmp_exchg_weak_other ∷ Benchmark.atomic_cmp_exchg_strong_xpctd
    ∷ Benchmark.atomic_cmp_exchg_strong_other ∷ Benchmark.atomic_pingpong ∷ []

abbrev pub condvar_cases : List Benchmark
condvar_cases =
    Benchmark.condvar_broadcast ∷ Benchmark.condvar_create_destroy ∷ Benchmark.condvar_signal
    ∷ Benchmark.condvar_signal_watched ∷ []

abbrev pub directory_cases : List Benchmark
directory_cases =
    Benchmark.chmod ∷ Benchmark.chown ∷ Benchmark.directory_iter_0 ∷ Benchmark.directory_iter_1
    ∷ Benchmark.directory_iter_64 ∷ Benchmark.directory_iter_4k ∷ Benchmark.flock
    ∷ Benchmark.inotify ∷ Benchmark.mkdir ∷ Benchmark.readdir_0 ∷ Benchmark.readdir_1
    ∷ Benchmark.readdir_64 ∷ Benchmark.readdir_4k ∷ Benchmark.rmdir ∷ []

abbrev pub exception_cases : List Benchmark
exception_cases =
    Benchmark.exception_catch_all ∷ Benchmark.exception_catch_std ∷ Benchmark.exception_noexcept
    ∷ Benchmark.exception_try ∷ []

abbrev pub file_cases : List Benchmark
file_cases =
    Benchmark.file_append ∷ Benchmark.file_close ∷ Benchmark.file_create
    ∷ Benchmark.file_fdatasync_0 ∷ Benchmark.file_fdatasync_1 ∷ Benchmark.file_fdatasync_block
    ∷ Benchmark.file_fstat ∷ Benchmark.file_fsync_0 ∷ Benchmark.file_fsync_1
    ∷ Benchmark.file_fsync_block ∷ Benchmark.file_lseek_random ∷ Benchmark.file_open_nonexistent
    ∷ Benchmark.file_open_ro ∷ Benchmark.file_open_rw ∷ Benchmark.file_open_trunc
    ∷ Benchmark.file_read_256 ∷ Benchmark.file_read_4k ∷ Benchmark.file_read_64k
    ∷ Benchmark.file_read_1m ∷ Benchmark.file_read_16m ∷ Benchmark.file_read_direct_4k
    ∷ Benchmark.file_read_direct_64k ∷ Benchmark.file_read_direct_1m
    ∷ Benchmark.file_read_direct_16m ∷ Benchmark.file_stat ∷ Benchmark.file_stat_nonexistent
    ∷ Benchmark.file_unlink ∷ Benchmark.file_write_256 ∷ Benchmark.file_write_4k
    ∷ Benchmark.file_write_64k ∷ Benchmark.file_write_1m ∷ Benchmark.file_write_16m
    ∷ Benchmark.file_write_direct_4k ∷ Benchmark.file_write_direct_64k
    ∷ Benchmark.file_write_direct_1m ∷ Benchmark.file_write_direct_16m ∷ []

abbrev pub function_cases : List Benchmark
function_cases =
    Benchmark.function_args0 ∷ Benchmark.function_args1 ∷ Benchmark.function_args2
    ∷ Benchmark.function_args3 ∷ Benchmark.function_args4 ∷ Benchmark.function_args5
    ∷ Benchmark.function_args6 ∷ Benchmark.function_args7 ∷ Benchmark.member_function
    ∷ Benchmark.member_function_shptr ∷ Benchmark.virtual_function ∷ []

abbrev pub heap_cases : List Benchmark
heap_cases =
    Benchmark.new_delete_16 ∷ Benchmark.new_delete_256 ∷ Benchmark.new_delete_4k
    ∷ Benchmark.new_delete_64k ∷ Benchmark.new_delete_1m ∷ Benchmark.new_delete_16m
    ∷ Benchmark.new_delete_256m ∷ Benchmark.new_delete_cold_16 ∷ Benchmark.new_delete_cold_4k
    ∷ Benchmark.new_delete_cold_1m ∷ Benchmark.new_delete_cold_256m ∷ []

abbrev pub istream_cases : List Benchmark
istream_cases =
    Benchmark.istream_string4 ∷ Benchmark.istream_string64 ∷ Benchmark.istream_smallint
    ∷ Benchmark.istream_maxint ∷ Benchmark.istream_maxint64 ∷ Benchmark.istream_smallfloat
    ∷ Benchmark.istream_bigfloat ∷ Benchmark.istream_smalldouble ∷ Benchmark.istream_bigdouble ∷ []

abbrev pub memory_cases : List Benchmark
memory_cases =
    Benchmark.memcpy_256 ∷ Benchmark.memcpy_4k ∷ Benchmark.memcpy_64k ∷ Benchmark.memcpy_1m
    ∷ Benchmark.memcpy_16m ∷ Benchmark.memcpy_256m ∷ Benchmark.strcmp_16 ∷ Benchmark.strcmp_256
    ∷ Benchmark.strcmp_4k ∷ Benchmark.strcmp_64k ∷ Benchmark.strcmp_1m ∷ Benchmark.strcmp_16m
    ∷ Benchmark.strcmp_256m ∷ Benchmark.strlen_256 ∷ Benchmark.strlen_4k ∷ Benchmark.strlen_64k
    ∷ Benchmark.strlen_1m ∷ Benchmark.strlen_16m ∷ Benchmark.strlen_256m ∷ Benchmark.strncpy_16
    ∷ Benchmark.strncpy_256 ∷ Benchmark.strncpy_4k ∷ Benchmark.strncpy_64k ∷ Benchmark.strncpy_1m
    ∷ Benchmark.strncpy_16m ∷ Benchmark.strncpy_256m ∷ Benchmark.memset_256 ∷ Benchmark.memset_4k
    ∷ Benchmark.memset_64k ∷ Benchmark.memset_1m ∷ Benchmark.memset_16m ∷ Benchmark.memset_256m
    ∷ Benchmark.memread_256 ∷ Benchmark.memread_4k ∷ Benchmark.memread_64k ∷ Benchmark.memread_1m
    ∷ Benchmark.memread_16m ∷ Benchmark.memread_256m ∷ Benchmark.cache_false_sharing ∷ []

abbrev pub mutex_cases : List Benchmark
mutex_cases =
    Benchmark.mutex_create_destroy ∷ Benchmark.mutex_lock_release ∷ Benchmark.mutex_trylock ∷ []

abbrev pub ostream_cases : List Benchmark
ostream_cases =
    Benchmark.ostream_string4 ∷ Benchmark.ostream_string64 ∷ Benchmark.ostream_cstr4
    ∷ Benchmark.ostream_cstr64 ∷ Benchmark.ostream_smallint ∷ Benchmark.ostream_maxint
    ∷ Benchmark.ostream_maxint64 ∷ Benchmark.ostream_smallfloat ∷ Benchmark.ostream_bigfloat
    ∷ Benchmark.ostream_smalldouble ∷ Benchmark.ostream_bigdouble ∷ Benchmark.ostream_endl ∷ []

abbrev pub overhead_cases : List Benchmark
overhead_cases =
    Benchmark.overhead_nullary ∷ Benchmark.overhead_nullary_fn ∷ Benchmark.overhead_nullary_ptr ∷ []

abbrev pub pipe_cases : List Benchmark
pipe_cases =
    Benchmark.pipe_open_close ∷ Benchmark.pipe_read ∷ Benchmark.pipe_write
    ∷ Benchmark.pipe_write_read_256 ∷ Benchmark.pipe_write_read_1k ∷ Benchmark.pipe_write_read_4k
    ∷ Benchmark.pipe_write_read_16k ∷ Benchmark.pipe_write_read_64k ∷ Benchmark.pipe_pingpong_256
    ∷ Benchmark.pipe_pingpong_1k ∷ Benchmark.pipe_pingpong_4k ∷ Benchmark.pipe_pingpong_16k
    ∷ Benchmark.pipe_pingpong_64k ∷ Benchmark.pipe_asio_read ∷ Benchmark.pipe_asio_read_async
    ∷ Benchmark.pipe_asio_write ∷ Benchmark.pipe_asio_write_async
    ∷ Benchmark.pipe_asio_write_read_256 ∷ Benchmark.pipe_asio_write_read_1k
    ∷ Benchmark.pipe_asio_write_read_4k ∷ Benchmark.pipe_asio_write_read_16k
    ∷ Benchmark.pipe_asio_write_read_64k ∷ Benchmark.pipe_asio_pingpong
    ∷ Benchmark.pipe_asio_pingpong_threaded ∷ []
