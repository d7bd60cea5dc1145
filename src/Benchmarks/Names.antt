-- ===== src/Benchmarks/Names.antt =====
-- `ToCStr( Benchmark )` of bench/list.cpp, a `switch` with a case for each enumerator.
use Prim.Native.String.{String}
use cpp_autotime.Prelude.{Option, some}
use cpp_autotime.Benchmarks.Defs.{Benchmark}

unfoldable pub to_cstr : Benchmark → Option String
to_cstr Benchmark.asio_dispatch = some "asio_dispatch"
to_cstr Benchmark.asio_dispatch_wait = some "asio_dispatch_wait"
to_cstr Benchmark.asio_dispatch_strand = some "asio_dispatch_strand"
to_cstr Benchmark.asio_dispatch_strand_wait = some "asio_dispatch_strand_wait"
to_cstr Benchmark.asio_dispatch_threaded = some "asio_dispatch_threaded"
to_cstr Benchmark.asio_dispatch_threaded_wait = some "asio_dispatch_threaded_wait"
to_cstr Benchmark.asio_dispatch_strand_threaded_wait = some "asio_dispatch_strand_threaded_wait"
to_cstr Benchmark.asio_post = some "asio_post"
to_cstr Benchmark.asio_post_wait = some "asio_post_wait"
to_cstr Benchmark.asio_post_threaded = some "asio_post_threaded"
to_cstr Benchmark.asio_post_threaded_wait = some "asio_post_threaded_wait"
to_cstr Benchmark.asio_post_tail = some "asio_post_tail"
to_cstr Benchmark.asio_post_tail_strand = some "asio_post_tail_strand"
to_cstr Benchmark.asio_post_pingpong = some "asio_post_pingpong"
to_cstr Benchmark.asio_reset = some "asio_reset"
to_cstr Benchmark.asio_run = some "asio_run"
to_cstr Benchmark.atomic_increment = some "atomic_increment"
to_cstr Benchmark.atomic_cmp_exchg_weak_xpctd = some "atomic_cmp_exchg_weak_xpctd"
to_cstr Benchmark.atomic_cmp_exchg_weak_other = some "atomic_cmp_exchg_weak_other"
to_cstr Benchmark.atomic_cmp_exchg_strong_xpctd = some "atomic_cmp_exchg_strong_xpctd"
to_cstr Benchmark.atomic_cmp_exchg_strong_other = some "atomic_cmp_exchg_strong_other"
to_cstr Benchmark.atomic_pingpong = some "atomic_pingpong"
to_cstr Benchmark.condvar_broadcast = some "condvar_broadcast"
to_cstr Benchmark.condvar_create_destroy = some "condvar_create_destroy"
to_cstr Benchmark.condvar_signal = some "condvar_signal"
to_cstr Benchmark.condvar_signal_watched = some "condvar_signal_watched"
to_cstr Benchmark.chmod = some "chmod"
to_cstr Benchmark.chown = some "chown"
to_cstr Benchmark.directory_iter_0 = some "directory_iter_0"
to_cstr Benchmark.directory_iter_1 = some "directory_iter_1"
to_cstr Benchmark.directory_iter_64 = some "directory_iter_64"
to_cstr Benchmark.directory_iter_4k = some "directory_iter_4k"
to_cstr Benchmark.flock = some "flock"
to_cstr Benchmark.inotify = some "inotify"
to_cstr Benchmark.mkdir = some "mkdir"
to_cstr Benchmark.readdir_0 = some "readdir_0"
to_cstr Benchmark.readdir_1 = some "readdir_1"
to_cstr Benchmark.readdir_64 = some "readdir_64"
to_cstr Benchmark.readdir_4k = some "readdir_4k"
to_cstr Benchmark.rmdir = some "rmdir"
to_cstr Benchmark.exception_catch_all = some "exception_catch_all"
to_cstr Benchmark.exception_catch_std = some "exception_catch_std"
to_cstr Benchmark.exception_noexcept = some "exception_noexcept"
to_cstr Benchmark.exception_try = some "exception_try"
to_cstr Benchmark.file_append = some "file_append"
to_cstr Benchmark.file_close = some "file_close"
to_cstr Benchmark.file_create = some "file_create"
to_cstr Benchmark.file_fdatasync_0 = some "file_fdatasync_0"
to_cstr Benchmark.file_fdatasync_1 = some "file_fdatasync_1"
to_cstr Benchmark.file_fdatasync_block = some "file_fdatasync_block"
to_cstr Benchmark.file_fstat = some "file_fstat"
to_cstr Benchmark.file_fsync_0 = some "file_fsync_0"
to_cstr Benchmark.file_fsync_1 = some "file_fsync_1"
to_cstr Benchmark.file_fsync_block = some "file_fsync_block"
to_cstr Benchmark.file_lseek_random = some "file_lseek_random"
to_cstr Benchmark.file_open_nonexistent = some "file_open_nonexistent"
to_cstr Benchmark.file_open_ro = some "file_open_ro"
to_cstr Benchmark.file_open_rw = some "file_open_rw"
to_cstr Benchmark.file_open_trunc = some "file_open_trunc"
to_cstr Benchmark.file_read_256 = some "file_read_256"
to_cstr Benchmark.file_read_4k = some "file_read_4k"
to_cstr Benchmark.file_read_64k = some "file_read_64k"
to_cstr Benchmark.file_read_1m = some "file_read_1M"
to_cstr Benchmark.file_read_16m = some "file_read_16M"
to_cstr Benchmark.file_read_direct_4k = some "file_read_direct_4k"
to_cstr Benchmark.file_read_direct_64k = some "file_read_direct_64k"
to_cstr Benchmark.file_read_direct_1m = some "file_read_direct_1M"
to_cstr Benchmark.file_read_direct_16m = some "file_read_direct_16M"
to_cstr Benchmark.file_stat = some "file_stat"
to_cstr Benchmark.file_stat_nonexistent = some "file_stat_nonexistent"
to_cstr Benchmark.file_unlink = some "file_unlink"
to_cstr Benchmark.file_write_256 = some "file_write_256"
to_cstr Benchmark.file_write_4k = some "file_write_4k"
to_cstr Benchmark.file_write_64k = some "file_write_64k"
to_cstr Benchmark.file_write_1m = some "file_write_1M"
to_cstr Benchmark.file_write_16m = some "file_write_16M"
to_cstr Benchmark.file_write_direct_4k = some "file_write_direct_4k"
to_cstr Benchmark.file_write_direct_64k = some "file_write_direct_64k"
to_cstr Benchmark.file_write_direct_1m = some "file_write_direct_1M"
to_cstr Benchmark.file_write_direct_16m = some "file_write_direct_16M"
to_cstr Benchmark.function_args0 = some "function_args0"
to_cstr Benchmark.function_args1 = some "function_args1"
to_cstr Benchmark.function_args2 = some "function_args2"
to_cstr Benchmark.function_args3 = some "function_args3"
to_cstr Benchmark.function_args4 = some "function_args4"
to_cstr Benchmark.function_args5 = some "function_args5"
to_cstr Benchmark.function_args6 = some "function_args6"
to_cstr Benchmark.function_args7 = some "function_args7"
to_cstr Benchmark.member_function = some "member_function"
to_cstr Benchmark.member_function_shptr = some "member_function_shptr"
to_cstr Benchmark.virtual_function = some "virtual_function"
to_cstr Benchmark.new_delete_16 = some "new_delete_16"
to_cstr Benchmark.new_delete_256 = some "new_delete_256"
to_cstr Benchmark.new_delete_4k = some "new_delete_4k"
to_cstr Benchmark.new_delete_64k = some "new_delete_64k"
to_cstr Benchmark.new_delete_1m = some "new_delete_1M"
to_cstr Benchmark.new_delete_16m = some "new_delete_16M"
to_cstr Benchmark.new_delete_256m = some "new_delete_256M"
to_cstr Benchmark.new_delete_cold_16 = some "new_delete_cold_16"
to_cstr Benchmark.new_delete_cold_4k = some "new_delete_cold_4k"
to_cstr Benchmark.new_delete_cold_1m = some "new_delete_cold_1M"
to_cstr Benchmark.new_delete_cold_256m = some "new_delete_cold_256M"
to_cstr Benchmark.istream_string4 = some "istream_string4"
to_cstr Benchmark.istream_string64 = some "istream_string64"
to_cstr Benchmark.istream_smallint = some "istream_smallint"
to_cstr Benchmark.istream_maxint = some "istream_maxint"
to_cstr Benchmark.istream_maxint64 = some "istream_maxint64"
to_cstr Benchmark.istream_smallfloat = some "istream_smallfloat"
to_cstr Benchmark.istream_bigfloat = some "istream_bigfloat"
to_cstr Benchmark.istream_smalldouble = some "istream_smalldouble"
to_cstr Benchmark.istream_bigdouble = some "istream_bigdouble"
to_cstr Benchmark.memcpy_256 = some "memcpy_256"
to_cstr Benchmark.memcpy_4k = some "memcpy_4k"
to_cstr Benchmark.memcpy_64k = some "memcpy_64k"
to_cstr Benchmark.memcpy_1m = some "memcpy_1M"
to_cstr Benchmark.memcpy_16m = some "memcpy_16M"
to_cstr Benchmark.memcpy_256m = some "memcpy_256M"
to_cstr Benchmark.strcmp_16 = some "strcmp_16"
to_cstr Benchmark.strcmp_256 = some "strcmp_256"
to_cstr Benchmark.strcmp_4k = some "strcmp_4k"
to_cstr Benchmark.strcmp_64k = some "strcmp_64k"
to_cstr Benchmark.strcmp_1m = some "strcmp_1M"
to_cstr Benchmark.strcmp_16m = some "strcmp_16M"
to_cstr Benchmark.strcmp_256m = some "strcmp_256M"
to_cstr Benchmark.strlen_256 = some "strlen_256"
to_cstr Benchmark.strlen_4k = some "strlen_4k"
to_cstr Benchmark.strlen_64k = some "strlen_64k"
to_cstr Benchmark.strlen_1m = some "strlen_1M"
to_cstr Benchmark.strlen_16m = some "strlen_16M"
to_cstr Benchmark.strlen_256m = some "strlen_256M"
to_cstr Benchmark.strncpy_16 = some "strncpy_16"
to_cstr Benchmark.strncpy_256 = some "strncpy_256"
to_cstr Benchmark.strncpy_4k = some "strncpy_4k"
to_cstr Benchmark.strncpy_64k = some "strncpy_64k"
to_cstr Benchmark.strncpy_1m = some "strncpy_1M"
to_cstr Benchmark.strncpy_16m = some "strncpy_16M"
to_cstr Benchmark.strncpy_256m = some "strncpy_256M"
to_cstr Benchmark.memset_256 = some "memset_256"
to_cstr Benchmark.memset_4k = some "memset_4k"
to_cstr Benchmark.memset_64k = some "memset_64k"
to_cstr Benchmark.memset_1m = some "memset_1M"
to_cstr Benchmark.memset_16m = some "memset_16M"
to_cstr Benchmark.memset_256m = some "memset_256M"
to_cstr Benchmark.memread_256 = some "memread_256"
to_cstr Benchmark.memread_4k = some "memread_4k"
to_cstr Benchmark.memread_64k = some "memread_64k"
to_cstr Benchmark.memread_1m = some "memread_1M"
to_cstr Benchmark.memread_16m = some "memread_16M"
to_cstr Benchmark.memread_256m = some "memread_256M"
to_cstr Benchmark.cache_false_sharing = some "cache_false_sharing"
to_cstr Benchmark.mutex_create_destroy = some "mutex_create_destroy"
to_cstr Benchmark.mutex_lock_release = some "mutex_lock_release"
to_cstr Benchmark.mutex_trylock = some "mutex_trylock"
to_cstr Benchmark.ostream_string4 = some "ostream_string4"
to_cstr Benchmark.ostream_string64 = some "ostream_string64"
to_cstr Benchmark.ostream_cstr4 = some "ostream_cstr4"
to_cstr Benchmark.ostream_cstr64 = some "ostream_cstr64"
to_cstr Benchmark.ostream_smallint = some "ostream_smallint"
to_cstr Benchmark.ostream_maxint = some "ostream_maxint"
to_cstr Benchmark.ostream_maxint64 = some "ostream_maxint64"
to_cstr Benchmark.ostream_smallfloat = some "ostream_smallfloat"
to_cstr Benchmark.ostream_bigfloat = some "ostream_bigfloat"
to_cstr Benchmark.ostream_smalldouble = some "ostream_smalldouble"
to_cstr Benchmark.ostream_bigdouble = some "ostream_bigdouble"
to_cstr Benchmark.ostream_endl = some "ostream_endl"
to_cstr Benchmark.overhead_nullary = some "overhead_nullary"
to_cstr Benchmark.overhead_nullary_fn = some "overhead_nullary_fn"
to_cstr Benchmark.overhead_nullary_ptr = some "overhead_nullary_ptr"
to_cstr Benchmark.pipe_open_close = some "pipe_open_close"
to_cstr Benchmark.pipe_read = some "pipe_read"
to_cstr Benchmark.pipe_write = some "pipe_write"
to_cstr Benchmark.pipe_write_read_256 = some "pipe_write_read_256"
to_cstr Benchmark.pipe_write_read_1k = some "pipe_write_read_1k"
to_cstr Benchmark.pipe_write_read_4k = some "pipe_write_read_4k"
to_cstr Benchmark.pipe_write_read_16k = some "pipe_write_read_16k"
to_cstr Benchmark.pipe_write_read_64k = some "pipe_write_read_64k"
to_cstr Benchmark.pipe_pingpong_256 = some "pipe_pingpong_256"
to_cstr Benchmark.pipe_pingpong_1k = some "pipe_pingpong_1k"
to_cstr Benchmark.pipe_pingpong_4k = some "pipe_pingpong_4k"
to_cstr Benchmark.pipe_pingpong_16k = some "pipe_pingpong_16k"
to_cstr Benchmark.pipe_pingpong_64k = some "pipe_pingpong_64k"
to_cstr Benchmark.pipe_asio_read = some "pipe_asio_read"
to_cstr Benchmark.pipe_asio_read_async = some "pipe_asio_read_async"
to_cstr Benchmark.pipe_asio_write = some "pipe_asio_write"
to_cstr Benchmark.pipe_asio_write_async = some "pipe_asio_write_async"
to_cstr Benchmark.pipe_asio_write_read_256 = some "pipe_asio_write_read_256"
to_cstr Benchmark.pipe_asio_write_read_1k = some "pipe_asio_write_read_1k"
to_cstr Benchmark.pipe_asio_write_read_4k = some "pipe_asio_write_read_4k"
to_cstr Benchmark.pipe_asio_write_read_16k = some "pipe_asio_write_read_16k"
to_cstr Benchmark.pipe_asio_write_read_64k = some "pipe_asio_write_read_64k"
to_cstr Benchmark.pipe_asio_pingpong = some "pipe_asio_pingpong"
to_cstr Benchmark.pipe_asio_pingpong_threaded = some "pipe_asio_pingpong_threaded"
to_cstr Benchmark.epoll_1 = some "epoll_1"
to_cstr Benchmark.epoll_8 = some "epoll_8"
to_cstr Benchmark.epoll_64 = some "epoll_64"
to_cstr Benchmark.epoll_768 = some "epoll_768"
to_cstr Benchmark.poll_1 = some "poll_1"
to_cstr Benchmark.poll_8 = some "poll_8"
to_cstr Benchmark.poll_64 = some "poll_64"
to_cstr Benchmark.poll_768 = some "poll_768"
to_cstr Benchmark.select_1 = some "select_1"
to_cstr Benchmark.select_8 = some "select_8"
to_cstr Benchmark.select_64 = some "select_64"
to_cstr Benchmark.select_768 = some "select_768"
to_cstr Benchmark.fork = some "fork"
to_cstr Benchmark.fork_waitpid = some "fork_waitpid"
to_cstr Benchmark.fork_exec_waitpid = some "fork_exec_waitpid"
to_cstr Benchmark.system = some "system"
to_cstr Benchmark.deque_int32_copy16 = some "deque_int32_copy16"
to_cstr Benchmark.deque_int32_copy256 = some "deque_int32_copy256"
to_cstr Benchmark.deque_int32_copy4k = some "deque_int32_copy4k"
to_cstr Benchmark.deque_int32_copy64k = some "deque_int32_copy64k"
to_cstr Benchmark.deque_int32_copy1m = some "deque_int32_copy1M"
to_cstr Benchmark.deque_int32_destroy16 = some "deque_int32_destroy16"
to_cstr Benchmark.deque_int32_destroy256 = some "deque_int32_destroy256"
to_cstr Benchmark.deque_int32_destroy4k = some "deque_int32_destroy4k"
to_cstr Benchmark.deque_int32_destroy64k = some "deque_int32_destroy64k"
to_cstr Benchmark.deque_int32_destroy1m = some "deque_int32_destroy1M"
to_cstr Benchmark.deque_int32_find1 = some "deque_int32_find1"
to_cstr Benchmark.deque_int32_find16 = some "deque_int32_find16"
to_cstr Benchmark.deque_int32_find256 = some "deque_int32_find256"
to_cstr Benchmark.deque_int32_find4k = some "deque_int32_find4k"
to_cstr Benchmark.deque_int32_find64k = some "deque_int32_find64k"
to_cstr Benchmark.deque_int32_find1m = some "deque_int32_find1M"
to_cstr Benchmark.deque_int32_insert16 = some "deque_int32_insert16"
to_cstr Benchmark.deque_int32_insert256 = some "deque_int32_insert256"
to_cstr Benchmark.deque_int32_insert4k = some "deque_int32_insert4k"
to_cstr Benchmark.deque_int32_insert64k = some "deque_int32_insert64k"
to_cstr Benchmark.deque_int32_insert1m = some "deque_int32_insert1M"
to_cstr Benchmark.deque_int32_iterate16 = some "deque_int32_iterate16"
to_cstr Benchmark.deque_int32_iterate256 = some "deque_int32_iterate256"
to_cstr Benchmark.deque_int32_iterate4k = some "deque_int32_iterate4k"
to_cstr Benchmark.deque_int32_iterate64k = some "deque_int32_iterate64k"
to_cstr Benchmark.deque_int32_iterate1m = some "deque_int32_iterate1M"
to_cstr Benchmark.deque_int64_copy64k = some "deque_int64_copy64k"
to_cstr Benchmark.deque_int64_destroy64k = some "deque_int64_destroy64k"
to_cstr Benchmark.deque_int64_find64k = some "deque_int64_find64k"
to_cstr Benchmark.deque_int64_insert4k = some "deque_int64_insert4k"
to_cstr Benchmark.deque_int64_iterate64k = some "deque_int64_iterate64k"
to_cstr Benchmark.deque_float_copy64k = some "deque_float_copy64k"
to_cstr Benchmark.deque_float_destroy64k = some "deque_float_destroy64k"
to_cstr Benchmark.deque_float_find64k = some "deque_float_find64k"
to_cstr Benchmark.deque_float_insert4k = some "deque_float_insert4k"
to_cstr Benchmark.deque_float_iterate64k = some "deque_float_iterate64k"
to_cstr Benchmark.deque_double_copy64k = some "deque_double_copy64k"
to_cstr Benchmark.deque_double_destroy64k = some "deque_double_destroy64k"
to_cstr Benchmark.deque_double_find64k = some "deque_double_find64k"
to_cstr Benchmark.deque_double_insert4k = some "deque_double_insert4k"
to_cstr Benchmark.deque_double_iterate64k = some "deque_double_iterate64k"
to_cstr Benchmark.deque_string_copy64k = some "deque_string_copy64k"
to_cstr Benchmark.deque_string_destroy64k = some "deque_string_destroy64k"
to_cstr Benchmark.deque_string_find64k = some "deque_string_find64k"
to_cstr Benchmark.deque_string_insert4k = some "deque_string_insert4k"
to_cstr Benchmark.deque_string_iterate64k = some "deque_string_iterate64k"
to_cstr Benchmark.hash_int8 = some "hash_int8"
to_cstr Benchmark.hash_int16 = some "hash_int16"
to_cstr Benchmark.hash_int32 = some "hash_int32"
to_cstr Benchmark.hash_int64 = some "hash_int64"
to_cstr Benchmark.hash_float = some "hash_float"
to_cstr Benchmark.hash_double = some "hash_double"
to_cstr Benchmark.hash_string_1 = some "hash_string_1"
to_cstr Benchmark.hash_string_16 = some "hash_string_16"
to_cstr Benchmark.hash_string_256 = some "hash_string_256"
to_cstr Benchmark.hash_string_4k = some "hash_string_4k"
to_cstr Benchmark.hash_string_64k = some "hash_string_64k"
to_cstr Benchmark.hashset_int32_copy16 = some "hashset_int32_copy16"
to_cstr Benchmark.hashset_int32_copy256 = some "hashset_int32_copy256"
to_cstr Benchmark.hashset_int32_copy4k = some "hashset_int32_copy4k"
to_cstr Benchmark.hashset_int32_copy64k = some "hashset_int32_copy64k"
to_cstr Benchmark.hashset_int32_copy1m = some "hashset_int32_copy1M"
to_cstr Benchmark.hashset_int32_destroy16 = some "hashset_int32_destroy16"
to_cstr Benchmark.hashset_int32_destroy256 = some "hashset_int32_destroy256"
to_cstr Benchmark.hashset_int32_destroy4k = some "hashset_int32_destroy4k"
to_cstr Benchmark.hashset_int32_destroy64k = some "hashset_int32_destroy64k"
to_cstr Benchmark.hashset_int32_destroy1m = some "hashset_int32_destroy1M"
to_cstr Benchmark.hashset_int32_find1 = some "hashset_int32_find1"
to_cstr Benchmark.hashset_int32_find16 = some "hashset_int32_find16"
to_cstr Benchmark.hashset_int32_find256 = some "hashset_int32_find256"
to_cstr Benchmark.hashset_int32_find4k = some "hashset_int32_find4k"
to_cstr Benchmark.hashset_int32_find64k = some "hashset_int32_find64k"
to_cstr Benchmark.hashset_int32_find1m = some "hashset_int32_find1M"
to_cstr Benchmark.hashset_int32_insert16 = some "hashset_int32_insert16"
to_cstr Benchmark.hashset_int32_insert256 = some "hashset_int32_insert256"
to_cstr Benchmark.hashset_int32_insert4k = some "hashset_int32_insert4k"
to_cstr Benchmark.hashset_int32_insert64k = some "hashset_int32_insert64k"
to_cstr Benchmark.hashset_int32_insert1m = some "hashset_int32_insert1M"
to_cstr Benchmark.hashset_int32_iterate16 = some "hashset_int32_iterate16"
to_cstr Benchmark.hashset_int32_iterate256 = some "hashset_int32_iterate256"
to_cstr Benchmark.hashset_int32_iterate4k = some "hashset_int32_iterate4k"
to_cstr Benchmark.hashset_int32_iterate64k = some "hashset_int32_iterate64k"
to_cstr Benchmark.hashset_int32_iterate1m = some "hashset_int32_iterate1M"
to_cstr Benchmark.hashset_int64_copy64k = some "hashset_int64_copy64k"
to_cstr Benchmark.hashset_int64_destroy64k = some "hashset_int64_destroy64k"
to_cstr Benchmark.hashset_int64_find64k = some "hashset_int64_find64k"
to_cstr Benchmark.hashset_int64_insert4k = some "hashset_int64_insert4k"
to_cstr Benchmark.hashset_int64_iterate64k = some "hashset_int64_iterate64k"
to_cstr Benchmark.hashset_float_copy64k = some "hashset_float_copy64k"
to_cstr Benchmark.hashset_float_destroy64k = some "hashset_float_destroy64k"
to_cstr Benchmark.hashset_float_find64k = some "hashset_float_find64k"
to_cstr Benchmark.hashset_float_insert4k = some "hashset_float_insert4k"
to_cstr Benchmark.hashset_float_iterate64k = some "hashset_float_iterate64k"
to_cstr Benchmark.hashset_double_copy64k = some "hashset_double_copy64k"
to_cstr Benchmark.hashset_double_destroy64k = some "hashset_double_destroy64k"
to_cstr Benchmark.hashset_double_find64k = some "hashset_double_find64k"
to_cstr Benchmark.hashset_double_insert4k = some "hashset_double_insert4k"
to_cstr Benchmark.hashset_double_iterate64k = some "hashset_double_iterate64k"
to_cstr Benchmark.hashset_string_copy64k = some "hashset_string_copy64k"
to_cstr Benchmark.hashset_string_destroy64k = some "hashset_string_destroy64k"
to_cstr Benchmark.hashset_string_find64k = some "hashset_string_find64k"
to_cstr Benchmark.hashset_string_insert4k = some "hashset_string_insert4k"
to_cstr Benchmark.hashset_string_iterate64k = some "hashset_string_iterate64k"
to_cstr Benchmark.list_int32_copy16 = some "list_int32_copy16"
to_cstr Benchmark.list_int32_copy256 = some "list_int32_copy256"
to_cstr Benchmark.list_int32_copy4k = some "list_int32_copy4k"
to_cstr Benchmark.list_int32_copy64k = some "list_int32_copy64k"
to_cstr Benchmark.list_int32_copy1m = some "list_int32_copy1M"
to_cstr Benchmark.list_int32_destroy16 = some "list_int32_destroy16"
to_cstr Benchmark.list_int32_destroy256 = some "list_int32_destroy256"
to_cstr Benchmark.list_int32_destroy4k = some "list_int32_destroy4k"
to_cstr Benchmark.list_int32_destroy64k = some "list_int32_destroy64k"
to_cstr Benchmark.list_int32_destroy1m = some "list_int32_destroy1M"
to_cstr Benchmark.list_int32_find1 = some "list_int32_find1"
to_cstr Benchmark.list_int32_find16 = some "list_int32_find16"
to_cstr Benchmark.list_int32_find256 = some "list_int32_find256"
to_cstr Benchmark.list_int32_find4k = some "list_int32_find4k"
to_cstr Benchmark.list_int32_find64k = some "list_int32_find64k"
to_cstr Benchmark.list_int32_find1m = some "list_int32_find1M"
to_cstr Benchmark.list_int32_insert16 = some "list_int32_insert16"
to_cstr Benchmark.list_int32_insert256 = some "list_int32_insert256"
to_cstr Benchmark.list_int32_insert4k = some "list_int32_insert4k"
to_cstr Benchmark.list_int32_insert64k = some "list_int32_insert64k"
to_cstr Benchmark.list_int32_insert1m = some "list_int32_insert1M"
to_cstr Benchmark.list_int32_iterate16 = some "list_int32_iterate16"
to_cstr Benchmark.list_int32_iterate256 = some "list_int32_iterate256"
to_cstr Benchmark.list_int32_iterate4k = some "list_int32_iterate4k"
to_cstr Benchmark.list_int32_iterate64k = some "list_int32_iterate64k"
to_cstr Benchmark.list_int32_iterate1m = some "list_int32_iterate1M"
to_cstr Benchmark.list_int64_copy64k = some "list_int64_copy64k"
to_cstr Benchmark.list_int64_destroy64k = some "list_int64_destroy64k"
to_cstr Benchmark.list_int64_find64k = some "list_int64_find64k"
to_cstr Benchmark.list_int64_insert4k = some "list_int64_insert4k"
to_cstr Benchmark.list_int64_iterate64k = some "list_int64_iterate64k"
to_cstr Benchmark.list_float_copy64k = some "list_float_copy64k"
to_cstr Benchmark.list_float_destroy64k = some "list_float_destroy64k"
to_cstr Benchmark.list_float_find64k = some "list_float_find64k"
to_cstr Benchmark.list_float_insert4k = some "list_float_insert4k"
to_cstr Benchmark.list_float_iterate64k = some "list_float_iterate64k"
to_cstr Benchmark.list_double_copy64k = some "list_double_copy64k"
to_cstr Benchmark.list_double_destroy64k = some "list_double_destroy64k"
to_cstr Benchmark.list_double_find64k = some "list_double_find64k"
to_cstr Benchmark.list_double_insert4k = some "list_double_insert4k"
to_cstr Benchmark.list_double_iterate64k = some "list_double_iterate64k"
to_cstr Benchmark.list_string_copy64k = some "list_string_copy64k"
to_cstr Benchmark.list_string_destroy64k = some "list_string_destroy64k"
to_cstr Benchmark.list_string_find64k = some "list_string_find64k"
to_cstr Benchmark.list_string_insert4k = some "list_string_insert4k"
to_cstr Benchmark.list_string_iterate64k = some "list_string_iterate64k"
to_cstr Benchmark.set_int32_copy16 = some "set_int32_copy16"
to_cstr Benchmark.set_int32_copy256 = some "set_int32_copy256"
to_cstr Benchmark.set_int32_copy4k = some "set_int32_copy4k"
to_cstr Benchmark.set_int32_copy64k = some "set_int32_copy64k"
to_cstr Benchmark.set_int32_copy1m = some "set_int32_copy1M"
to_cstr Benchmark.set_int32_destroy16 = some "set_int32_destroy16"
to_cstr Benchmark.set_int32_destroy256 = some "set_int32_destroy256"
to_cstr Benchmark.set_int32_destroy4k = some "set_int32_destroy4k"
to_cstr Benchmark.set_int32_destroy64k = some "set_int32_destroy64k"
to_cstr Benchmark.set_int32_destroy1m = some "set_int32_destroy1M"
to_cstr Benchmark.set_int32_find1 = some "set_int32_find1"
to_cstr Benchmark.set_int32_find16 = some "set_int32_find16"
to_cstr Benchmark.set_int32_find256 = some "set_int32_find256"
to_cstr Benchmark.set_int32_find4k = some "set_int32_find4k"
to_cstr Benchmark.set_int32_find64k = some "set_int32_find64k"
to_cstr Benchmark.set_int32_find1m = some "set_int32_find1M"
to_cstr Benchmark.set_int32_insert16 = some "set_int32_insert16"
to_cstr Benchmark.set_int32_insert256 = some "set_int32_insert256"
to_cstr Benchmark.set_int32_insert4k = some "set_int32_insert4k"
to_cstr Benchmark.set_int32_insert64k = some "set_int32_insert64k"
to_cstr Benchmark.set_int32_insert1m = some "set_int32_insert1M"
to_cstr Benchmark.set_int32_iterate16 = some "set_int32_iterate16"
to_cstr Benchmark.set_int32_iterate256 = some "set_int32_iterate256"
to_cstr Benchmark.set_int32_iterate4k = some "set_int32_iterate4k"
to_cstr Benchmark.set_int32_iterate64k = some "set_int32_iterate64k"
to_cstr Benchmark.set_int32_iterate1m = some "set_int32_iterate1M"
to_cstr Benchmark.set_int64_copy64k = some "set_int64_copy64k"
to_cstr Benchmark.set_int64_destroy64k = some "set_int64_destroy64k"
to_cstr Benchmark.set_int64_find64k = some "set_int64_find64k"
to_cstr Benchmark.set_int64_insert4k = some "set_int64_insert4k"
to_cstr Benchmark.set_int64_iterate64k = some "set_int64_iterate64k"
to_cstr Benchmark.set_float_copy64k = some "set_float_copy64k"
to_cstr Benchmark.set_float_destroy64k = some "set_float_destroy64k"
to_cstr Benchmark.set_float_find64k = some "set_float_find64k"
to_cstr Benchmark.set_float_insert4k = some "set_float_insert4k"
to_cstr Benchmark.set_float_iterate64k = some "set_float_iterate64k"
to_cstr Benchmark.set_double_copy64k = some "set_double_copy64k"
to_cstr Benchmark.set_double_destroy64k = some "set_double_destroy64k"
to_cstr Benchmark.set_double_find64k = some "set_double_find64k"
to_cstr Benchmark.set_double_insert4k = some "set_double_insert4k"
to_cstr Benchmark.set_double_iterate64k = some "set_double_iterate64k"
to_cstr Benchmark.set_string_copy64k = some "set_string_copy64k"
to_cstr Benchmark.set_string_destroy64k = some "set_string_destroy64k"
to_cstr Benchmark.set_string_find64k = some "set_string_find64k"
to_cstr Benchmark.set_string_insert4k = some "set_string_insert4k"
to_cstr Benchmark.set_string_iterate64k = some "set_string_iterate64k"
to_cstr Benchmark.vec_int32_copy4k = some "vec_int32_copy4k"
to_cstr Benchmark.vec_int32_copy64k = some "vec_int32_copy64k"
to_cstr Benchmark.vec_int32_copy1m = some "vec_int32_copy1M"
to_cstr Benchmark.vec_int32_destroy64k = some "vec_int32_destroy64k"
to_cstr Benchmark.vec_int32_destroy1m = some "vec_int32_destroy1M"
to_cstr Benchmark.vec_int32_find1 = some "vec_int32_find1"
to_cstr Benchmark.vec_int32_find16 = some "vec_int32_find16"
to_cstr Benchmark.vec_int32_find256 = some "vec_int32_find256"
to_cstr Benchmark.vec_int32_find4k = some "vec_int32_find4k"
to_cstr Benchmark.vec_int32_find64k = some "vec_int32_find64k"
to_cstr Benchmark.vec_int32_find1m = some "vec_int32_find1M"
to_cstr Benchmark.vec_int32_insert16 = some "vec_int32_insert16"
to_cstr Benchmark.vec_int32_insert256 = some "vec_int32_insert256"
to_cstr Benchmark.vec_int32_insert4k = some "vec_int32_insert4k"
to_cstr Benchmark.vec_int32_insert64k = some "vec_int32_insert64k"
to_cstr Benchmark.vec_int32_insert1m = some "vec_int32_insert1M"
to_cstr Benchmark.vec_int32_iterate16 = some "vec_int32_iterate16"
to_cstr Benchmark.vec_int32_iterate256 = some "vec_int32_iterate256"
to_cstr Benchmark.vec_int32_iterate4k = some "vec_int32_iterate4k"
to_cstr Benchmark.vec_int32_iterate64k = some "vec_int32_iterate64k"
to_cstr Benchmark.vec_int32_iterate1m = some "vec_int32_iterate1M"
to_cstr Benchmark.vec_int64_copy64k = some "vec_int64_copy64k"
to_cstr Benchmark.vec_int64_destroy64k = some "vec_int64_destroy64k"
to_cstr Benchmark.vec_int64_find64k = some "vec_int64_find64k"
to_cstr Benchmark.vec_int64_insert4k = some "vec_int64_insert4k"
to_cstr Benchmark.vec_int64_iterate64k = some "vec_int64_iterate64k"
to_cstr Benchmark.vec_float_copy64k = some "vec_float_copy64k"
to_cstr Benchmark.vec_float_destroy64k = some "vec_float_destroy64k"
to_cstr Benchmark.vec_float_find64k = some "vec_float_find64k"
to_cstr Benchmark.vec_float_insert4k = some "vec_float_insert4k"
to_cstr Benchmark.vec_float_iterate64k = some "vec_float_iterate64k"
to_cstr Benchmark.vec_double_copy64k = some "vec_double_copy64k"
to_cstr Benchmark.vec_double_destroy64k = some "vec_double_destroy64k"
to_cstr Benchmark.vec_double_find64k = some "vec_double_find64k"
to_cstr Benchmark.vec_double_insert4k = some "vec_double_insert4k"
to_cstr Benchmark.vec_double_iterate64k = some "vec_double_iterate64k"
to_cstr Benchmark.vec_string_copy64k = some "vec_string_copy64k"
to_cstr Benchmark.vec_string_destroy64k = some "vec_string_destroy64k"
to_cstr Benchmark.vec_string_find64k = some "vec_string_find64k"
to_cstr Benchmark.vec_string_insert4k = some "vec_string_insert4k"
to_cstr Benchmark.vec_string_iterate64k = some "vec_string_iterate64k"
to_cstr Benchmark.string_from_smallint = some "string_from_smallint"
to_cstr Benchmark.string_from_maxint = some "string_from_maxint"
to_cstr Benchmark.string_from_maxint64 = some "string_from_maxint64"
to_cstr Benchmark.string_from_smallfloat = some "string_from_smallfloat"
to_cstr Benchmark.string_from_bigfloat = some "string_from_bigfloat"
to_cstr Benchmark.string_from_smalldouble = some "string_from_smalldouble"
to_cstr Benchmark.string_from_bigdouble = some "string_from_bigdouble"
to_cstr Benchmark.string_to_smallint = some "string_to_smallint"
to_cstr Benchmark.string_to_maxint = some "string_to_maxint"
to_cstr Benchmark.string_to_maxint64 = some "string_to_maxint64"
to_cstr Benchmark.string_to_smallfloat_os = some "string_to_smallfloat_os"
to_cstr Benchmark.string_to_smallfloat_ts = some "string_to_smallfloat_ts"
to_cstr Benchmark.string_to_bigfloat_os = some "string_to_bigfloat_os"
to_cstr Benchmark.string_to_bigfloat_ts = some "string_to_bigfloat_ts"
to_cstr Benchmark.string_to_smalldouble_os = some "string_to_smalldouble_os"
to_cstr Benchmark.string_to_smalldouble_ts = some "string_to_smalldouble_ts"
to_cstr Benchmark.string_to_bigdouble_os = some "string_to_bigdouble_os"
to_cstr Benchmark.string_to_bigdouble_ts = some "string_to_bigdouble_ts"
to_cstr Benchmark.thread_create_destroy = some "thread_create_destroy"
to_cstr Benchmark.thread_pingpong = some "thread_pingpong"
to_cstr Benchmark.fibonacci_u64 = some "fibonacci_u64"
to_cstr Benchmark.mandelbrot_256 = some "mandelbrot_256"
to_cstr Benchmark.trigonometry = some "trigonometry"
