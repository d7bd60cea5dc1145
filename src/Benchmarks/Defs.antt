-- ===== src/Benchmarks/Defs.antt =====
-- `enum class Benchmark` of bench/list.hpp, in the order of its declaration.
use cpp_autotime.Prelude.{ℕ}

pub data Benchmark : Type 0 where
  asio_dispatch asio_dispatch_wait asio_dispatch_strand asio_dispatch_strand_wait : Benchmark
  asio_dispatch_threaded asio_dispatch_threaded_wait : Benchmark
  asio_dispatch_strand_threaded_wait asio_post asio_post_wait asio_post_threaded : Benchmark
  asio_post_threaded_wait asio_post_tail asio_post_tail_strand asio_post_pingpong : Benchmark
  asio_reset asio_run atomic_increment atomic_cmp_exchg_weak_xpctd : Benchmark
  atomic_cmp_exchg_weak_other atomic_cmp_exchg_strong_xpctd : Benchmark
  atomic_cmp_exchg_strong_other atomic_pingpong condvar_broadcast : Benchmark
  condvar_create_destroy condvar_signal condvar_signal_watched chmod chown : Benchmark
  directory_iter_0 directory_iter_1 directory_iter_64 directory_iter_4k flock : Benchmark
  inotify mkdir readdir_0 readdir_1 readdir_64 readdir_4k rmdir exception_catch_all : Benchmark
  exception_catch_std exception_noexcept exception_try file_append file_close : Benchmark
  file_create file_fdatasync_0 file_fdatasync_1 file_fdatasync_block file_fstat : Benchmark
  file_fsync_0 file_fsync_1 file_fsync_block file_lseek_random : Benchmark
  file_open_nonexistent file_open_ro file_open_rw file_open_trunc file_read_256 : Benchmark
  file_read_4k file_read_64k file_read_1m file_read_16m file_read_direct_4k : Benchmark
  file_read_direct_64k file_read_direct_1m file_read_direct_16m file_stat : Benchmark
  file_stat_nonexistent file_unlink file_write_256 file_write_4k file_write_64k : Benchmark
  file_write_1m file_write_16m file_write_direct_4k file_write_direct_64k : Benchmark
  file_write_direct_1m file_write_direct_16m function_args0 function_args1 : Benchmark
  function_args2 function_args3 function_args4 function_args5 function_args6 : Benchmark
  function_args7 member_function member_function_shptr virtual_function : Benchmark
  new_delete_16 new_delete_256 new_delete_4k new_delete_64k new_delete_1m : Benchmark
  new_delete_16m new_delete_256m new_delete_cold_16 new_delete_cold_4k : Benchmark
  new_delete_cold_1m new_delete_cold_256m istream_string4 istream_string64 : Benchmark
  istream_smallint istream_maxint istream_maxint64 istream_smallfloat : Benchmark
  istream_bigfloat istream_smalldouble istream_bigdouble memcpy_256 memcpy_4k : Benchmark
  memcpy_64k memcpy_1m memcpy_16m memcpy_256m strcmp_16 strcmp_256 strcmp_4k : Benchmark
  strcmp_64k strcmp_1m strcmp_16m strcmp_256m strlen_256 strlen_4k strlen_64k : Benchmark
  strlen_1m strlen_16m strlen_256m strncpy_16 strncpy_256 strncpy_4k strncpy_64k : Benchmark
  strncpy_1m strncpy_16m strncpy_256m memset_256 memset_4k memset_64k memset_1m : Benchmark
  memset_16m memset_256m memread_256 memread_4k memread_64k memread_1m memread_16m : Benchmark
  memread_256m cache_false_sharing mutex_create_destroy mutex_lock_release : Benchmark
  mutex_trylock ostream_string4 ostream_string64 ostream_cstr4 ostream_cstr64 : Benchmark
  ostream_smallint ostream_maxint ostream_maxint64 ostream_smallfloat : Benchmark
  ostream_bigfloat ostream_smalldouble ostream_bigdouble ostream_endl : Benchmark
  overhead_nullary overhead_nullary_fn overhead_nullary_ptr pipe_open_close : Benchmark
  pipe_read pipe_write pipe_write_read_256 pipe_write_read_1k pipe_write_read_4k : Benchmark
  pipe_write_read_16k pipe_write_read_64k pipe_pingpong_256 pipe_pingpong_1k : Benchmark
  pipe_pingpong_4k pipe_pingpong_16k pipe_pingpong_64k pipe_asio_read : Benchmark
  pipe_asio_read_async pipe_asio_write pipe_asio_write_async : Benchmark
  pipe_asio_write_read_256 pipe_asio_write_read_1k pipe_asio_write_read_4k : Benchmark
  pipe_asio_write_read_16k pipe_asio_write_read_64k pipe_asio_pingpong : Benchmark
  pipe_asio_pingpong_threaded epoll_1 epoll_8 epoll_64 epoll_768 poll_1 poll_8 : Benchmark
  poll_64 poll_768 select_1 select_8 select_64 select_768 fork fork_waitpid : Benchmark
  fork_exec_waitpid system deque_int32_copy16 deque_int32_copy256 : Benchmark
  deque_int32_copy4k deque_int32_copy64k deque_int32_copy1m deque_int32_destroy16 : Benchmark
  deque_int32_destroy256 deque_int32_destroy4k deque_int32_destroy64k : Benchmark
  deque_int32_destroy1m deque_int32_find1 deque_int32_find16 deque_int32_find256 : Benchmark
  deque_int32_find4k deque_int32_find64k deque_int32_find1m deque_int32_insert16 : Benchmark
  deque_int32_insert256 deque_int32_insert4k deque_int32_insert64k : Benchmark
  deque_int32_insert1m deque_int32_iterate16 deque_int32_iterate256 : Benchmark
  deque_int32_iterate4k deque_int32_iterate64k deque_int32_iterate1m : Benchmark
  deque_int64_copy64k deque_int64_destroy64k deque_int64_find64k : Benchmark
  deque_int64_insert4k deque_int64_iterate64k deque_float_copy64k : Benchmark
  deque_float_destroy64k deque_float_find64k deque_float_insert4k : Benchmark
  deque_float_iterate64k deque_double_copy64k deque_double_destroy64k : Benchmark
  deque_double_find64k deque_double_insert4k deque_double_iterate64k : Benchmark
  deque_string_copy64k deque_string_destroy64k deque_string_find64k : Benchmark
  deque_string_insert4k deque_string_iterate64k hash_int8 hash_int16 hash_int32 : Benchmark
  hash_int64 hash_float hash_double hash_string_1 hash_string_16 hash_string_256 : Benchmark
  hash_string_4k hash_string_64k hashset_int32_copy16 hashset_int32_copy256 : Benchmark
  hashset_int32_copy4k hashset_int32_copy64k hashset_int32_copy1m : Benchmark
  hashset_int32_destroy16 hashset_int32_destroy256 hashset_int32_destroy4k : Benchmark
  hashset_int32_destroy64k hashset_int32_destroy1m hashset_int32_find1 : Benchmark
  hashset_int32_find16 hashset_int32_find256 hashset_int32_find4k : Benchmark
  hashset_int32_find64k hashset_int32_find1m hashset_int32_insert16 : Benchmark
  hashset_int32_insert256 hashset_int32_insert4k hashset_int32_insert64k : Benchmark
  hashset_int32_insert1m hashset_int32_iterate16 hashset_int32_iterate256 : Benchmark
  hashset_int32_iterate4k hashset_int32_iterate64k hashset_int32_iterate1m : Benchmark
  hashset_int64_copy64k hashset_int64_destroy64k hashset_int64_find64k : Benchmark
  hashset_int64_insert4k hashset_int64_iterate64k hashset_float_copy64k : Benchmark
  hashset_float_destroy64k hashset_float_find64k hashset_float_insert4k : Benchmark
  hashset_float_iterate64k hashset_double_copy64k hashset_double_destroy64k : Benchmark
  hashset_double_find64k hashset_double_insert4k hashset_double_iterate64k : Benchmark
  hashset_string_copy64k hashset_string_destroy64k hashset_string_find64k : Benchmark
  hashset_string_insert4k hashset_string_iterate64k list_int32_copy16 : Benchmark
  list_int32_copy256 list_int32_copy4k list_int32_copy64k list_int32_copy1m : Benchmark
  list_int32_destroy16 list_int32_destroy256 list_int32_destroy4k : Benchmark
  list_int32_destroy64k list_int32_destroy1m list_int32_find1 list_int32_find16 : Benchmark
  list_int32_find256 list_int32_find4k list_int32_find64k list_int32_find1m : Benchmark
  list_int32_insert16 list_int32_insert256 list_int32_insert4k list_int32_insert64k : Benchmark
  list_int32_insert1m list_int32_iterate16 list_int32_iterate256 : Benchmark
  list_int32_iterate4k list_int32_iterate64k list_int32_iterate1m : Benchmark
  list_int64_copy64k list_int64_destroy64k list_int64_find64k list_int64_insert4k : Benchmark
  list_int64_iterate64k list_float_copy64k list_float_destroy64k list_float_find64k : Benchmark
  list_float_insert4k list_float_iterate64k list_double_copy64k : Benchmark
  list_double_destroy64k list_double_find64k list_double_insert4k : Benchmark
  list_double_iterate64k list_string_copy64k list_string_destroy64k : Benchmark
  list_string_find64k list_string_insert4k list_string_iterate64k set_int32_copy16 : Benchmark
  set_int32_copy256 set_int32_copy4k set_int32_copy64k set_int32_copy1m : Benchmark
  set_int32_destroy16 set_int32_destroy256 set_int32_destroy4k set_int32_destroy64k : Benchmark
  set_int32_destroy1m set_int32_find1 set_int32_find16 set_int32_find256 : Benchmark
  set_int32_find4k set_int32_find64k set_int32_find1m set_int32_insert16 : Benchmark
  set_int32_insert256 set_int32_insert4k set_int32_insert64k set_int32_insert1m : Benchmark
  set_int32_iterate16 set_int32_iterate256 set_int32_iterate4k set_int32_iterate64k : Benchmark
  set_int32_iterate1m set_int64_copy64k set_int64_destroy64k set_int64_find64k : Benchmark
  set_int64_insert4k set_int64_iterate64k set_float_copy64k set_float_destroy64k : Benchmark
  set_float_find64k set_float_insert4k set_float_iterate64k set_double_copy64k : Benchmark
  set_double_destroy64k set_double_find64k set_double_insert4k : Benchmark
  set_double_iterate64k set_string_copy64k set_string_destroy64k set_string_find64k : Benchmark
  set_string_insert4k set_string_iterate64k vec_int32_copy4k vec_int32_copy64k : Benchmark
  vec_int32_copy1m vec_int32_destroy64k vec_int32_destroy1m vec_int32_find1 : Benchmark
  vec_int32_find16 vec_int32_find256 vec_int32_find4k vec_int32_find64k : Benchmark
  vec_int32_find1m vec_int32_insert16 vec_int32_insert256 vec_int32_insert4k : Benchmark
  vec_int32_insert64k vec_int32_insert1m vec_int32_iterate16 vec_int32_iterate256 : Benchmark
  vec_int32_iterate4k vec_int32_iterate64k vec_int32_iterate1m vec_int64_copy64k : Benchmark
  vec_int64_destroy64k vec_int64_find64k vec_int64_insert4k vec_int64_iterate64k : Benchmark
  vec_float_copy64k vec_float_destroy64k vec_float_find64k vec_float_insert4k : Benchmark
  vec_float_iterate64k vec_double_copy64k vec_double_destroy64k vec_double_find64k : Benchmark
  vec_double_insert4k vec_double_iterate64k vec_string_copy64k : Benchmark
  vec_string_destroy64k vec_string_find64k vec_string_insert4k : Benchmark
  vec_string_iterate64k string_from_smallint string_from_maxint : Benchmark
  string_from_maxint64 string_from_smallfloat string_from_bigfloat : Benchmark
  string_from_smalldouble string_from_bigdouble string_to_smallint string_to_maxint : Benchmark
  string_to_maxint64 string_to_smallfloat_os string_to_smallfloat_ts : Benchmark
  string_to_bigfloat_os string_to_bigfloat_ts string_to_smalldouble_os : Benchmark
  string_to_smalldouble_ts string_to_bigdouble_os string_to_bigdouble_ts : Benchmark
  thread_create_destroy thread_pingpong fibonacci_u64 mandelbrot_256 trigonometry : Benchmark

-- The value of the enumerator.
unfoldable pub underlying : Benchmark → ℕ
underlying asio_dispatch = 0
underlying asio_dispatch_wait = 1
underlying asio_dispatch_strand = 2
underlying asio_dispatch_strand_wait = 3
underlying asio_dispatch_threaded = 4
underlying asio_dispatch_threaded_wait = 5
underlying asio_dispatch_strand_threaded_wait = 6
underlying asio_post = 7
underlying asio_post_wait = 8
underlying asio_post_threaded = 9
underlying asio_post_threaded_wait = 10
underlying asio_post_tail = 11
underlying asio_post_tail_strand = 12
underlying asio_post_pingpong = 13
underlying asio_reset = 14
underlying asio_run = 15
underlying atomic_increment = 16
underlying atomic_cmp_exchg_weak_xpctd = 17
underlying atomic_cmp_exchg_weak_other = 18
underlying atomic_cmp_exchg_strong_xpctd = 19
underlying atomic_cmp_exchg_strong_other = 20
underlying atomic_pingpong = 21
underlying condvar_broadcast = 22
underlying condvar_create_destroy = 23
underlying condvar_signal = 24
underlying condvar_signal_watched = 25
underlying chmod = 26
underlying chown = 27
underlying directory_iter_0 = 28
underlying directory_iter_1 = 29
underlying directory_iter_64 = 30
underlying directory_iter_4k = 31
underlying flock = 32
underlying inotify = 33
underlying mkdir = 34
underlying readdir_0 = 35
underlying readdir_1 = 36
underlying readdir_64 = 37
underlying readdir_4k = 38
underlying rmdir = 39
underlying exception_catch_all = 40
underlying exception_catch_std = 41
underlying exception_noexcept = 42
underlying exception_try = 43
underlying file_append = 44
underlying file_close = 45
underlying file_create = 46
underlying file_fdatasync_0 = 47
underlying file_fdatasync_1 = 48
underlying file_fdatasync_block = 49
underlying file_fstat = 50
underlying file_fsync_0 = 51
underlying file_fsync_1 = 52
underlying file_fsync_block = 53
underlying file_lseek_random = 54
underlying file_open_nonexistent = 55
underlying file_open_ro = 56
underlying file_open_rw = 57
underlying file_open_trunc = 58
underlying file_read_256 = 59
underlying file_read_4k = 60
underlying file_read_64k = 61
underlying file_read_1m = 62
underlying file_read_16m = 63
underlying file_read_direct_4k = 64
underlying file_read_direct_64k = 65
underlying file_read_direct_1m = 66
underlying file_read_direct_16m = 67
underlying file_stat = 68
underlying file_stat_nonexistent = 69
underlying file_unlink = 70
underlying file_write_256 = 71
underlying file_write_4k = 72
underlying file_write_64k = 73
underlying file_write_1m = 74
underlying file_write_16m = 75
underlying file_write_direct_4k = 76
underlying file_write_direct_64k = 77
underlying file_write_direct_1m = 78
underlying file_write_direct_16m = 79
underlying function_args0 = 80
underlying function_args1 = 81
underlying function_args2 = 82
underlying function_args3 = 83
underlying function_args4 = 84
underlying function_args5 = 85
underlying function_args6 = 86
underlying function_args7 = 87
underlying member_function = 88
underlying member_function_shptr = 89
underlying virtual_function = 90
underlying new_delete_16 = 91
underlying new_delete_256 = 92
underlying new_delete_4k = 93
underlying new_delete_64k = 94
underlying new_delete_1m = 95
underlying new_delete_16m = 96
underlying new_delete_256m = 97
underlying new_delete_cold_16 = 98
underlying new_delete_cold_4k = 99
underlying new_delete_cold_1m = 100
underlying new_delete_cold_256m = 101
underlying istream_string4 = 102
underlying istream_string64 = 103
underlying istream_smallint = 104
underlying istream_maxint = 105
underlying istream_maxint64 = 106
underlying istream_smallfloat = 107
underlying istream_bigfloat = 108
underlying istream_smalldouble = 109
underlying istream_bigdouble = 110
underlying memcpy_256 = 111
underlying memcpy_4k = 112
underlying memcpy_64k = 113
underlying memcpy_1m = 114
underlying memcpy_16m = 115
underlying memcpy_256m = 116
underlying strcmp_16 = 117
underlying strcmp_256 = 118
underlying strcmp_4k = 119
underlying strcmp_64k = 120
underlying strcmp_1m = 121
underlying strcmp_16m = 122
underlying strcmp_256m = 123
underlying strlen_256 = 124
underlying strlen_4k = 125
underlying strlen_64k = 126
underlying strlen_1m = 127
underlying strlen_16m = 128
underlying strlen_256m = 129
underlying strncpy_16 = 130
underlying strncpy_256 = 131
underlying strncpy_4k = 132
underlying strncpy_64k = 133
underlying strncpy_1m = 134
underlying strncpy_16m = 135
underlying strncpy_256m = 136
underlying memset_256 = 137
underlying memset_4k = 138
underlying memset_64k = 139
underlying memset_1m = 140
underlying memset_16m = 141
underlying memset_256m = 142
underlying memread_256 = 143
underlying memread_4k = 144
underlying memread_64k = 145
underlying memread_1m = 146
underlying memread_16m = 147
underlying memread_256m = 148
underlying cache_false_sharing = 149
underlying mutex_create_destroy = 150
underlying mutex_lock_release = 151
underlying mutex_trylock = 152
underlying ostream_string4 = 153
underlying ostream_string64 = 154
underlying ostream_cstr4 = 155
underlying ostream_cstr64 = 156
underlying ostream_smallint = 157
underlying ostream_maxint = 158
underlying ostream_maxint64 = 159
underlying ostream_smallfloat = 160
underlying ostream_bigfloat = 161
underlying ostream_smalldouble = 162
underlying ostream_bigdouble = 163
underlying ostream_endl = 164
underlying overhead_nullary = 165
underlying overhead_nullary_fn = 166
underlying overhead_nullary_ptr = 167
underlying pipe_open_close = 168
underlying pipe_read = 169
underlying pipe_write = 170
underlying pipe_write_read_256 = 171
underlying pipe_write_read_1k = 172
underlying pipe_write_read_4k = 173
underlying pipe_write_read_16k = 174
underlying pipe_write_read_64k = 175
underlying pipe_pingpong_256 = 176
underlying pipe_pingpong_1k = 177
underlying pipe_pingpong_4k = 178
underlying pipe_pingpong_16k = 179
underlying pipe_pingpong_64k = 180
underlying pipe_asio_read = 181
underlying pipe_asio_read_async = 182
underlying pipe_asio_write = 183
underlying pipe_asio_write_async = 184
underlying pipe_asio_write_read_256 = 185
underlying pipe_asio_write_read_1k = 186
underlying pipe_asio_write_read_4k = 187
underlying pipe_asio_write_read_16k = 188
underlying pipe_asio_write_read_64k = 189
underlying pipe_asio_pingpong = 190
underlying pipe_asio_pingpong_threaded = 191
underlying epoll_1 = 192
underlying epoll_8 = 193
underlying epoll_64 = 194
underlying epoll_768 = 195
underlying poll_1 = 196
underlying poll_8 = 197
underlying poll_64 = 198
underlying poll_768 = 199
underlying select_1 = 200
underlying select_8 = 201
underlying select_64 = 202
underlying select_768 = 203
underlying fork = 204
underlying fork_waitpid = 205
underlying fork_exec_waitpid = 206
underlying system = 207
underlying deque_int32_copy16 = 208
underlying deque_int32_copy256 = 209
underlying deque_int32_copy4k = 210
underlying deque_int32_copy64k = 211
underlying deque_int32_copy1m = 212
underlying deque_int32_destroy16 = 213
underlying deque_int32_destroy256 = 214
underlying deque_int32_destroy4k = 215
underlying deque_int32_destroy64k = 216
underlying deque_int32_destroy1m = 217
underlying deque_int32_find1 = 218
underlying deque_int32_find16 = 219
underlying deque_int32_find256 = 220
underlying deque_int32_find4k = 221
underlying deque_int32_find64k = 222
underlying deque_int32_find1m = 223
underlying deque_int32_insert16 = 224
underlying deque_int32_insert256 = 225
underlying deque_int32_insert4k = 226
underlying deque_int32_insert64k = 227
underlying deque_int32_insert1m = 228
underlying deque_int32_iterate16 = 229
underlying deque_int32_iterate256 = 230
underlying deque_int32_iterate4k = 231
underlying deque_int32_iterate64k = 232
underlying deque_int32_iterate1m = 233
underlying deque_int64_copy64k = 234
underlying deque_int64_destroy64k = 235
underlying deque_int64_find64k = 236
underlying deque_int64_insert4k = 237
underlying deque_int64_iterate64k = 238
underlying deque_float_copy64k = 239
underlying deque_float_destroy64k = 240
underlying deque_float_find64k = 241
underlying deque_float_insert4k = 242
underlying deque_float_iterate64k = 243
underlying deque_double_copy64k = 244
underlying deque_double_destroy64k = 245
underlying deque_double_find64k = 246
underlying deque_double_insert4k = 247
underlying deque_double_iterate64k = 248
underlying deque_string_copy64k = 249
underlying deque_string_destroy64k = 250
underlying deque_string_find64k = 251
underlying deque_string_insert4k = 252
underlying deque_string_iterate64k = 253
underlying hash_int8 = 254
underlying hash_int16 = 255
underlying hash_int32 = 256
underlying hash_int64 = 257
underlying hash_float = 258
underlying hash_double = 259
underlying hash_string_1 = 260
underlying hash_string_16 = 261
underlying hash_string_256 = 262
underlying hash_string_4k = 263
underlying hash_string_64k = 264
underlying hashset_int32_copy16 = 265
underlying hashset_int32_copy256 = 266
underlying hashset_int32_copy4k = 267
underlying hashset_int32_copy64k = 268
underlying hashset_int32_copy1m = 269
underlying hashset_int32_destroy16 = 270
underlying hashset_int32_destroy256 = 271
underlying hashset_int32_destroy4k = 272
underlying hashset_int32_destroy64k = 273
underlying hashset_int32_destroy1m = 274
underlying hashset_int32_find1 = 275
underlying hashset_int32_find16 = 276
underlying hashset_int32_find256 = 277
underlying hashset_int32_find4k = 278
underlying hashset_int32_find64k = 279
underlying hashset_int32_find1m = 280
underlying hashset_int32_insert16 = 281
underlying hashset_int32_insert256 = 282
underlying hashset_int32_insert4k = 283
underlying hashset_int32_insert64k = 284
underlying hashset_int32_insert1m = 285
underlying hashset_int32_iterate16 = 286
underlying hashset_int32_iterate256 = 287
underlying hashset_int32_iterate4k = 288
underlying hashset_int32_iterate64k = 289
underlying hashset_int32_iterate1m = 290
underlying hashset_int64_copy64k = 291
underlying hashset_int64_destroy64k = 292
underlying hashset_int64_find64k = 293
underlying hashset_int64_insert4k = 294
underlying hashset_int64_iterate64k = 295
underlying hashset_float_copy64k = 296
underlying hashset_float_destroy64k = 297
underlying hashset_float_find64k = 298
underlying hashset_float_insert4k = 299
underlying hashset_float_iterate64k = 300
underlying hashset_double_copy64k = 301
underlying hashset_double_destroy64k = 302
underlying hashset_double_find64k = 303
underlying hashset_double_insert4k = 304
underlying hashset_double_iterate64k = 305
underlying hashset_string_copy64k = 306
underlying hashset_string_destroy64k = 307
underlying hashset_string_find64k = 308
underlying hashset_string_insert4k = 309
underlying hashset_string_iterate64k = 310
underlying list_int32_copy16 = 311
underlying list_int32_copy256 = 312
underlying list_int32_copy4k = 313
underlying list_int32_copy64k = 314
underlying list_int32_copy1m = 315
underlying list_int32_destroy16 = 316
underlying list_int32_destroy256 = 317
underlying list_int32_destroy4k = 318
underlying list_int32_destroy64k = 319
underlying list_int32_destroy1m = 320
underlying list_int32_find1 = 321
underlying list_int32_find16 = 322
underlying list_int32_find256 = 323
underlying list_int32_find4k = 324
underlying list_int32_find64k = 325
underlying list_int32_find1m = 326
underlying list_int32_insert16 = 327
underlying list_int32_insert256 = 328
underlying list_int32_insert4k = 329
underlying list_int32_insert64k = 330
underlying list_int32_insert1m = 331
underlying list_int32_iterate16 = 332
underlying list_int32_iterate256 = 333
underlying list_int32_iterate4k = 334
underlying list_int32_iterate64k = 335
underlying list_int32_iterate1m = 336
underlying list_int64_copy64k = 337
underlying list_int64_destroy64k = 338
underlying list_int64_find64k = 339
underlying list_int64_insert4k = 340
underlying list_int64_iterate64k = 341
underlying list_float_copy64k = 342
underlying list_float_destroy64k = 343
underlying list_float_find64k = 344
underlying list_float_insert4k = 345
underlying list_float_iterate64k = 346
underlying list_double_copy64k = 347
underlying list_double_destroy64k = 348
underlying list_double_find64k = 349
underlying list_double_insert4k = 350
underlying list_double_iterate64k = 351
underlying list_string_copy64k = 352
underlying list_string_destroy64k = 353
underlying list_string_find64k = 354
underlying list_string_insert4k = 355
underlying list_string_iterate64k = 356
underlying set_int32_copy16 = 357
underlying set_int32_copy256 = 358
underlying set_int32_copy4k = 359
underlying set_int32_copy64k = 360
underlying set_int32_copy1m = 361
underlying set_int32_destroy16 = 362
underlying set_int32_destroy256 = 363
underlying set_int32_destroy4k = 364
underlying set_int32_destroy64k = 365
underlying set_int32_destroy1m = 366
underlying set_int32_find1 = 367
underlying set_int32_find16 = 368
underlying set_int32_find256 = 369
underlying set_int32_find4k = 370
underlying set_int32_find64k = 371
underlying set_int32_find1m = 372
underlying set_int32_insert16 = 373
underlying set_int32_insert256 = 374
underlying set_int32_insert4k = 375
underlying set_int32_insert64k = 376
underlying set_int32_insert1m = 377
underlying set_int32_iterate16 = 378
underlying set_int32_iterate256 = 379
underlying set_int32_iterate4k = 380
underlying set_int32_iterate64k = 381
underlying set_int32_iterate1m = 382
underlying set_int64_copy64k = 383
underlying set_int64_destroy64k = 384
underlying set_int64_find64k = 385
underlying set_int64_insert4k = 386
underlying set_int64_iterate64k = 387
underlying set_float_copy64k = 388
underlying set_float_destroy64k = 389
underlying set_float_find64k = 390
underlying set_float_insert4k = 391
underlying set_float_iterate64k = 392
underlying set_double_copy64k = 393
underlying set_double_destroy64k = 394
underlying set_double_find64k = 395
underlying set_double_insert4k = 396
underlying set_double_iterate64k = 397
underlying set_string_copy64k = 398
underlying set_string_destroy64k = 399
underlying set_string_find64k = 400
underlying set_string_insert4k = 401
underlying set_string_iterate64k = 402
underlying vec_int32_copy4k = 403
underlying vec_int32_copy64k = 404
underlying vec_int32_copy1m = 405
underlying vec_int32_destroy64k = 406
underlying vec_int32_destroy1m = 407
underlying vec_int32_find1 = 408
underlying vec_int32_find16 = 409
underlying vec_int32_find256 = 410
underlying vec_int32_find4k = 411
underlying vec_int32_find64k = 412
underlying vec_int32_find1m = 413
underlying vec_int32_insert16 = 414
underlying vec_int32_insert256 = 415
underlying vec_int32_insert4k = 416
underlying vec_int32_insert64k = 417
underlying vec_int32_insert1m = 418
underlying vec_int32_iterate16 = 419
underlying vec_int32_iterate256 = 420
underlying vec_int32_iterate4k = 421
underlying vec_int32_iterate64k = 422
underlying vec_int32_iterate1m = 423
underlying vec_int64_copy64k = 424
underlying vec_int64_destroy64k = 425
underlying vec_int64_find64k = 426
underlying vec_int64_insert4k = 427
underlying vec_int64_iterate64k = 428
underlying vec_float_copy64k = 429
underlying vec_float_destroy64k = 430
underlying vec_float_find64k = 431
underlying vec_float_insert4k = 432
underlying vec_float_iterate64k = 433
underlying vec_double_copy64k = 434
underlying vec_double_destroy64k = 435
underlying vec_double_find64k = 436
underlying vec_double_insert4k = 437
underlying vec_double_iterate64k = 438
underlying vec_string_copy64k = 439
underlying vec_string_destroy64k = 440
underlying vec_string_find64k = 441
underlying vec_string_insert4k = 442
underlying vec_string_iterate64k = 443
underlying string_from_smallint = 444
underlying string_from_maxint = 445
underlying string_from_maxint64 = 446
underlying string_from_smallfloat = 447
underlying string_from_bigfloat = 448
underlying string_from_smalldouble = 449
underlying string_from_bigdouble = 450
underlying string_to_smallint = 451
underlying string_to_maxint = 452
underlying string_to_maxint64 = 453
underlying string_to_smallfloat_os = 454
underlying string_to_smallfloat_ts = 455
underlying string_to_bigfloat_os = 456
underlying string_to_bigfloat_ts = 457
underlying string_to_smalldouble_os = 458
underlying string_to_smalldouble_ts = 459
underlying string_to_bigdouble_os = 460
underlying string_to_bigdouble_ts = 461
underlying thread_create_destroy = 462
underlying thread_pingpong = 463
underlying fibonacci_u64 = 464
underlying mandelbrot_256 = 465
underlying trigonometry = 466
