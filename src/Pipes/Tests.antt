-- ===== src/Pipes/Tests.antt =====
-- A pipe of 8192 bytes, and the witnesses of the theorems on pipes.
use cpp_autotime.Prelude.{ℕ, ◌≡◌, refl, false, some, List, [], ◌∷◌, ◌++◌, ◌-◌, arith}
use cpp_autotime.Prelude.Int.{ℤ, pos, negsuc}
use cpp_autotime.Prelude.Lists.{length, take, drop}
use cpp_autotime.Files.Calls.{Posix, done}
use cpp_autotime.Pipes.{Pipe, with_occupancy}
use cpp_autotime.Pipes.Fifo.{Counts}
use cpp_autotime.Pipes.Bench.{write_read, time_pipe_read, write_read-eq, time_pipe_read-returns}

-- The state is what the pipe holds.
abbrev fails : List ℕ → ℤ × List ℕ
fails s = (negsuc 0, s)

abbrev queue : Posix (List ℕ)
queue = record {
  errno = λ s. 1;
  eagain = 11;
  eintr = 4;
  creat = 6;
  directory = 16;
  default_flags = 66;
  mkdir = λ path mode. fails;
  rmdir = λ path. fails;
  open_path = λ path flags mode. fails;
  close_fd = λ fd. fails;
  unlink_path = λ path. fails;
  seek = λ fd ofs whence. fails;
  read_fd = λ fd count s. (some (take count s), drop count s);
  write_fd = λ fd buf s. (pos (length buf), s ++ buf);
  exists_path = λ path s. (false, s);
}

abbrev vacant_bytes : List ℕ → ℕ
vacant_bytes s = 8192 - length s

abbrev small_pipe : Pipe
small_pipe = record {
  capacity = 8192;
  occupancy = 0;
  read_end = pos 3;
  write_end = pos 4;
  buffer = [];
}

small_pipe-Counts : Counts queue (λ s. s) vacant_bytes small_pipe []
small_pipe-Counts = record {
  laws = record {
    reads = λ n s some_bytes fits. (refl, refl);
    writes = λ buf s some_bytes fits. (refl, refl);
  };
  counted = refl;
  room = omega arith;
  small = omega arith;
}

write_read-eq_example :
    (s' : List ℕ) × (write_read queue 2 (5 ∷ 6 ∷ 7 ∷ []) (9 ∷ []) small_pipe []
      ≡ done (5 ∷ 6 ∷ 7 ∷ [], with_occupancy 0 small_pipe) s')
    × Counts queue (λ s. s) vacant_bytes (with_occupancy 0 small_pipe) s'
write_read-eq_example =
    write_read-eq queue (λ s. s) vacant_bytes 0 (5 ∷ 6 ∷ 7 ∷ []) (9 ∷ []) small_pipe []
      small_pipe-Counts refl (omega arith) (omega arith) (omega arith)

time_pipe_read-returns_example :
    (p' : Pipe) × (s' : List ℕ) × (time_pipe_read queue 2 [] 4000 small_pipe [] ≡ done p' s')
time_pipe_read-returns_example =
    time_pipe_read-returns queue (λ s. s) vacant_bytes 0 4000 [] small_pipe [] small_pipe-Counts
      (omega arith) (omega arith)
