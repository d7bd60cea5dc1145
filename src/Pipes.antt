-- ===== src/Pipes.antt =====
-- `Pipe` of bench/pipe_benchmarks.cpp and the helpers of bench/pipe_utils.cpp, without the asserts,
-- as in a build with NDEBUG. An exception that is no `std::system_error` has the code 0.
pub mod Fifo
pub mod Bench
mod Tests
use Prim.Native.String.{String}
use cpp_autotime.Prelude.{
  ℕ, zero, suc, ◌+◌, ◌-◌, ◌%◌, ◌^◌, Bool, true, false, not, ◌&&◌, ◌||◌, ◌==◌, Option, none, some,
  List, [], ◌∷◌, ◌++◌, if◌then◌else◌, ltb, leb,
}
use cpp_autotime.Prelude.Int.{ℤ, pos, negsuc, pos_part, neg_part, ltb_ℤ, leb_ℤ, eqb_ℤ}
use cpp_autotime.Prelude.Lists.{length, take, drop}
use cpp_autotime.Files.Calls.{
  Result, done, thrown, out_of_bounds, unfinished, Io, pure, ◌>>=◌, Posix,
}

-- `buffer` is `buffer_`; `read_end` and `write_end` are `fds_`.
pub record Pipe : Type 0 where
  pub capacity : ℕ
  pub occupancy : ℕ
  pub read_end : ℤ
  pub write_end : ℤ
  pub buffer : List ℕ

abbrev pub with_occupancy : ℕ → Pipe → Pipe
with_occupancy n p = record {
  capacity = p.capacity;
  occupancy = n;
  read_end = p.read_end;
  write_end = p.write_end;
  buffer = p.buffer;
}

abbrev pub with_buffer : List ℕ → Pipe → Pipe
with_buffer b p = record {
  capacity = p.capacity;
  occupancy = p.occupancy;
  read_end = p.read_end;
  write_end = p.write_end;
  buffer = b;
}

-- A `size_t`, and an `ssize_t` added to it or subtracted from it.
abbrev pub add_signed : ℕ → ℤ → ℕ
add_signed a z = (a + pos_part z + (2 ^ 64 - neg_part z)) % 2 ^ 64

abbrev pub sub_signed : ℕ → ℤ → ℕ
sub_signed a z = (a + neg_part z + (2 ^ 64 - pos_part z)) % 2 ^ 64

abbrev pub sub_size : ℕ → ℕ → ℕ
sub_size a b = (a + (2 ^ 64 - b)) % 2 ^ 64

-- `resize` of a vector.
abbrev pub zeros : ℕ → List ℕ
zeros zero = []
zeros (suc n) = 0 ∷ zeros n

abbrev pub resize : ℕ → List ℕ → List ℕ
resize n b = take n b ++ zeros (n - length b)

-- The bytes of a buffer after others are stored at an offset that is not beyond them.
abbrev pub store_at : ℕ → List ℕ → List ℕ → List ℕ
store_at ofs more bytes = take ofs bytes ++ more ++ drop (ofs + length more) bytes

module _ {S : Type 0} (os : Posix S) where
  open os use {errno, eintr, close_fd, read_fd, write_fd}

  -- What a round of the loop in `read` does with the result of `::read`: it throws, breaks, or goes on.
  abbrev pub after_read : {A : Type 0} → Option (List ℕ) → (ℤ → List ℕ → Io S A) → Io S A → Io S A
  after_read none again stop s =
      if errno s == eintr then again (negsuc 0) [] s else thrown "Pipe::read()" (errno s) s
  after_read (some []) again stop s = stop s
  after_read (some (b ∷ bytes)) again stop s = again (pos (length (b ∷ bytes))) (b ∷ bytes) s

  -- The loop of `read`: its value, the bytes stored from `p_dest` on, and the pipe. It is out of bounds
  -- where `n - remain` is below 0, or more bytes arrive than the buffer has room for there.
  unfoldable pub read_loop : ℕ → ℕ → ℕ → List ℕ → Pipe → Io S (ℕ × List ℕ × Pipe)
  read_loop zero n remain bytes p = λ s. unfinished
  read_loop (suc fuel) n remain bytes p = λ s.
      let again : ℤ → List ℕ → Io S (ℕ × List ℕ × Pipe) = λ result more.
        let rest : Io S (ℕ × List ℕ × Pipe) =
          read_loop fuel n (sub_signed remain result) (store_at (n - remain) more bytes)
            (with_occupancy (sub_signed p.occupancy result) p) in
        if ltb remain (length more) then (λ s. out_of_bounds) else rest in
      let (got, s') = read_fd p.read_end n s in
      let stop : Io S (ℕ × List ℕ × Pipe) = pure (sub_size n remain, bytes, p) in
      let round : Result S (ℕ × List ℕ × Pipe) =
        if ltb n remain then out_of_bounds else after_read got again stop s' in
      if ltb 0 remain then round else stop s

  -- `read`; `blocking` is whether `would_underflow` throws.
  unfoldable pub read_pipe : Bool → ℕ → ℕ → Pipe → Io S (ℕ × List ℕ × Pipe)
  read_pipe blocking fuel n p =
      if ltb p.occupancy n && blocking
      then (λ s. thrown "Pipe::read() underflow" 0 s)
      else read_loop fuel n n [] p

  -- The condition that ends `read_checked`.
  abbrev pub check_read : ℕ → ℕ × List ℕ × Pipe → Io S (List ℕ × Pipe)
  check_read n (got, bytes, p) s =
      if ltb got n then thrown "Pipe::read() hit EOF" 0 s else done (bytes, p) s

  -- `read_checked`
  unfoldable pub read_checked : Bool → ℕ → ℕ → Pipe → Io S (List ℕ × Pipe)
  read_checked blocking fuel n p = read_pipe blocking fuel n p >>= check_read n

  -- What a round of the loop in `write` does with the result of `::write`.
  abbrev pub after_write : {A : Type 0} → ℤ → (ℤ → Io S A) → Io S A → Io S A
  after_write result again stop s =
      if ltb_ℤ result (pos 0) && not (errno s == eintr)
      then thrown "Pipe::write()" (errno s) s
      else if eqb_ℤ result (pos 0)
      then stop s
      else again result s

  -- The loop of `write`, of `n` bytes from `p_src` on; `memory` are the bytes from there to the end
  -- of the memory. It is out of bounds where `n - remain` is below 0, or fewer than n bytes are there.
  unfoldable pub write_loop : ℕ → List ℕ → ℕ → ℕ → Pipe → Io S (ℕ × Pipe)
  write_loop zero memory n remain p = λ s. unfinished
  write_loop (suc fuel) memory n remain p = λ s.
      let again : ℤ → Io S (ℕ × Pipe) = λ result.
        write_loop fuel memory n (sub_signed remain result)
          (with_occupancy (add_signed p.occupancy result) p) in
      let source = drop (n - remain) memory in
      let (result, s') = write_fd p.write_end (take n source) s in
      let stop : Io S (ℕ × Pipe) = pure (sub_size n remain, p) in
      let round : Result S (ℕ × Pipe) =
        if ltb n remain || ltb (length source) n
        then out_of_bounds
        else after_write result again stop s' in
      if ltb 0 remain then round else stop s

  -- `write`, which calls `would_underflow` where it would overflow.
  unfoldable pub write_pipe : Bool → ℕ → List ℕ → ℕ → Pipe → Io S (ℕ × Pipe)
  write_pipe blocking fuel memory n p =
      if ltb p.capacity ((n + p.occupancy) % 2 ^ 64) && blocking
      then (λ s. thrown "Pipe::read() underflow" 0 s)
      else write_loop fuel memory n n p

  -- The condition that ends `write_checked`.
  abbrev pub check_write : ℕ → ℕ × Pipe → Io S Pipe
  check_write n (got, p) s = if ltb got n then thrown "Pipe::write() hit EOF" 0 s else done p s

  -- `write_checked`
  unfoldable pub write_checked : Bool → ℕ → List ℕ → ℕ → Pipe → Io S Pipe
  write_checked blocking fuel memory n p = write_pipe blocking fuel memory n p >>= check_write n

  -- The buffer after a read into it from its start on.
  abbrev pub refilled : List ℕ × Pipe → Io S Pipe
  refilled (bytes, p) = pure (with_buffer (bytes ++ drop (length bytes) p.buffer) p)

  -- `drain`
  unfoldable pub drain : Bool → ℕ → Pipe → Io S Pipe
  drain blocking fuel p =
      let p' = with_buffer (resize p.occupancy p.buffer) p in
      if ltb 0 (length p'.buffer)
      then (read_checked blocking fuel (length p'.buffer) p' >>= refilled)
      else pure p'

  -- `fill`, where `beyond` are the bytes that follow the buffer in memory. `epsilon_` is 4096.
  unfoldable pub fill : Bool → ℕ → List ℕ → Pipe → Io S Pipe
  fill blocking fuel beyond p =
      let vacancy = sub_size p.capacity p.occupancy in
      let p' = with_buffer (resize (vacancy - 1) p.buffer) p in
      if ltb vacancy 4096
      then pure p
      else if ltb 0 (length p'.buffer)
      then write_checked blocking fuel (p'.buffer ++ beyond) (length p'.buffer) p'
      else pure p'

  -- What `::close` leaves of the pipe in `close`.
  abbrev pub closed_end : ℤ → Pipe → Io S Pipe
  closed_end rtn p s =
      if eqb_ℤ rtn (pos 0)
      then done
          (record {
            capacity = p.capacity;
            occupancy = p.occupancy;
            read_end = p.read_end;
            write_end = negsuc 0;
            buffer = p.buffer;
          })
          s
      else thrown "close()" (errno s) s

  -- `close`
  unfoldable pub close_write_end : Pipe → Io S Pipe
  close_write_end p s =
      let (rtn, s') = close_fd p.write_end s in
      if leb_ℤ (pos 0) p.write_end then closed_end rtn p s' else done p s
