-- ===== src/Pipes/Bench.antt =====
-- The timers of bench/pipe_benchmarks.cpp that use one pipe, and what their pipe holds.
use cpp_autotime.Prelude.{
  ℕ, zero, suc, ◌+◌, ◌-◌, ◌≤◌, ◌<◌, ◌≡◌, refl, sym, ap, ◌∙◌, true, Bool-cases, inl, inr, List, [],
  ◌∷◌, ◌++◌, arith, ltb, lt→ltb,
}
use cpp_autotime.Prelude.Lists.{length, length-append, take, drop, length-take, take_all}
use cpp_autotime.Files.Calls.{done, Io, pure, ◌>>=◌, and_then, Posix}
use cpp_autotime.Pipes.{
  Pipe, with_occupancy, with_buffer, resize, zeros, sub_size, read_checked, write_checked, fill,
}
use cpp_autotime.Pipes.Fifo.{Counts, read_checked_lem, write_checked_lem}

module _ {S : Type 0} (os : Posix S) where
  -- The function of `MakeWriteReadTimer`, where `buf` is its buffer and `beyond` what follows it: the
  -- buffer and the pipe after it.
  unfoldable pub write_read : ℕ → List ℕ → List ℕ → Pipe → Io S (List ℕ × Pipe)
  write_read fuel buf beyond p = write_checked os true fuel (buf ++ beyond) (length buf) p >>= λ p'.
      read_checked os true fuel (length buf) p'

  -- The function of `pipe_read`, a number of times.
  unfoldable pub read_bytes : ℕ → ℕ → Pipe → Io S Pipe
  read_bytes fuel zero p = pure p
  read_bytes fuel (suc n) p = read_checked os true fuel 1 p >>= λ got. read_bytes fuel n got.1

  -- The timer of `pipe_read`, without the clocks.
  unfoldable pub time_pipe_read : ℕ → List ℕ → ℕ → Pipe → Io S Pipe
  time_pipe_read fuel beyond num_iters p = fill os true fuel beyond p >>= read_bytes fuel num_iters

  module _ (content : S → List ℕ) (vacant : S → ℕ) where
    length-zeros : (n : ℕ) → length (zeros n) ≡ n
    length-zeros zero = refl
    length-zeros (suc n) = omega (arith, length-zeros n)

    length-resize : (n : ℕ) (b : List ℕ) → length (resize n b) ≡ n
    length-resize n b = omega (
      arith,
      length-append (take n b) (zeros (n - length b)),
      length-take n b,
      length-zeros (n - length b),
    )

    drop_all : (xs : List ℕ) → drop (length xs) xs ≡ []
    drop_all [] = refl
    drop_all (x ∷ xs) = drop_all xs

    nil_of_length : (xs : List ℕ) → 0 ≡ length xs → xs ≡ []
    nil_of_length [] h = refl
    nil_of_length (x ∷ xs) h = absurd (omega arith)

    -- On an empty pipe that counts its bytes, that nobody else uses and where no signal arrives, the
    -- function of `MakeWriteReadTimer` with a buffer of one byte or more, which is no longer than the
    -- capacity and which the pipe takes in one write, gives back the bytes that it has written, and
    -- leaves the pipe empty. It stays in the bounds of its buffer.
    pub write_read-eq :
        (fuel : ℕ) (buf beyond : List ℕ) (p : Pipe) (s : S)
        → Counts os content vacant p s
        → p.occupancy ≡ 0
        → 0 < length buf
        → length buf ≤ p.capacity
        → length buf ≤ vacant s
        → (s' : S) × (write_read (suc (suc fuel)) buf beyond p s
            ≡ done (buf, with_occupancy 0 p) s')
          × Counts os content vacant (with_occupancy 0 p) s'
    unfolding write_read
    write_read-eq fuel buf beyond p s holds empty some_bytes fits takes =
        let (s1, e1, wrote, holds1) =
          write_checked_lem os content vacant true fuel buf beyond p s holds some_bytes
            (omega arith) takes in
        let (s2, e2, left, holds2) =
          read_checked_lem os content vacant true fuel (length buf)
            (with_occupancy (p.occupancy + length buf) p) s1 holds1 some_bytes (omega arith) in
        let nothing : content s ≡ [] = nil_of_length (content s) (sym empty ∙ holds.counted) in
        let all : take (length buf) (content s1) ≡ buf =
          ap (take (length buf)) (wrote ∙ ap (λ c. c ++ buf) nothing) ∙ take_all buf in
        let rest : (p.occupancy + length buf) - length buf ≡ 0 = omega arith in
        (
          s2,
          ap (λ o. and_then o (λ p'. read_checked os true (suc (suc fuel)) (length buf) p')) e1
              ∙ (e2
                  ∙ (ap
                        (λ b.
                          done (b, with_occupancy ((p.occupancy + length buf) - length buf) p) s2)
                        all
                      ∙ ap (λ k. done (buf, with_occupancy k p) s2) rest)),
          rw rest at holds2,
        )

    -- `fill` leaves fewer than 4096 bytes of the nominal size of the pipe free, if the pipe takes all but
    -- one of those that are free before in one write.
    pub fill-Counts :
        (fuel : ℕ) (beyond : List ℕ) (p : Pipe) (s : S)
        → Counts os content vacant p s
        → p.capacity ≤ p.occupancy + vacant s + 1
        → (p' : Pipe) × (s' : S) × (fill os true (suc (suc fuel)) beyond p s ≡ done p' s')
          × Counts os content vacant p' s'
          × (p'.capacity ≡ p.capacity)
          × (p.capacity < p'.occupancy + 4096)
    unfolding fill
    fill-Counts fuel beyond p s holds takes =
        let vacancy : sub_size p.capacity p.occupancy ≡ p.capacity - p.occupancy =
          omega (arith, holds.room, holds.small) in
        elim (Bool-cases (ltb (p.capacity - p.occupancy) 4096)) [
          | inl full ↦ (p, s, rw (vacancy, full) refl, holds, refl, ground arith)
          | inr space ↦
              let b : List ℕ = resize (p.capacity - p.occupancy - 1) p.buffer in
              let size : length b ≡ p.capacity - p.occupancy - 1 = length-resize _ p.buffer in
              let some_bytes : ltb 0 (length b) ≡ true = lt→ltb _ _ (ground (arith, size)) in
              let same_buffer : Counts os content vacant (with_buffer b p) s = record {
                laws = holds.laws;
                counted = holds.counted;
                room = holds.room;
                small = holds.small;
              } in
              let (s1, e1, _, holds1) =
                write_checked_lem os content vacant true fuel b beyond (with_buffer b p) s
                  same_buffer (ground (arith, size)) (ground (arith, size))
                  (ground (arith, size)) in
              (
                with_occupancy (p.occupancy + length b) (with_buffer b p),
                s1,
                rw (vacancy, space, some_bytes) e1,
                holds1,
                refl,
                ground (arith, size),
              )
        ]

    read_bytes-eq :
        (fuel n : ℕ) (p : Pipe) (s : S)
        → Counts os content vacant p s
        → n ≤ p.occupancy
        → (p' : Pipe) × (s' : S) × (read_bytes (suc (suc fuel)) n p s ≡ done p' s')
          × (p'.occupancy + n ≡ p.occupancy)
    unfolding read_bytes
    read_bytes-eq fuel zero p s holds fits = (p, s, refl, omega arith)
    read_bytes-eq fuel (suc n) p s holds fits =
        let (s1, e1, left, holds1) =
          read_checked_lem os content vacant true fuel 1 p s holds (omega arith) (omega arith) in
        let (p', s2, e2, count) =
          read_bytes-eq fuel n (with_occupancy (p.occupancy - 1) p) s1 holds1 (omega arith) in
        (
          p',
          s2,
          ap (λ o. and_then o (λ got. read_bytes (suc (suc fuel)) n got.1)) e1 ∙ e2,
          omega arith,
        )

    -- For as many iterations as the capacity of its pipe less 4095, the timer of `pipe_read` returns,
    -- without an exception and in the bounds of its buffers, if the pipe counts its bytes, nobody else
    -- uses it, no signal arrives, and it takes all but one of the bytes that its nominal size leaves in
    -- one write: the timer fills the pipe first, and then each iteration finds a byte.
    pub time_pipe_read-returns :
        (fuel num_iters : ℕ) (beyond : List ℕ) (p : Pipe) (s : S)
        → Counts os content vacant p s
        → p.capacity ≤ p.occupancy + vacant s + 1
        → num_iters + 4095 ≤ p.capacity
        → (p' : Pipe) × (s' : S) × (time_pipe_read (suc (suc fuel)) beyond num_iters p s
            ≡ done p' s')
    unfolding time_pipe_read
    time_pipe_read-returns fuel num_iters beyond p s holds takes fits =
        let (p1, s1, e1, holds1, same, filled) = fill-Counts fuel beyond p s holds takes in
        let (p2, s2, e2, count) = read_bytes-eq fuel num_iters p1 s1 holds1 (omega arith) in
        (p2, s2, ap (λ o. and_then o (read_bytes (suc (suc fuel)) num_iters)) e1 ∙ e2)
