-- ===== src/Pipes/Fifo.antt =====
-- A `Pipe` that only its owner uses, and that no signal interrupts, keeps count of the bytes that are
-- in it.
use mathlib.Core.List.{append-nil}
use cpp_autotime.Prelude.{
  ℕ, zero, suc, ◌+◌, ◌-◌, ◌%◌, ◌^◌, ◌≤◌, ◌<◌, ◌≡◌, refl, ap, ◌∙◌, Bool, true, false, some, List, [],
  ◌∷◌, ◌++◌, arith, ltb, lt→ltb, if◌then◌else◌, le→ltb,
}
use cpp_autotime.Prelude.Int.{ℤ, pos, ltb_ℤ, eqb_ℤ}
use cpp_autotime.Prelude.Lists.{
  length, length-append, take, drop, length-take, length-drop, take-append,
}
use cpp_autotime.Files.Calls.{done, out_of_bounds, Io, pure, and_then, Posix}
use cpp_autotime.Pipes.{
  Pipe, with_occupancy, store_at, sub_signed, add_signed, sub_size, after_read, read_loop,
  read_pipe, check_read, read_checked, after_write, write_loop, write_pipe, check_write,
  write_checked,
}

-- What is documented of a pipe with the ends r and w that nobody else uses, where no signal arrives,
-- `content` are the bytes in it, and `vacant` is how many bytes it takes in one write without waiting,
-- which may be fewer than its nominal size leaves: `read` gives the first bytes at once if there are as
-- many as are asked for, and `write` takes all bytes if there are no more than it takes.
pub record IsFifo {S : Type 0} (os : Posix S) (r w : ℤ) (content : S → List ℕ) (vacant : S → ℕ)
    : Type 0 where
  pub reads :
      (n : ℕ) (s : S)
      → 0 < n
      → n ≤ length (content s)
      → ((os.read_fd r n s).0 ≡ some (take n (content s)))
        × (content (os.read_fd r n s).1 ≡ drop n (content s))
  pub writes :
      (buf : List ℕ) (s : S)
      → 0 < length buf
      → length buf ≤ vacant s
      → ((os.write_fd w buf s).0 ≡ pos (length buf))
        × (content (os.write_fd w buf s).1 ≡ content s ++ buf)

drop-nil : (k : ℕ) → drop {A = ℕ} k [] ≡ []
drop-nil zero = refl
drop-nil (suc k) = refl

store_at-nil : (n : ℕ) (more : List ℕ) → store_at (n - n) more [] ≡ more
store_at-nil n more =
    let start : n - n ≡ 0 = omega arith in
    rw (start, drop-nil (0 + length more), append-nil more) refl

module _ {S : Type 0} (os : Posix S) where
  read_again :
      (fuel n : ℕ) (bytes : List ℕ) (p : Pipe) (s : S)
      → n < 2 ^ 64
      → read_loop os (suc fuel) n 0 bytes p s ≡ done (n, bytes, p) s
  unfolding read_loop
  read_again fuel n bytes p s small =
      let size : sub_size n 0 ≡ n = omega arith in ap (λ k. done (k, bytes, p) s) size

  -- A round in which `::read` gives all that was asked for is the last but one.
  read_all :
      (fuel n : ℕ) (bytes : List ℕ) (p : Pipe) (s : S) (stop : Io S (ℕ × List ℕ × Pipe))
      → length bytes ≡ n
      → 0 < n
      → n ≤ p.occupancy
      → p.occupancy < 2 ^ 64
      → after_read os
          (some bytes)
          (λ result more.
            if ltb n (length more)
            then (λ s. out_of_bounds)
            else read_loop os
                (suc fuel)
                n
                (sub_signed n result)
                (store_at (n - n) more [])
                (with_occupancy (sub_signed p.occupancy result) p))
          stop
          s
        ≡ done (n, bytes, with_occupancy (p.occupancy - n) p) s
  read_all fuel n [] p s stop size some_bytes fits small = absurd (omega (arith, size))
  read_all fuel n (b ∷ bytes) p s stop size some_bytes fits small =
      let left : sub_signed n (pos (length (b ∷ bytes))) ≡ 0 = omega (arith, size) in
      let held : sub_signed p.occupancy (pos (length (b ∷ bytes))) ≡ p.occupancy - n =
        omega (arith, size) in
      let within : ltb n (length (b ∷ bytes)) ≡ false =
        le→ltb n (length (b ∷ bytes)) (omega (arith, size)) in
      rw (within, left, held, store_at-nil n (b ∷ bytes))
        (read_again fuel n (b ∷ bytes) (with_occupancy (p.occupancy - n) p) s (omega arith))

  write_again :
      (fuel n : ℕ) (memory : List ℕ) (p : Pipe) (s : S)
      → n < 2 ^ 64
      → write_loop os (suc fuel) memory n 0 p s ≡ done (n, p) s
  unfolding write_loop
  write_again fuel n memory p s small =
      let size : sub_size n 0 ≡ n = omega arith in ap (λ k. done (k, p) s) size

  write_all :
      (fuel n : ℕ) (memory : List ℕ) (p : Pipe) (s : S) (stop : Io S (ℕ × Pipe)) (result : ℤ)
      → result ≡ pos n
      → 0 < n
      → p.occupancy + n < 2 ^ 64
      → after_write os result
          (λ result.
            write_loop os
              (suc fuel)
              memory
              n
              (sub_signed n result)
              (with_occupancy (add_signed p.occupancy result) p))
          stop
          s
        ≡ done (n, with_occupancy (p.occupancy + n) p) s
  write_all fuel n memory p s stop result is_n some_bytes small =
      let left : sub_signed n (pos n) ≡ 0 = omega arith in
      let held : add_signed p.occupancy (pos n) ≡ p.occupancy + n = omega arith in
      let more : eqb_ℤ (pos n) (pos 0) ≡ false = ground arith in
      let positive : ltb_ℤ (pos n) (pos 0) ≡ false = ground arith in
      rw (is_n, positive, more, left, held)
        (write_again fuel n memory (with_occupancy (p.occupancy + n) p) s (omega arith))

  module _ (content : S → List ℕ) (vacant : S → ℕ) where
    -- The descriptors of the pipe are the ends of such a pipe, and it counts the bytes that are in it,
    -- which are no more than its capacity, and this is below 2 ^ 63.
    pub record Counts (p : Pipe) (s : S) : Type 0 where
      pub laws : IsFifo os p.read_end p.write_end content vacant
      pub counted : p.occupancy ≡ length (content s)
      pub room : p.occupancy ≤ p.capacity
      pub small : p.capacity < 2 ^ 63

    -- `read_checked` of one byte or more that are in the pipe gives the first of them.
    pub read_checked_lem :
        (blocking : Bool) (fuel n : ℕ) (p : Pipe) (s : S)
        → Counts p s
        → 0 < n
        → n ≤ p.occupancy
        → (s' : S) × (read_checked os blocking (suc (suc fuel)) n p s
            ≡ done (take n (content s), with_occupancy (p.occupancy - n) p) s')
          × (content s' ≡ drop n (content s))
          × Counts (with_occupancy (p.occupancy - n) p) s'
    unfolding read_checked read_pipe read_loop
    read_checked_lem blocking fuel n p s holds some_bytes fits =
        let there : n ≤ length (content s) = omega (arith, holds.counted) in
        let (gives, leaves) = holds.laws.reads n s some_bytes there in
        let s' = (os.read_fd p.read_end n s).1 in
        let enough : ltb p.occupancy n ≡ false = le→ltb _ _ fits in
        let more : ltb 0 n ≡ true = lt→ltb _ _ some_bytes in
        let got_all : ltb n n ≡ false = le→ltb n n (omega arith) in
        let size : length (take n (content s)) ≡ n = length-take n (content s) ∙ omega arith in
        (
          s',
          rw (enough, more, got_all, gives)
              (ap (λ o. and_then o (check_read os n))
                  (read_all fuel n (take n (content s)) p s' _ size some_bytes fits
                    (omega (arith, holds.room, holds.small)))
                ∙ rw got_all refl),
          leaves,
          record {
            counted = omega (arith, holds.counted, ap length leaves, length-drop n (content s));
            room = omega (arith, holds.room, holds.small);
            laws = holds.laws;
            small = holds.small;
          },
        )

    pub write_checked_lem :
        (blocking : Bool) (fuel : ℕ) (buf beyond : List ℕ) (p : Pipe) (s : S)
        → Counts p s
        → 0 < length buf
        → p.occupancy + length buf ≤ p.capacity
        → length buf ≤ vacant s
        → (s' : S) × (write_checked os blocking (suc (suc fuel)) (buf ++ beyond) (length buf) p s
            ≡ done (with_occupancy (p.occupancy + length buf) p) s')
          × (content s' ≡ content s ++ buf)
          × Counts (with_occupancy (p.occupancy + length buf) p) s'
    unfolding write_checked write_pipe write_loop
    write_checked_lem blocking fuel buf beyond p s holds some_bytes fits takes =
        let n = length buf in
        let (gives, leaves) = holds.laws.writes buf s some_bytes takes in
        let s' = (os.write_fd p.write_end buf s).1 in
        let start : n - n ≡ 0 = omega arith in
        let whole : take n (buf ++ beyond) ≡ buf = take-append buf beyond in
        let there : ltb (length (buf ++ beyond)) n ≡ false =
          le→ltb (length (buf ++ beyond)) n (omega (arith, length-append buf beyond)) in
        let enough : ltb p.capacity ((n + p.occupancy) % 2 ^ 64) ≡ false =
          le→ltb _ _ (omega (arith, holds.small)) in
        let more : ltb 0 n ≡ true = lt→ltb _ _ some_bytes in
        let got_all : ltb n n ≡ false = le→ltb n n (omega arith) in
        (
          s',
          rw (enough, more, got_all, start, there, whole)
              (ap (λ o. and_then o (check_write os n))
                  (write_all fuel n (buf ++ beyond) p s' (pure {A = ℕ × Pipe} (sub_size n n, p))
                    (os.write_fd p.write_end buf s).0 gives some_bytes (omega (arith, holds.small)))
                ∙ rw got_all refl),
          leaves,
          record {
            counted = omega (arith, holds.counted, ap length leaves, length-append (content s) buf);
            room = fits;
            laws = holds.laws;
            small = holds.small;
          },
        )
