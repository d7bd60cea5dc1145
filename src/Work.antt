-- ===== src/Work.antt =====
-- The work functions of lib/work.cpp. `LargestFibonacci` computes in the w-bit unsigned integers, w
-- being 32 or 64; `Mandelbrot` is over the arithmetic of `std::complex< float >`, a parameter.
-- `TrigonometryFunctions` is nothing but calls of the C library's floating-point functions.
pub mod Fibonacci
pub mod Mandelbrot
mod Tests
use cpp_autotime.Prelude.{ℕ, zero, suc, ◌+◌, ◌%◌, ◌^◌, Bool, Outcome, ok, spin, leb, if◌then◌else◌}
use cpp_autotime.Prelude.Int.{ℤ, pos, negsuc}

-- `prev += sum; std::swap( prev, sum );` while `sum >= prev`
unfoldable pub fibonacci_loop : ℕ → ℕ → ℕ → ℕ → Outcome ℕ
fibonacci_loop w zero prev sum = spin
fibonacci_loop w (suc fuel) prev sum =
    let rest = fibonacci_loop w fuel sum ((prev + sum) % 2 ^ w) in
    if leb prev sum then rest else ok prev

-- `LargestFibonacci`: two rounds more than there are values are enough (`Fibonacci`).
unfoldable pub largest_fibonacci : ℕ → Outcome ℕ
unfolding fibonacci_loop
largest_fibonacci w = fibonacci_loop w (2 ^ w + 2) 0 1

-- What `Mandelbrot` uses of complex numbers; `escapes z` is `fabs( z ) >= 4.0f`.
pub record Complex : Type 1 where
  pub Number : Type 0
  pub origin : Number
  pub square_add : Number → Number → Number
  pub escapes : Number → Bool

module _ (C : Complex) where
  open C use {Number, origin, square_add, escapes}

  -- The loop at `iter`, with `max_iters - iter` rounds left.
  unfoldable pub mandelbrot_loop : Number → ℕ → ℕ → Number → ℤ
  mandelbrot_loop c zero iter z = negsuc 0
  mandelbrot_loop c (suc left) iter z =
      let z' = square_add z c in
      let rest = mandelbrot_loop c left (iter + 1) z' in if escapes z' then pos iter else rest

  unfoldable pub mandelbrot : Number → ℕ → ℤ
  unfolding mandelbrot_loop
  mandelbrot c max_iters = mandelbrot_loop c max_iters 0 origin
