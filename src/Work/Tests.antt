-- ===== src/Work/Tests.antt =====
-- Runs of lib/work.cpp, and inputs at which its theorems apply.
use cpp_autotime.Prelude.{ℕ, ◌+◌, ◌*◌, ◌^◌, ◌<◌, ◌≡◌, refl, ◌⊎◌, ok, leb, arith}
use cpp_autotime.Prelude.Int.{pos, negsuc}
use cpp_autotime.Work.{Complex, largest_fibonacci, mandelbrot}
use cpp_autotime.Work.Fibonacci.{fibonacci, IsLargest, largest_fibonacci_lem}
use cpp_autotime.Work.Mandelbrot.{EscapesAt, Stays, mandelbrot_lem}

largest_in_byte : largest_fibonacci 8 ≡ ok 233
unfolding largest_fibonacci
largest_in_byte = refl

largest_fibonacci_example : (j : ℕ) × (largest_fibonacci 8 ≡ ok (fibonacci j)) × IsLargest (2 ^ 8) j
largest_fibonacci_example = largest_fibonacci_lem 8 (omega arith)

-- The numbers, with 4 as the bound.
abbrev whole : Complex
whole = record { Number = ℕ; origin = 0; square_add = λ z c. z * z + c; escapes = λ z. leb 4 z }

two_escapes : mandelbrot whole 2 256 ≡ pos 1
unfolding mandelbrot
two_escapes = refl

zero_stays : mandelbrot whole 0 256 ≡ negsuc 0
unfolding mandelbrot
zero_stays = refl

mandelbrot_example :
    ((n : ℕ) × (n < 256) × (mandelbrot whole 2 256 ≡ pos n) × EscapesAt whole 2 0 n)
    ⊎ ((mandelbrot whole 2 256 ≡ negsuc 0) × Stays whole 2 0 256)
mandelbrot_example = mandelbrot_lem whole 2 256
