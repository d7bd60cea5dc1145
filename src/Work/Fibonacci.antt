-- ===== src/Work/Fibonacci.antt =====
-- `LargestFibonacci` returns the largest Fibonacci number of its type.
use native.Mathlib.Nat.{add_comm, pow-suc, mod-eq_of_lt, mod-eq-sub-mod}
use native.Mathlib.Decide.{dec_lt}
use cpp_autotime.Prelude.{ℕ, zero, suc, ◌+◌, ◌-◌, ◌%◌, ◌^◌, ◌≤◌, ◌<◌, ◌≡◌, ◌∙◌, ok, arith}
use cpp_autotime.Work.{fibonacci_loop, largest_fibonacci}

abbrev pub fibonacci : ℕ → ℕ
fibonacci zero = 0
fibonacci (suc zero) = 1
fibonacci (suc (suc k)) = fibonacci (suc k) + fibonacci k

fibonacci_grows : (k : ℕ) → (1 ≤ fibonacci (suc k)) × (fibonacci k ≤ fibonacci (suc k))
fibonacci_grows zero = (omega arith, omega arith)
fibonacci_grows (suc k) = omega (arith, fibonacci_grows k)

-- The k-th number is the last one below the bound b.
abbrev pub IsLargest : ℕ → ℕ → Type 0
IsLargest b k = (fibonacci k < b) × (b ≤ fibonacci (suc k))

-- One overflow leaves less than the larger summand.
wrap_lt : (b p q : ℕ) → q < b → p ≤ q → b ≤ p + q → (p + q) % b < q
wrap_lt b p q h k l = rw (mod-eq-sub-mod l) (rw (mod-eq_of_lt (small b p q h k l)) (omega arith))
  where
    small : (b p q : ℕ) → q < b → p ≤ q → b ≤ p + q → p + q - b < b
    small b p q h k l = omega arith

loop_go :
    (w fuel prev sum : ℕ)
    → prev ≤ sum
    → fibonacci_loop w (suc fuel) prev sum ≡ fibonacci_loop w fuel sum ((prev + sum) % 2 ^ w)
unfolding fibonacci_loop
loop_go w fuel prev sum h = ground arith

loop_stop : (w fuel prev sum : ℕ) → sum < prev → fibonacci_loop w (suc fuel) prev sum ≡ ok prev
unfolding fibonacci_loop
loop_stop w fuel prev sum h = ground arith

-- From two neighbours below 2 ^ w, with fuel for all the values between.
loop_finds :
    (w fuel k : ℕ)
    → fibonacci (suc (suc k)) < 2 ^ w
    → 2 ^ w < fibonacci (suc (suc k)) + fuel
    → (j : ℕ) × (fibonacci_loop w (suc fuel) (fibonacci (suc k)) (fibonacci (suc (suc k)))
        ≡ ok (fibonacci j))
      × IsLargest (2 ^ w) j
loop_finds w zero k below enough = absurd (omega arith)
loop_finds w (suc fuel) k below enough =
    elim (dec_lt (fibonacci (suc k) + fibonacci (suc (suc k))) (2 ^ w)) [
      | yes p ↦
          let (j, e, found) =
            loop_finds w fuel (suc k) (omega arith) (omega (arith, fibonacci_grows k)) in
          (j, go ∙ rw (wrapped p) e, found)
      | no p ↦ (suc (suc k), go ∙ loop_stop w fuel _ _ (overflowed p), (below, omega arith))
    ]
  where
    go :
        fibonacci_loop w (suc (suc fuel)) (fibonacci (suc k)) (fibonacci (suc (suc k)))
        ≡ fibonacci_loop w
            (suc fuel)
            (fibonacci (suc (suc k)))
            ((fibonacci (suc k) + fibonacci (suc (suc k))) % 2 ^ w)
    go = loop_go w (suc fuel) _ _ (fibonacci_grows (suc k)).1

    wrapped :
        fibonacci (suc k) + fibonacci (suc (suc k)) < 2 ^ w
        → (fibonacci (suc k) + fibonacci (suc (suc k))) % 2 ^ w ≡ fibonacci (suc (suc (suc k)))
    wrapped p = mod-eq_of_lt p ∙ add_comm _ _

    overflowed :
        ¬ (fibonacci (suc k) + fibonacci (suc (suc k)) < 2 ^ w)
        → (fibonacci (suc k) + fibonacci (suc (suc k))) % 2 ^ w < fibonacci (suc (suc k))
    overflowed p =
        wrap_lt (2 ^ w) (fibonacci (suc k)) (fibonacci (suc (suc k))) below
          (omega (arith, fibonacci_grows (suc k))) (omega arith)

pow_pos : (n : ℕ) → 1 ≤ 2 ^ n
pow_pos zero = omega arith
pow_pos (suc n) = omega (arith, pow-suc 2 n, pow_pos n)

one_lt-pow : (w : ℕ) → 1 ≤ w → 1 < 2 ^ w
one_lt-pow zero h = absurd (omega arith)
one_lt-pow (suc w) h = omega (arith, pow-suc 2 w, pow_pos w)

-- For every width w of at least one bit, `LargestFibonacci` comes to an end, and returns a Fibonacci
-- number below 2 ^ w whose successor is 2 ^ w or more.
pub largest_fibonacci_lem :
    (w : ℕ) → 1 ≤ w → (j : ℕ) × (largest_fibonacci w ≡ ok (fibonacci j)) × IsLargest (2 ^ w) j
unfolding largest_fibonacci
largest_fibonacci_lem w h =
    let (j, e, found) = loop_finds w (2 ^ w) 0 (one_lt-pow w h) (omega arith) in
    let one : 1 % 2 ^ w ≡ 1 = mod-eq_of_lt (one_lt-pow w h) in
    let fuel : 2 ^ w + 2 ≡ suc (suc (2 ^ w)) = omega arith in
    (j, rw fuel (loop_go w (suc (2 ^ w)) 0 1 (omega arith) ∙ rw one e), found)
