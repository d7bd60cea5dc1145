-- ===== src/Work/Mandelbrot.antt =====
-- What `Mandelbrot` returns.
use cpp_autotime.Prelude.{
  ℕ, zero, suc, ◌+◌, ◌<◌, ◌≡◌, refl, ap, ◌∙◌, ◌⊎◌, inl, inr, true, false, arith, Bool-cases,
}
use cpp_autotime.Prelude.Int.{pos, negsuc}
use cpp_autotime.Work.{Complex, mandelbrot_loop, mandelbrot}

module _ (C : Complex) where
  open C use {Number, origin, square_add, escapes}

  -- The point after n steps of z := z * z + c from z.
  abbrev pub orbit : Number → Number → ℕ → Number
  orbit c z zero = z
  orbit c z (suc n) = orbit c (square_add z c) n

  -- The first of the steps 1, 2, ... after which the point has escaped is step n + 1.
  abbrev pub EscapesAt : Number → Number → ℕ → Type 0
  EscapesAt c z n =
      (escapes (orbit c z (suc n)) ≡ true) × ((k : ℕ) → k < n → escapes (orbit c z (suc k)) ≡ false)

  abbrev pub Stays : Number → Number → ℕ → Type 0
  Stays c z n = (k : ℕ) → k < n → escapes (orbit c z (suc k)) ≡ false

  shifted :
      (c z : Number) (n : ℕ)
      → escapes (square_add z c) ≡ false
      → Stays c (square_add z c) n
      → Stays c z (suc n)
  shifted c z n first rest zero lt = first
  shifted c z n first rest (suc k) lt = rest k (omega arith)

  loop_lem :
      (c : Number) (left iter : ℕ) (z : Number)
      → ((n : ℕ) × (n < left)
          × (mandelbrot_loop C c left iter z ≡ pos (iter + n))
          × EscapesAt c z n)
        ⊎ ((mandelbrot_loop C c left iter z ≡ negsuc 0) × Stays c z left)
  unfolding mandelbrot_loop
  loop_lem c zero iter z = inr (refl, λ k h. absurd (omega arith))
  loop_lem c (suc left) iter z = elim (Bool-cases (escapes (square_add z c))) [
    | inl out ↦
        inl (0, omega arith, rw out (ap pos (omega arith)), (out, λ k h. absurd (omega arith)))
    | inr stays ↦ elim (loop_lem c left (iter + 1) (square_add z c)) [
      | inl (n, lt, e, (at, before)) ↦ inl (
        suc n,
        omega arith,
        rw stays (e ∙ ap pos (omega arith)),
        (at, shifted c z n stays before),
      )
      | inr (e, all) ↦ inr (rw stays e, shifted c z left stays all)
    ]
  ]

  -- `Mandelbrot` returns n, the number of the step before the first after which the point has
  -- escaped, counted from 0 and below `max_iters`; or -1, and the point is still there after each
  -- of `max_iters` steps.
  pub mandelbrot_lem :
      (c : Number) (max_iters : ℕ)
      → ((n : ℕ) × (n < max_iters) × (mandelbrot C c max_iters ≡ pos n) × EscapesAt c origin n)
        ⊎ ((mandelbrot C c max_iters ≡ negsuc 0) × Stays c origin max_iters)
  unfolding mandelbrot
  mandelbrot_lem c max_iters = elim (loop_lem c max_iters 0 origin) [
    | inl (n, lt, e, out) ↦ inl (n, lt, e ∙ ap pos (omega arith), out)
    | inr stays ↦ inr stays
  ]
