-- ===== src/Timing/Exact.antt =====
-- What `Time` measures once both clocks are calibrated.
use cpp_autotime.Prelude.{
  ℕ, zero, suc, ◌+◌, ◌-◌, ◌*◌, ◌^◌, ◌≤◌, ◌<◌, ◌≡◌, refl, ap, ◌∙◌, true, ok, arith,
}
use cpp_autotime.Prelude.Int.{ℤ, pos, ◌-ℤ◌, checked, checked-pos, pos-*ℤ}
use cpp_autotime.Timing.{
  Clocks, Timed, TimePoints, durations, calibration, with_world, run, start_timing, time_with,
  get_overhead, end_timing, time,
}

-- A world of constant costs: `real` and `thread` are the two times in a state, a call of
-- `steady_clock::now` takes a nanoseconds and a' of the thread's, one of `thread_clock::now` b' of the
-- thread's, and each gives the time at its end; a call of f takes c and c'.
pub record IsConstant {S : Type 0} (clocks : Clocks S) (real thread : S → ℕ) (f : S → S)
    (a a' b' c c' : ℕ) : Type 0 where
  pub steady_reads : (w : S) → (clocks.steady_now w).0 ≡ pos (real (clocks.steady_now w).1)
  pub thread_reads : (w : S) → (clocks.thread_now w).0 ≡ pos (thread (clocks.thread_now w).1)
  pub steady_real : (w : S) → real (clocks.steady_now w).1 ≡ real w + a
  pub steady_thread : (w : S) → thread (clocks.steady_now w).1 ≡ thread w + a'
  pub thread_thread : (w : S) → thread (clocks.thread_now w).1 ≡ thread w + b'
  pub work_real : (w : S) → real (f w) ≡ real w + c
  pub work_thread : (w : S) → thread (f w) ≡ thread w + c'

sub_pos : (m n : ℕ) → n ≤ m → m < 2 ^ 63 → checked 63 (pos m -ℤ pos n) ≡ ok (pos (m - n))
unfolding ◌-ℤ◌ checked
sub_pos m n h k = ground arith

run_time :
    {S : Type 0} (f : S → S) (clock : S → ℕ) (c : ℕ)
    → ((w : S) → clock (f w) ≡ clock w + c)
    → (n : ℕ) (w : S) → clock (run f n w) ≡ clock w + n * c
run_time f clock c h zero w = omega arith
run_time f clock c h (suc n) w = run_time f clock c h n (f w) ∙ omega (arith, h w)

module _ {S : Type 0} (clocks : Clocks S) (timeslice : ℤ) where
  -- `End`, where both clocks are calibrated, and each difference is a number that fits.
  end_timing-calibrated :
      (depth : ℕ) (start : TimePoints) (s : Timed S) (r r' t t' a a' b b' : ℕ)
      → (clocks.steady_now s.world).0 ≡ pos r'
      → (clocks.thread_now (clocks.steady_now s.world).1).0 ≡ pos t'
      → start.real ≡ pos r
      → start.thread ≡ pos t
      → s.steady ≡ calibration true (durations (pos a) (pos a'))
      → s.thread ≡ calibration true (durations (pos b) (pos b'))
      → r + a ≤ r'
      → t + 2 * a' + b' ≤ t'
      → r' < 2 ^ 63
      → t' < 2 ^ 63
      → end_timing clocks timeslice (suc depth) start s
        ≡ ok (
          durations (pos (r' - r - a)) (pos (t' - t - 2 * a' - b')),
          with_world s (clocks.thread_now (clocks.steady_now s.world).1).1,
        )
  unfolding end_timing get_overhead
  end_timing-calibrated depth start s r r' t t' a a' b b' hr' ht' hr ht hs hth le1 le2 fit1 fit2 =
      rw
        (
          hr',
          ht',
          hr,
          ht,
          hs,
          hth,
          sub_pos r' r (omega arith) fit1,
          sub_pos (r' - r) a (omega arith) (omega arith),
          sub_pos t' t (omega arith) fit2,
          pos-*ℤ 2 a',
          checked-pos 63 (2 * a') (omega arith),
          sub_pos (t' - t) (2 * a') (omega arith) (omega arith),
          sub_pos (t' - t - 2 * a') b' (omega arith) (omega arith),
        )
        refl

  -- With clocks and a function of constant cost, where both clocks are calibrated with their cost, and
  -- as long as both times fit 64 bits at the end, `Time` measures n times the cost of the function to
  -- the nanosecond, on either clock: the cost of `Start` and `End` is taken off, that of both calls of
  -- the steady clock, in the thread's time, included. The clocks stay calibrated as they are.
  pub time-exact :
      (real thread : S → ℕ) (f : S → S) (a a' b b' c c' n : ℕ) (s : Timed S)
      → IsConstant clocks real thread f a a' b' c c'
      → s.steady ≡ calibration true (durations (pos a) (pos a'))
      → s.thread ≡ calibration true (durations (pos b) (pos b'))
      → real (clocks.thread_now s.world).1 + a + n * c + a < 2 ^ 63
      → thread s.world + 2 * b' + 2 * a' + n * c' < 2 ^ 63
      → (w : S) × (time clocks timeslice f n s
          ≡ ok (durations (pos (n * c)) (pos (n * c')), with_world s w))
  unfolding time time_with start_timing
  time-exact real thread f a a' b b' c c' n s cost hs hth fit1 fit2 =
      let w1 = (clocks.thread_now s.world).1 in
      let w2 = (clocks.steady_now w1).1 in
      let w3 = run f n w2 in
      let w4 = (clocks.steady_now w3).1 in
      let w5 = (clocks.thread_now w4).1 in
      let real_end : real w4 ≡ real w2 + n * c + a =
        cost.steady_real w3 ∙ ap (λ k. k + a) (run_time f real c cost.work_real n w2) in
      let thread_end : thread w5 ≡ thread w1 + a' + n * c' + a' + b' = omega (
        arith,
        cost.thread_thread w4,
        cost.steady_thread w3,
        run_time f thread c' cost.work_thread n w2,
        cost.steady_thread w1,
      ) in
      let real_fits : real w4 < 2 ^ 63 = omega (arith, real_end, cost.steady_real w1, fit1) in
      let thread_fits : thread w5 < 2 ^ 63 =
        omega (arith, thread_end, cost.thread_thread s.world, fit2) in
      let real_span : real w4 - real w2 - a ≡ n * c = omega (arith, real_end) in
      let thread_span : thread w5 - thread w1 - 2 * a' - b' ≡ n * c' = omega (arith, thread_end) in
      (
        w5,
        end_timing-calibrated 2
              (record { real = (clocks.steady_now w1).0; thread = (clocks.thread_now s.world).0 })
              (with_world s w3) (real w2) (real w4) (thread w1) (thread w5) a a' b b'
              (cost.steady_reads w3) (cost.thread_reads w4) (cost.steady_reads w1)
              (cost.thread_reads s.world) hs hth (omega (arith, real_end))
              (omega (arith, thread_end)) real_fits thread_fits
            ∙ ap (λ d. ok (d, with_world s w5))
                (ap (λ k. durations (pos k) (pos (thread w5 - thread w1 - 2 * a' - b'))) real_span
                  ∙ ap (λ k. durations (pos (n * c)) (pos k)) thread_span),
      )
