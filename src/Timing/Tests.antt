-- ===== src/Timing/Tests.antt =====
-- Clocks that take 20 and 30 nanoseconds a call, and the witness of the theorem on `Time`.
use cpp_autotime.Prelude.{ℕ, ◌+◌, ◌≡◌, refl, true, false, Outcome, ok, ◌>>=◌, arith}
use cpp_autotime.Prelude.Int.{pos, int_ops}
use cpp_autotime.Types.{Durations, normalize}
use cpp_autotime.Estimate.{estimate_ops}
use cpp_autotime.Timing.{
  Clocks, Timed, durations, calibration, with_world, start_timing, time_with, get_overhead,
  end_timing, time, to_nanoseconds,
}
use cpp_autotime.Timing.Exact.{IsConstant, time-exact}

-- The state is the time, which is the same on both clocks.
abbrev ticking : Clocks ℕ
ticking = record {
  steady_now = λ w. (pos (w + 20), w + 20);
  thread_now = λ w. (pos (w + 30), w + 30);
}

ticking-IsConstant : IsConstant ticking (λ w. w) (λ w. w) (λ w. w + 7) 20 20 30 7 7
ticking-IsConstant = record {
  steady_reads = λ w. refl;
  thread_reads = λ w. refl;
  steady_real = λ w. refl;
  steady_thread = λ w. refl;
  thread_thread = λ w. refl;
  work_real = λ w. refl;
  work_thread = λ w. refl;
}

abbrev calibrated : Timed ℕ
calibrated = record {
  world = 1000;
  steady = calibration true (durations (pos 20) (pos 20));
  thread = calibration true (durations (pos 30) (pos 30));
}

time-exact_example :
    (w : ℕ) × (time ticking (pos 1000) (λ w. w + 7) 100 calibrated
      ≡ ok (durations (pos 700) (pos 700), with_world calibrated w))
time-exact_example =
    time-exact ticking (pos 1000) (λ w. w) (λ w. w) (λ w. w + 7) 20 20 30 30 7 7 100 calibrated
      ticking-IsConstant refl refl (omega arith) (omega arith)

-- The durations and the overheads of a result.
abbrev measured : Outcome (Durations × Timed ℕ) → Outcome (Durations × Durations × Durations)
measured r = do (d, s) ← r; ok (d, s.steady.overhead, s.thread.overhead)

-- Before any calibration, the first call of `End` calibrates both clocks, and takes off their cost.
first_time :
    measured (
      time ticking
        (pos 20000)
        (λ w. w + 7)
        100
        (record {
          world = 1000;
          steady = calibration false (durations (pos 0) (pos 0));
          thread = calibration false (durations (pos 0) (pos 0));
        }))
    ≡ ok (durations (pos 700) (pos 700), durations (pos 20) (pos 20), durations (pos 30) (pos 30))
unfolding time time_with start_timing end_timing get_overhead to_nanoseconds normalize estimate_ops
    int_ops
first_time = refl

abbrev fresh : Timed ℕ
fresh = record {
  world = 1000;
  steady = calibration false (durations (pos 0) (pos 0));
  thread = calibration false (durations (pos 0) (pos 0));
}
