-- ===== src/Timing.antt =====
-- lib/time.cpp: measuring with two clocks, whose own cost is measured once and taken off.
pub mod Exact
pub mod Measuring
pub mod Ends
mod Tests
use cpp_autotime.Prelude.{ℕ, zero, suc, Bool, true, false, Outcome, ok, spin, ◌>>=◌, if◌then◌else◌}
use cpp_autotime.Prelude.Int.{ℤ, pos, ◌-ℤ◌, ◌*ℤ◌, ◌/ℤ◌, checked}
use cpp_autotime.Types.{Durations, NormDurations, normalize}
use cpp_autotime.Estimate.{auto_time}

-- `now` of `steady_clock` and of `thread_clock`, which act on a state of the world.
pub record Clocks (S : Type 0) : Type 0 where
  pub steady_now : S → ℤ × S
  pub thread_now : S → ℤ × S

pub data Clock : Type 0 where
  steady_clock thread_clock : Clock

pub record TimePoints : Type 0 where
  pub real : ℤ
  pub thread : ℤ

-- The static variables of `GetOverhead` for one clock.
pub record Calibration : Type 0 where
  pub called : Bool
  pub overhead : Durations

-- The world, and the static variables of both instances of `GetOverhead`.
pub record Timed (S : Type 0) : Type 0 where
  pub world : S
  pub steady : Calibration
  pub thread : Calibration

abbrev pub durations : ℤ → ℤ → Durations
durations real thread = record { real = real; thread = thread }

abbrev pub calibration : Bool → Durations → Calibration
calibration called overhead = record { called = called; overhead = overhead }

abbrev pub with_world : {S : Type 0} → Timed S → S → Timed S
with_world s w = record { world = w; steady = s.steady; thread = s.thread }

abbrev pub calibration_of : {S : Type 0} → Clock → Timed S → Calibration
calibration_of steady_clock s = s.steady
calibration_of thread_clock s = s.thread

abbrev pub with_calibration : {S : Type 0} → Clock → Calibration → Timed S → Timed S
with_calibration steady_clock c s = record { world = s.world; steady = c; thread = s.thread }
with_calibration thread_clock c s = record { world = s.world; steady = s.steady; thread = c }

-- `for (int i = 0; i < num_iter; ++i) f()`
abbrev pub run : {S : Type 0} → (S → S) → ℕ → S → S
run f zero w = w
run f (suc n) w = run f n (f w)

-- The conversion of both counts from picoseconds to nanoseconds.
unfoldable pub to_nanoseconds : NormDurations → Durations
to_nanoseconds norm = durations (norm.real /ℤ pos 1000) (norm.thread /ℤ pos 1000)

module _ {S : Type 0} (clocks : Clocks S) (timeslice : ℤ) where
  open clocks use {steady_now, thread_now}

  abbrev pub now : Clock → S → ℤ × S
  now steady_clock w = steady_now w
  now thread_clock w = thread_now w

  -- `Start`
  unfoldable pub start_timing : S → TimePoints × S
  start_timing w =
      let (thread, w1) = thread_now w in
      let (real, w2) = steady_now w1 in (record { real = real; thread = thread }, w2)

  -- `Time` of a function, given `End`.
  unfoldable pub time_with :
      (TimePoints → Timed S → Outcome (Durations × Timed S))
      → (S → S)
      → ℕ
      → Timed S
      → Outcome (Durations × Timed S)
  time_with end f num_iter s =
      let (start_times, w) = start_timing s.world in
      end start_times (with_world s (run f num_iter w))

  -- `GetOverhead`, given `End`.
  unfoldable pub get_overhead :
      (TimePoints → Timed S → Outcome (Durations × Timed S))
      → Clock
      → Timed S
      → Outcome (Durations × Timed S)
  get_overhead end clock s =
      let c = calibration_of clock s in
      let measured = (do
        (dfi, s1) ←
            auto_time timeslice (time_with end (λ w. (now clock w).1))
              (with_calibration clock (calibration true c.overhead) s)
        norm ← normalize dfi
        ok (
          to_nanoseconds norm,
          with_calibration clock (calibration true (to_nanoseconds norm)) s1,
        )) in
      if c.called then ok (c.overhead, s) else measured

  -- `End`. A call of it within a call of it finds one more of the two clocks called, so `depth` is 3.
  unfoldable pub end_timing : ℕ → TimePoints → Timed S → Outcome (Durations × Timed S)
  end_timing zero start s = spin
  end_timing (suc depth) start s = do
    let (real_time, w1) = steady_now s.world
    let (thread_time, w2) = thread_now w1
    (steady_overhead, s1) ← get_overhead (end_timing depth) steady_clock (with_world s w2)
    real_span ← checked 63 (real_time -ℤ start.real)
    real_dur ← checked 63 (real_span -ℤ steady_overhead.real)
    (thread_overhead, s2) ← get_overhead (end_timing depth) thread_clock s1
    thread_span ← checked 63 (thread_time -ℤ start.thread)
    twice ← checked 63 (pos 2 *ℤ steady_overhead.thread)
    most ← checked 63 (thread_span -ℤ twice)
    thread_dur ← checked 63 (most -ℤ thread_overhead.thread)
    ok (durations real_dur thread_dur, s2)

  -- `Time`
  unfoldable pub time : (S → S) → ℕ → Timed S → Outcome (Durations × Timed S)
  time f num_iter s = time_with (end_timing 3) f num_iter s
