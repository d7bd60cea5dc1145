-- ===== src/Run.antt =====
-- The timing of a benchmark in the last loop of `main` (bench/main.cpp).
pub mod Cores
pub mod Plan
pub mod Steady
mod Tests
use cpp_autotime.Prelude.{Option, none, some, Outcome, ok, ◌>>=◌}
use cpp_autotime.Prelude.Int.{ℤ, pos}
use cpp_autotime.Types.{Durations, NormDurations, DurationsForIters, normalize, subtract}
use cpp_autotime.Estimate.{Timer, auto_time}

-- `overhead` may be a null function.
pub record BenchTimers (S : Type 0) : Type 0 where
  pub primary : Timer S
  pub overhead : Option (Timer S)

-- `DurationsForIters ovh_dfi{}`
abbrev pub no_overhead : DurationsForIters
no_overhead = record { num_iters = pos 0; durs = record { real = pos 0; thread = pos 0 } }

-- `if (timers.overhead) ovh_dfi = AutoTime( timers.overhead )`
unfoldable pub time_overhead :
    {S : Type 0} → ℤ → Option (Timer S) → S → Outcome (DurationsForIters × S)
time_overhead timeslice none s = ok (no_overhead, s)
time_overhead timeslice (some timer) s = auto_time timeslice timer s

-- What is written for a benchmark: its durations for an iteration, and the number of iterations.
unfoldable pub time_benchmark :
    {S : Type 0} → ℤ → BenchTimers S → S → Outcome ((NormDurations × ℤ) × S)
time_benchmark timeslice timers s = do
  (exp_dfi, s1) ← auto_time timeslice timers.primary s
  (ovh_dfi, s2) ← time_overhead timeslice timers.overhead s1
  exp ← normalize exp_dfi
  ovh ← normalize ovh_dfi
  norm ← subtract exp ovh
  ok ((norm, exp_dfi.num_iters), s2)
