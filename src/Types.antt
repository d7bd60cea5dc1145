-- ===== src/Types.antt =====
-- The durations that the library passes around, after include/autotime/types.hpp and lib/types.cpp.
-- A chrono duration is its count, an integer that is checked against 64 bits wherever it is computed.
pub mod Rounding
mod Tests
use cpp_autotime.Prelude.{Outcome, ok, ◌>>=◌, if◌then◌else◌}
use cpp_autotime.Prelude.Int.{ℤ, pos, ◌+ℤ◌, ◌-ℤ◌, ◌*ℤ◌, eqb_ℤ, checked, quotient64}

-- Both counts are in nanoseconds.
pub record Durations : Type 0 where
  pub real : ℤ
  pub thread : ℤ

-- Both counts are in picoseconds.
pub record NormDurations : Type 0 where
  pub real : ℤ
  pub thread : ℤ

pub record DurationsForIters : Type 0 where
  pub num_iters : ℤ
  pub durs : Durations

-- `Durations::operator/`
unfoldable pub divide : Durations → ℤ → Outcome Durations
divide d denom = do
  real ← quotient64 d.real denom
  thread ← quotient64 d.thread denom
  ok (record { real = real; thread = thread })

-- `Durations::operator+=`
unfoldable pub accumulate : Durations → Durations → Outcome Durations
accumulate d rhs = do
  real ← checked 63 (d.real +ℤ rhs.real)
  thread ← checked 63 (d.thread +ℤ rhs.thread)
  ok (record { real = real; thread = thread })

-- `NormDurations::operator-`
unfoldable pub subtract : NormDurations → NormDurations → Outcome NormDurations
subtract d rhs = do
  real ← checked 63 (d.real -ℤ rhs.real)
  thread ← checked 63 (d.thread -ℤ rhs.thread)
  ok (record { real = real; thread = thread })

-- `(dur + round) / num_iters`: the sum is in picoseconds, the finer of the two units.
unfoldable pub per_iter : ℤ → ℤ → ℤ → Outcome ℤ
per_iter dur round num_iters = do
  ps ← checked 63 (dur *ℤ pos 1000)
  sum ← checked 63 (ps +ℤ round)
  quotient64 sum num_iters

-- The body of the `if (num_iters)` of `normalize`.
unfoldable pub rates : DurationsForIters → ℤ → Outcome NormDurations
unfolding per_iter
rates dfi round = do
  real ← per_iter dfi.durs.real round dfi.num_iters
  thread ← per_iter dfi.durs.thread round dfi.num_iters
  ok (record { real = real; thread = thread })

-- `DurationsForIters::normalize`
unfoldable pub normalize : DurationsForIters → Outcome NormDurations
unfolding rates
normalize dfi = do
  round ← quotient64 dfi.num_iters (pos 2)
  if eqb_ℤ dfi.num_iters (pos 0)
      then ok (record { real = pos 0; thread = pos 0 })
      else rates dfi round
