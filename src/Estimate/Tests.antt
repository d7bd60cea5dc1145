-- ===== src/Estimate/Tests.antt =====
-- Runs of `Estimate`, and inputs at which the theorems about it apply.
use cpp_autotime.Prelude.{
  ℕ, ◌+◌, ◌*◌, ◌/◌, ◌≤◌, ◌<◌, ◌≡◌, refl, ap, ◌≢◌, ◌⊎◌, ok, overflow, div_by_zero, spin, leb, arith,
  if◌then◌else◌,
}
use cpp_autotime.Prelude.Int.{pos, int_ops}
use cpp_autotime.Types.{Durations}
use cpp_autotime.Estimate.{
  Timer, Sample, initial, as_result, ramp, estimate, auto_time, estimate_ops,
}
use cpp_autotime.Estimate.Ramp.{IsMeasured}
use cpp_autotime.Estimate.Refine.{IsWithin, IsCoarse, Chain}
use cpp_autotime.Estimate.Contract.{estimate_lem, estimate-ne-spin}
use cpp_autotime.Estimate.Linear.{estimate-linear}
use cpp_autotime.Estimate.Threshold.{estimate_gives_up}
use cpp_autotime.Estimate.Faults.{estimate_idle, estimate_zero, estimate_no_target}

-- A timer for which each iteration takes c nanoseconds.
abbrev each : ℕ → Timer (Unit {0})
each c n s = ok (record { real = pos (c * n); thread = pos (c * n) }, s)

abbrev found : Durations
found = record { real = pos 100002; thread = pos 100002 }

run_seven :
    estimate (each 7) (pos 100000) tt ≡ ok (record { num_iters = pos 14286; durs = found }, tt)
unfolding estimate_ops int_ops
run_seven = refl

run_no_target :
    auto_time (pos 0) (each 7) tt
    ≡ ok (record { num_iters = pos 2; durs = record { real = pos 14; thread = pos 14 } }, tt)
unfolding estimate_ops int_ops
run_no_target = refl

estimate-linear_example :
    (n : ℕ) × (d : Durations) × (s' : Unit {0}) × (estimate (each 7) (pos 100000) tt
      ≡ ok (record { num_iters = pos n; durs = d }, s'))
    × (d.real ≡ pos (7 * n))
    × (100000 * 4 / 5 ≤ 7 * n)
    × (7 * n ≤ 100000 * 2)
estimate-linear_example =
    estimate-linear (each 7) 7 100000 tt (λ n s. (_, tt, refl, refl)) (omega arith) (omega arith)
      (omega arith)

estimate_lem_example :
    (m r : Sample (Unit {0})) × ((record { num_iters = pos 14286; durs = found }, tt) ≡ as_result r)
    × IsMeasured (each 7) r
    × (1 ≤ r.num_iters)
    × (ramp (each 7) (pos 100000) 33 (pos 0) (initial tt) ≡ ok m)
    × (k : ℕ) × (k ≤ 5)
    × Chain (each 7) k m r
    × (IsWithin 100000 r.durs ⊎ (IsCoarse (pos 100000) r ⊎ (k ≡ 5)))
estimate_lem_example =
    estimate_lem (each 7) 100000 tt (record { num_iters = pos 14286; durs = found }) tt
      (omega arith) run_seven

estimate-ne-spin_example : estimate (each 7) (pos 100000) tt ≢ spin
estimate-ne-spin_example = estimate-ne-spin (each 7) (pos 100000) tt (λ n s e. cc e)

estimate_gives_up_example :
    (d : Durations) × (s' : Unit {0}) × (estimate (each 30000) (pos 100000) tt
      ≡ ok (record { num_iters = pos 2; durs = d }, s'))
    × (d.real ≡ pos (2 * 30000))
    × (2 * 30000 < 100000 * 4 / 5)
estimate_gives_up_example =
    estimate_gives_up (each 30000) 30000 100000 tt (λ n s. (_, tt, refl, refl)) (omega arith)
      (omega arith) (omega arith) (omega arith)

estimate_idle_example : estimate (each 0) (pos 100000) tt ≡ overflow
estimate_idle_example =
    estimate_idle (each 0) (pos 100000) (λ n s. (_, tt, refl, ap pos (omega arith))) tt

-- Seven nanoseconds in each of its first 6 calls, and nothing in the later ones.
abbrev stalling : Timer ℕ
stalling n calls =
    let d = if leb 6 calls then 0 else 7 * n in
    ok (record { real = pos d; thread = pos d }, calls + 1)

abbrev ramped : Sample ℕ
ramped = record { num_iters = 32; durs = record { real = pos 224; thread = pos 224 }; state = 6 }

estimate_zero_example : estimate stalling (pos 100000) 0 ≡ div_by_zero
unfolding estimate_ops int_ops
estimate_zero_example =
    estimate_zero stalling 100000 14286 0 7 ramped (record { real = pos 0; thread = pos 0 })
      (omega arith) (omega arith) refl refl refl (omega arith) (omega arith) refl refl

estimate_no_target_example :
    auto_time (pos 0) (each 7) tt
    ≡ ok (record { num_iters = pos 2; durs = record { real = pos 14; thread = pos 14 } }, tt)
unfolding estimate_ops int_ops
estimate_no_target_example =
    estimate_no_target (each 7) tt
      (record { num_iters = 2; durs = record { real = pos 14; thread = pos 14 }; state = tt }) 14
      refl refl (omega arith)
