-- ===== src/Run/Tests.antt =====
-- A run of the last loop of `main`, and an input at which the theorem about it applies.
use cpp_autotime.Prelude.{ℕ, ◌+◌, ◌*◌, ◌≡◌, refl, false, List, [], ◌∷◌, ok, none, some, arith}
use cpp_autotime.Benchmarks.Defs
use cpp_autotime.Benchmarks.Defs.{Benchmark}
use cpp_autotime.Benchmarks.Category
use cpp_autotime.Benchmarks.Spec.{parse_specification, parse_ops}
use cpp_autotime.Prelude.Int.{ℤ, pos, sub_ℕ, int_ops}
use cpp_autotime.Types.{normalize, subtract}
use cpp_autotime.Estimate.{Timer, estimate_ops}
use cpp_autotime.Run.{time_benchmark, time_overhead}
use cpp_autotime.Run.Plan.{Options, Step, steps, main, timed, main-timed}
use cpp_autotime.Run.Cores.{IsChoice, Started, autoselect_secondary_core_id, autoselect_lem}
use cpp_autotime.Run.Steady.{time_benchmark-steady}

-- A timer for which each iteration takes c nanoseconds of real time and k of thread time.
abbrev each : ℕ → ℕ → Timer (Unit {0})
each c k n s = ok (record { real = pos (c * n); thread = pos (k * n) }, s)

without_overhead :
    time_benchmark (pos 100000) (record { primary = each 9 8; overhead = none }) tt
    ≡ ok ((record { real = pos 9000; thread = pos 8000 }, pos 11111), tt)
unfolding time_benchmark time_overhead normalize subtract estimate_ops int_ops
without_overhead = refl

time_benchmark-steady_example :
    (n : ℕ) × (s' : Unit {0}) × (time_benchmark
        (pos 100000)
        (record { primary = each 9 8; overhead = some (each 2 2) })
        tt
      ≡ ok (
        (
          record { real = sub_ℕ (1000 * 9) (1000 * 2); thread = sub_ℕ (1000 * 8) (1000 * 2) },
          pos n,
        ),
        s',
      ))
time_benchmark-steady_example =
    time_benchmark-steady (each 9 8) (each 2 2) 9 8 2 2 100000 tt (λ n s. (_, tt, refl, refl, refl))
      (λ n s. (_, tt, refl, refl, refl)) (omega arith) (omega arith) (omega arith) (omega arith)
      (omega arith) (omega arith) (omega arith)

abbrev everything : Options
everything = record {
  help = false;
  spec = "work";
  list_mode = none;
  describe_mode = none;
  run = false;
}

abbrev work_benchmarks : List Benchmark
work_benchmarks = Benchmark.fibonacci_u64 ∷ Benchmark.mandelbrot_256 ∷ Benchmark.trigonometry ∷ []

main-timed_example :
    (course : List Step) × (main everything ≡ steps course) × (timed course ≡ work_benchmarks)
unfolding parse_specification parse_ops Defs.underlying Category.underlying Category.to_cstr
main-timed_example = main-timed everything work_benchmarks refl refl

-- A scheduler that places the n-th thread on core n.
abbrev next_core : ℕ → ℤ × ℕ
next_core n = (pos n, n + 1)

second_differs : autoselect_secondary_core_id next_core (pos 0) 0 ≡ ((pos 1, false), 2)
unfolding autoselect_secondary_core_id int_ops
second_differs = refl

autoselect_example :
    IsChoice next_core 3 (pos 0) 0 (autoselect_secondary_core_id next_core (pos 0) 0).0
    × Started next_core 3 0
        (autoselect_secondary_core_id next_core (pos 0) 0).1
        (autoselect_secondary_core_id next_core (pos 0) 0).0
autoselect_example = autoselect_lem next_core (pos 0) 0
