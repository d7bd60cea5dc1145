-- ===== src/Dispatch/Tests.antt =====
-- A benchmark whose timers `MakeTimers` makes.
use cpp_autotime.Prelude.{◌≡◌, inr}
use cpp_autotime.Benchmarks.Defs
use cpp_autotime.Benchmarks.Defs.{Benchmark}
use cpp_autotime.Dispatch.{make_timers}
use cpp_autotime.Dispatch.Cases.{make_timers-inr}

make_timers-inr_example :
    make_timers Defs.underlying Benchmark.trigonometry
    ≡ inr (Defs.underlying Benchmark.trigonometry)
make_timers-inr_example = make_timers-inr Defs.underlying Benchmark.trigonometry
