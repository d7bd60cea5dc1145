-- ===== src/Dispatch/Cases.antt =====
-- The labels of the switch.
use cpp_autotime.Prelude.{◌≡◌, refl, inr}
use cpp_autotime.Benchmarks.Defs.{Benchmark}
use cpp_autotime.Dispatch.{make_timers}

-- `MakeTimers` has a case for every benchmark, the one for that benchmark: it returns what the
-- benchmark's specialisation makes, and never throws.
pub make_timers-inr :
    {T : Type 0}
    → (make_timers_of : Benchmark → T) (b : Benchmark)
    → make_timers make_timers_of b ≡ inr (make_timers_of b)
unfolding make_timers
make_timers-inr make_timers_of Benchmark.asio_dispatch = refl
make_timers-inr make_timers_of _ = refl
