-- ===== src/Dispatch.antt =====
-- `MakeTimers( Benchmark )` of bench/dispatch.cpp. The specialisations `MakeTimers< n >()` of the
-- files bench/*_benchmarks.cpp are a parameter.
mod Early
mod Containers
mod Late
pub mod Cases
mod Tests
use Early.{
  asio_cases, atomic_cases, condvar_cases, directory_cases, exception_cases, file_cases,
  function_cases, heap_cases, istream_cases, memory_cases, mutex_cases, ostream_cases,
  overhead_cases, pipe_cases,
}
use Containers.{
  poll_cases, process_cases, std_deque_cases, std_hash_cases, std_hashset_cases, std_list_cases,
}
use Late.{
  std_set_cases, std_vector_cases, string_from_cases, string_to_cases, thread_cases, work_cases,
}
use Prim.Native.String.{String, ◌++◌ as cat}
use cpp_autotime.Prelude.{ℕ, ◌⊎◌, inl, inr, List, [], ◌∷◌, ◌++◌, ◌==◌, if◌then◌else◌}
use cpp_autotime.Enums.{to_str}
use cpp_autotime.Benchmarks.Defs.{Benchmark}
use cpp_autotime.Benchmarks.Defs
use cpp_autotime.Benchmarks.Enum.{benchmark_enum}

-- The labels of the switch, in their order.
unfoldable pub cases : List Benchmark
cases =
    asio_cases
    ++ (atomic_cases
        ++ (condvar_cases
            ++ (directory_cases
                ++ (exception_cases
                    ++ (file_cases
                        ++ (function_cases
                            ++ (heap_cases
                                ++ (istream_cases
                                    ++ (memory_cases
                                        ++ (mutex_cases
                                            ++ (ostream_cases
                                                ++ (overhead_cases
                                                    ++ (pipe_cases
                                                        ++ (poll_cases
                                                            ++ (process_cases
                                                            ++ (std_deque_cases
                                                            ++ (std_hash_cases
                                                            ++ (std_hashset_cases
                                                            ++ (std_list_cases
                                                            ++ (std_set_cases
                                                            ++ (std_vector_cases
                                                            ++ (string_from_cases
                                                            ++ (string_to_cases
                                                            ++ (thread_cases
                                                            ++ work_cases))))))))))))))))))))))))

-- A switch with the labels `ns`, and the exception after it.
unfoldable pub switch : {T : Type 0} → (Benchmark → T) → List Benchmark → Benchmark → String ⊎ T
unfolding Defs.underlying to_str
switch make_timers_of [] benchmark = inl (cat "Unimplemented: " (to_str benchmark))
switch make_timers_of (n ∷ ns) benchmark =
    if Defs.underlying benchmark == Defs.underlying n
    then inr (make_timers_of n)
    else switch make_timers_of ns benchmark

-- `MakeTimers`
unfoldable pub make_timers : {T : Type 0} → (Benchmark → T) → Benchmark → String ⊎ T
unfolding cases switch
make_timers make_timers_of benchmark = switch make_timers_of cases benchmark
