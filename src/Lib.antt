-- ===== src/Lib.antt =====
-- AutoTime measures how long functions take. The library (lib, include/autotime) runs a function
-- often enough that the measurement spans a target duration and normalizes the result; the command
-- line program (bench) selects benchmarks from a specification and times each of them.
--
--   Prelude      Shared names. Prelude/Outcomes has the result of a computation: a value, an
--                overflow of a signed integer, a division by zero, or `spin`, which says that the
--                model's fuel ran out. Prelude/Int has the signed integers with their checks.
--   Types        lib/types.cpp: Durations, NormDurations, DurationsForIters and their operators.
--   Estimate     lib/estimate.cpp and lib/autotime.cpp. `ramp` and `refine` are the two loops of
--                `Estimate`; a timer is a function from the number of iterations and a state of its
--                own, since the code calls it again and again. `refine` counts the five attempts of
--                the code. `ramp` has fuel for 33 rounds, and the int that it doubles overflows
--                before that (Estimate/Ramp).
--   Iterate      lib/iterate.cpp: `IterateUntil`, over a world of a clock, the work and the predicate.
--                `grow` and `hold` are its two loops and `advance` the inner one. The first has fuel
--                for 33 rounds, as in Estimate; the second for two rounds more than there are
--                nanoseconds to the limit, since a round in which the clock stands still is followed
--                by a division by zero.
--   Timing       lib/time.cpp: `Start`, `End`, `Time` and `GetOverhead`, whose static variables are part
--                of the state. `End` calls `GetOverhead`, which measures by calls of `End`; each such
--                call finds one more of the two clocks marked as called, so a depth of three is
--                enough.
--   CpuInfo      lib/os.cpp: the search in /proc/cpuinfo, with fuel for a round for each line.
--   Affinity     lib/os.cpp: `SetCoreAffinity`.
--   Work         lib/work.cpp: LargestFibonacci for any width of the integers, with fuel for two
--                rounds more than there are values of that width, and Mandelbrot, whose complex
--                arithmetic is a parameter.
--   Enums        bench/enum_utils.hpp and bench/enum_impl.hpp: the templates over enumerations, for
--                any instance of `Enum`.
--   Sets         What the program uses of std::set and std::map over enumerations.
--   Benchmarks   bench/list.hpp and bench/list.cpp. Defs and Sections have the enumerators of
--                `Benchmark`, Names their names, Category the categories, Map the initializer of
--                `CategoryBenchmarkMap`, Maps the functions on the two maps, and Spec the parser
--                `ParseSpecification`. Its fuel is one round more than the specification has
--                characters, and each round passes a character; the model keeps the text from an
--                offset on in place of the offset.
--   Dispatch     bench/dispatch.cpp: the switch of `MakeTimers`, whose specialisations are a
--                parameter.
--   Containers   bench/container_benchmarks.cpp: Recipes has what a specialisation of `MakeTimers`
--                calls, Deque, Lists, Ordered, Hashed and Vector the specialisations of each
--                category, and Generic the templates they share, with `MakeData` of
--                bench/container_utils.hpp.
--   Files        bench/file_utils.cpp: Calls has the calls of POSIX, as a parameter, and computations
--                that return or throw; Files itself the wrappers and the loops, Scoped `ScopedFile`,
--                and Steps what a program does with instances of it, calls of `close` that fail
--                included, as the relation that Owners has the invariant of. The loops run on fuel, for a
--                round for each byte and each interruption (Transfer, Reading, Filling).
--   Pipes        bench/pipe_benchmarks.cpp: `Pipe`, its methods, and two of the timers that use it.
--                The asserts are left out, as with NDEBUG. The loops stop at an outcome of their own
--                where they would store or take bytes outside of their buffer, which an interruption or
--                a part of the bytes leads to.
--   Run          bench/main.cpp: Plan is what `main` does after it has read its options,
--                `time_benchmark` the timing in its last loop, and Cores the choice of the two
--                cores.
--
-- A value of `Benchmark` goes from the specification (Benchmarks/Spec) to its timers (Dispatch), and
-- the timers to `auto_time` (Estimate), whose result `normalize` (Types) divides; `time_benchmark`
-- (Run) puts these together.
--
-- A chrono duration is its count, checked against 64 bits wherever it is computed; an `int` is checked
-- against 32 bits where the code computes it, and cut to 32 bits by the cast in `next_iters`. A set or
-- a map is a list in the order of its keys.
--
-- Not modelled: lib/warmup.cpp and the rest of lib/os.cpp, which compute with floating-point numbers
-- read from system files; lib/overhead.cpp, whose functions are empty; the option parser of
-- bench/main.cpp, which is Boost; the bodies of the other benchmarks, which are system calls to be
-- timed; the formatting of output; `PrintList`; and `TrigonometryFunctions`, which is only calls of the
-- C library.
pub mod Prelude
pub mod Timing
pub mod Types
pub mod Estimate
pub mod Work
pub mod Files
pub mod Iterate
pub mod Enums
pub mod Sets
pub mod Affinity
pub mod Benchmarks
pub mod CpuInfo
pub mod Dispatch
pub mod Containers
pub mod Pipes
pub mod Run
