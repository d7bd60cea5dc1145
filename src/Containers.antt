-- ===== src/Containers.antt =====
-- bench/container_benchmarks.cpp and bench/container_utils.hpp: the benchmarks of the containers.
pub mod Recipes
mod Deque
mod Lists
mod Ordered
mod Hashed
mod Vector
pub mod Names
pub mod Generic
pub mod Lookup
mod Tests
use cpp_autotime.Prelude.{Option, List, ◌++◌}
use cpp_autotime.Sets.{lookup}
use cpp_autotime.Benchmarks.Defs.{Benchmark}
use cpp_autotime.Benchmarks.Enum.{benchmark_enum}
use cpp_autotime.Containers.Recipes.{Timers}
use Deque.*
use Lists.*
use Ordered.*
use Hashed.*
use Vector.*

-- The specialisations of each category.
abbrev pub deque_timers : List (Benchmark × Timers)
deque_timers =
    deque_insert_timers
    ++ (deque_count_timers ++ (deque_find_timers ++ (deque_copy_timers ++ deque_destroy_timers)))

abbrev pub hashset_timers : List (Benchmark × Timers)
hashset_timers =
    hashset_insert_timers
    ++ (hashset_count_timers
        ++ (hashset_find_timers ++ (hashset_copy_timers ++ hashset_destroy_timers)))

abbrev pub list_timers : List (Benchmark × Timers)
list_timers =
    list_insert_timers
    ++ (list_count_timers ++ (list_find_timers ++ (list_copy_timers ++ list_destroy_timers)))

abbrev pub set_timers : List (Benchmark × Timers)
set_timers =
    set_insert_timers
    ++ (set_count_timers ++ (set_find_timers ++ (set_copy_timers ++ set_destroy_timers)))

abbrev pub vec_timers : List (Benchmark × Timers)
vec_timers =
    vec_insert_timers
    ++ (vec_count_timers ++ (vec_find_timers ++ (vec_copy_timers ++ vec_destroy_timers)))

abbrev pub container_timers : List (Benchmark × Timers)
container_timers = deque_timers ++ (hashset_timers ++ (list_timers ++ (set_timers ++ vec_timers)))

-- `MakeTimers< b >`, where the file has a specialisation for b.
unfoldable pub specialisation : Benchmark → Option Timers
specialisation b = lookup b container_timers
