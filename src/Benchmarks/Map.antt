-- ===== src/Benchmarks/Map.antt =====
-- `CategoryBenchmarkMap` of bench/list.cpp: the entries of its initializer, in their order.
pub mod Early
pub mod Containers
pub mod Late
use Early.{
  asio_entry, atomic_entry, condvar_entry, directory_entry, exception_entry, file_entry,
  function_entry, heap_entry, istream_entry, memory_entry, mutex_entry, ostream_entry,
  overhead_entry, pipe_entry,
}
use Containers.{
  poll_entry, process_entry, std_deque_entry, std_hash_entry, std_hashset_entry, std_list_entry,
}
use Late.{
  std_set_entry, std_vector_entry, string_from_entry, string_to_entry, thread_entry, work_entry,
}
use cpp_autotime.Prelude.{List, [], ◌∷◌}
use cpp_autotime.Benchmarks.Defs.{Benchmark}
use cpp_autotime.Benchmarks.Category.{Category}

abbrev pub initializer : List (Category × List Benchmark)
initializer =
    asio_entry ∷ atomic_entry ∷ condvar_entry ∷ directory_entry ∷ exception_entry ∷ file_entry
    ∷ function_entry ∷ heap_entry ∷ istream_entry ∷ memory_entry ∷ mutex_entry ∷ ostream_entry
    ∷ overhead_entry ∷ pipe_entry ∷ poll_entry ∷ process_entry ∷ std_deque_entry ∷ std_hash_entry
    ∷ std_hashset_entry ∷ std_list_entry ∷ std_set_entry ∷ std_vector_entry ∷ string_from_entry
    ∷ string_to_entry ∷ thread_entry ∷ work_entry ∷ []
