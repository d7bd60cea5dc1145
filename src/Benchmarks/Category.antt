-- ===== src/Benchmarks/Category.antt =====
-- `enum class Category` of bench/list.hpp, and its `ToCStr` in bench/list.cpp.
use Prim.Native.String.{String}
use cpp_autotime.Prelude.{ℕ, Option, some, List, [], ◌∷◌}

pub data Category : Type 0 where
  asio atomic cache condvar directory exception file function heap istream memory : Category
  mutex network ostream overhead pipe poll process socket string_from string_to : Category
  std_deque std_hash std_hashset std_list std_set std_string std_vector syscall : Category
  thread work : Category

-- The value of the enumerator.
unfoldable pub underlying : Category → ℕ
underlying asio = 0
underlying atomic = 1
underlying cache = 2
underlying condvar = 3
underlying directory = 4
underlying exception = 5
underlying file = 6
underlying function = 7
underlying heap = 8
underlying istream = 9
underlying memory = 10
underlying mutex = 11
underlying network = 12
underlying ostream = 13
underlying overhead = 14
underlying pipe = 15
underlying poll = 16
underlying process = 17
underlying socket = 18
underlying string_from = 19
underlying string_to = 20
underlying std_deque = 21
underlying std_hash = 22
underlying std_hashset = 23
underlying std_list = 24
underlying std_set = 25
underlying std_string = 26
underlying std_vector = 27
underlying syscall = 28
underlying thread = 29
underlying work = 30

unfoldable pub to_cstr : Category → Option String
to_cstr asio = some "asio"
to_cstr atomic = some "atomic"
to_cstr cache = some "cache"
to_cstr condvar = some "condvar"
to_cstr exception = some "exception"
to_cstr directory = some "directory"
to_cstr file = some "file"
to_cstr function = some "function"
to_cstr heap = some "heap"
to_cstr istream = some "istream"
to_cstr memory = some "memory"
to_cstr mutex = some "mutex"
to_cstr network = some "network"
to_cstr ostream = some "ostream"
to_cstr overhead = some "overhead"
to_cstr pipe = some "pipe"
to_cstr poll = some "poll"
to_cstr process = some "process"
to_cstr socket = some "socket"
to_cstr std_deque = some "std_deque"
to_cstr std_hash = some "std_hash"
to_cstr std_hashset = some "std_hashset"
to_cstr std_list = some "std_list"
to_cstr std_set = some "std_set"
to_cstr std_string = some "std_string"
to_cstr std_vector = some "std_vector"
to_cstr string_from = some "string_from"
to_cstr string_to = some "string_to"
to_cstr syscall = some "syscall"
to_cstr thread = some "thread"
to_cstr work = some "work"

-- The enumerators by value.
abbrev pub enumerators : List Category
enumerators =
    asio ∷ atomic ∷ cache ∷ condvar ∷ directory ∷ exception ∷ file ∷ function ∷ heap ∷ istream
    ∷ memory ∷ mutex ∷ network ∷ ostream ∷ overhead ∷ pipe ∷ poll ∷ process ∷ socket ∷ string_from
    ∷ string_to ∷ std_deque ∷ std_hash ∷ std_hashset ∷ std_list ∷ std_set ∷ std_string ∷ std_vector
    ∷ syscall ∷ thread ∷ work ∷ []
