-- ===== src/Containers/Recipes.antt =====
-- What a specialisation of bench/container_benchmarks.cpp calls: one of the factories
-- `MakeInsertTimers`, `MakeCountTimers`, `MakeFindTimers`, `MakeCopyTimers` and
-- `MakeDestroyTimers`, with its template argument and its arguments.
use Prim.Native.String.{String, ◌++◌ as cat}
use cpp_autotime.Prelude.{ℕ, Bool, ◌==◌, ◌^◌, if◌then◌else◌}
use cpp_autotime.Benchmarks.Category.{Category}

pub data Element : Type 0 where
  int32 int64 float double string : Element

pub data Container : Type 0 where
  deque_of list_of set_of unordered_set_of vector_of : Container

pub data Timers : Type 0 where
  insert count copy destroy : Container → Element → ℕ → Timers
  find : Container → Element → Bool → ℕ → Timers

-- The parts of a benchmark's name.
abbrev element_name : Element → String
element_name int32 = "int32"
element_name int64 = "int64"
element_name float = "float"
element_name double = "double"
element_name string = "string"

abbrev container_name : Container → String
container_name deque_of = "deque"
container_name list_of = "list"
container_name set_of = "set"
container_name unordered_set_of = "hashset"
container_name vector_of = "vec"

abbrev size_name : ℕ → String
size_name n =
    if n == 2 ^ 0
    then "1"
    else if n == 2 ^ 4
    then "16"
    else if n == 2 ^ 8
    then "256"
    else if n == 2 ^ 12
    then "4k"
    else if n == 2 ^ 16
    then "64k"
    else if n == 2 ^ 20
    then "1M"
    else ""

abbrev join_name : Container → Element → String → ℕ → String
join_name c e operation n =
    cat (container_name c) (cat "_" (cat (element_name e) (cat "_" (cat operation (size_name n)))))

-- The container, the element, the operation and the size, as a benchmark's name puts them.
abbrev pub name_of : Timers → String
name_of (insert c e n) = join_name c e "insert" n
name_of (count c e n) = join_name c e "iterate" n
name_of (copy c e n) = join_name c e "copy" n
name_of (destroy c e n) = join_name c e "destroy" n
name_of (find c e sort n) = join_name c e "find" n

-- The category of a container.
abbrev category_name : Container → Category
category_name deque_of = Category.std_deque
category_name list_of = Category.std_list
category_name set_of = Category.std_set
category_name unordered_set_of = Category.std_hashset
category_name vector_of = Category.std_vector

abbrev pub category_of : Timers → Category
category_of (insert c e n) = category_name c
category_of (count c e n) = category_name c
category_of (copy c e n) = category_name c
category_of (destroy c e n) = category_name c
category_of (find c e sort n) = category_name c
