-- ===== src/Benchmarks/Enum.antt =====
-- The enumerations of bench/list.hpp as instances of the templates' interface.
use Prim.Native.String.{String}
use cpp_autotime.Prelude.{ℕ, zero, suc, Option, none, some, List, [], ◌∷◌}
use cpp_autotime.Enums.{Enum}
use cpp_autotime.Benchmarks.Defs
use cpp_autotime.Benchmarks.Defs.{Benchmark}
use cpp_autotime.Benchmarks.Names
use cpp_autotime.Benchmarks.Sections
use cpp_autotime.Benchmarks.Category
use cpp_autotime.Benchmarks.Category.{Category}

-- `static_cast` from the underlying value, over the enumerators in their order.
abbrev pub get_elem? {ℓ} : {A : Type ℓ} → List A → ℕ → Option A
get_elem? [] i = none
get_elem? (x ∷ xs) zero = some x
get_elem? (x ∷ xs) (suc i) = get_elem? xs i

instance abbrev pub benchmark_enum : Enum Benchmark
benchmark_enum = record {
  underlying = Defs.underlying;
  cast = get_elem? Sections.enumerators;
  first = Benchmark.asio_dispatch;
  last = Benchmark.trigonometry;
  to_cstr = Names.to_cstr;
}

instance abbrev pub category_enum : Enum Category
category_enum = record {
  underlying = Category.underlying;
  cast = get_elem? Category.enumerators;
  first = Category.asio;
  last = Category.work;
  to_cstr = Category.to_cstr;
}

pub data ListMode : Type 0 where
  benchmarks categories joint : ListMode

unfoldable pub mode_value : ListMode → ℕ
mode_value benchmarks = 0
mode_value categories = 1
mode_value joint = 2

-- `ToCStr( ListMode )`
unfoldable pub mode_to_cstr : ListMode → Option String
mode_to_cstr benchmarks = some "benchmarks"
mode_to_cstr categories = some "categories"
mode_to_cstr joint = some "joint"

instance abbrev pub list_mode_enum : Enum ListMode
list_mode_enum = record {
  underlying = mode_value;
  cast = get_elem? (benchmarks ∷ categories ∷ joint ∷ []);
  first = benchmarks;
  last = joint;
  to_cstr = mode_to_cstr;
}
