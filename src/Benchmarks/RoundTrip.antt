-- ===== src/Benchmarks/RoundTrip.antt =====
-- The names of the enumerators, and that the templates read them back.
use Prim.Native.String.{String}
use text.Mathlib.Text.{◌==◌}
use cpp_autotime.Prelude.{
  ◌≡◌, ◌≢◌, ◌≤◌, ◌∙◌, refl, sym, subst, ap, some, Bool, true, false, not, ◌&&◌, not-true, inl, inr,
  List, [], ◌∷◌, arith,
}
use cpp_autotime.Enums.{to_str, from_string, range_of, index_of}
use cpp_autotime.Enums.Laws.{IsDeclared, all_found, from_string-to_str_lem, Elem, Elem-range_of}
use cpp_autotime.Benchmarks.Defs
use cpp_autotime.Benchmarks.Defs.{Benchmark}
use cpp_autotime.Benchmarks.Names
use cpp_autotime.Benchmarks.Sections
use cpp_autotime.Benchmarks.Category
use cpp_autotime.Benchmarks.Category.{Category}
use cpp_autotime.Benchmarks.Enum.{
  benchmark_enum, list_mode_enum, category_enum, ListMode, mode_to_cstr, mode_value, get_elem?,
}

cast-underlying : (b : Benchmark) → get_elem? Sections.enumerators (Defs.underlying b) ≡ some b
unfolding Defs.underlying
cast-underlying Benchmark.asio_dispatch = refl
cast-underlying _ = refl

at_most_last : (b : Benchmark) → Defs.underlying b ≤ 466
unfolding Defs.underlying
at_most_last Benchmark.asio_dispatch = omega arith
at_most_last _ = omega arith

cast_category : (c : Category) → get_elem? Category.enumerators (Category.underlying c) ≡ some c
unfolding Category.underlying
cast_category Category.asio = refl
cast_category _ = refl

category_at_most_last : (c : Category) → Category.underlying c ≤ 30
unfolding Category.underlying
category_at_most_last Category.asio = omega arith
category_at_most_last _ = omega arith

pub benchmark_IsDeclared : IsDeclared benchmark_enum
unfolding Defs.underlying
benchmark_IsDeclared = record {
  cast-underlying = cast-underlying;
  from_first = λ b. omega arith;
  to_last = at_most_last;
}

pub category_IsDeclared : IsDeclared category_enum
unfolding Category.underlying
category_IsDeclared = record {
  cast-underlying = cast_category;
  from_first = λ c. omega arith;
  to_last = category_at_most_last;
}

all_benchmarks_found :
    all_found benchmark_IsDeclared (index_of range_of []) (range_of {E = Benchmark}) ≡ true
unfolding from_string to_str Defs.underlying Names.to_cstr
all_benchmarks_found = refl

-- A name is not empty if a test finds it so.
not-empty : (name : String) → (name == "") ≡ false → name ≢ ""
not-empty name h e = true-ne (sym (ap (λ n. n == "") e) ∙ h)
  where
    true-ne : true ≢ false
    true-ne k = cc k

abbrev all_named : List Benchmark → Bool
all_named [] = true
all_named (b ∷ bs) = not (to_str b == "") && all_named bs

each_named : all_named range_of ≡ true
unfolding range_of to_str Defs.underlying Names.to_cstr
each_named = refl

all_named-Elem :
    (bs : List Benchmark) (b : Benchmark)
    → all_named bs ≡ true
    → Elem b bs
    → (to_str b == "") ≡ false
all_named-Elem [] b h m = elim m [ ]
all_named-Elem (x ∷ bs) b h (inl same) =
    subst (λ v. (to_str v == "") ≡ false) (sym same) (not-true _ _ h).0
all_named-Elem (x ∷ bs) b h (inr m) = all_named-Elem bs b (not-true _ _ h).1 m

-- Each of the 467 benchmarks has a name: `ToStr` gives a string for it that is not empty, as it is
-- where `ToCStr` has no case, and `FromString` of this string is the benchmark again. So no two of
-- them have the same name.
pub benchmark_from_to : (b : Benchmark) → (to_str b ≢ "") × (from_string (to_str b) ≡ some b)
benchmark_from_to b = (
  not-empty (to_str b)
      (all_named-Elem range_of b each_named (Elem-range_of benchmark_IsDeclared b)),
  from_string-to_str_lem benchmark_IsDeclared all_benchmarks_found b,
)

-- Each category, and each list mode, has a name: the string that `ToStr` gives for it is not empty,
-- as it is where `ToCStr` has no case, and `FromString` gives the category or the mode back from it.
pub category_from_to :
    ((c : Category) → (to_str c ≢ "") × (from_string (to_str c) ≡ some c))
    × ((mode : ListMode) → (to_str mode ≢ "") × (from_string (to_str mode) ≡ some mode))
unfolding from_string to_str Category.underlying Category.to_cstr mode_value mode_to_cstr
category_from_to = (
  λ c. (not-empty (to_str c) (category_named c), of_category c),
  λ mode. (not-empty (to_str mode) (mode_named mode), of_mode mode),
)
  where
    category_named : (c : Category) → (to_str c == "") ≡ false
    category_named Category.asio = refl
    category_named _ = refl

    of_category : (c : Category) → from_string (to_str c) ≡ some c
    of_category Category.asio = refl
    of_category _ = refl

    mode_named : (mode : ListMode) → (to_str mode == "") ≡ false
    mode_named ListMode.benchmarks = refl
    mode_named _ = refl

    of_mode : (mode : ListMode) → from_string (to_str mode) ≡ some mode
    of_mode ListMode.benchmarks = refl
    of_mode _ = refl
