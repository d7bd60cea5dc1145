-- ===== src/Benchmarks/Membership.antt =====
-- Which category each benchmark is in.
use cpp_autotime.Prelude.{
  ◌≡◌, inl, inr, refl, sym, subst, ap, ◌∙◌, Bool, true, false, ◌&&◌, ◌||◌, Option, none, some, List,
  [], ◌∷◌, ◌==◌, arith, if◌then◌else◌,
}
use cpp_autotime.Sets.{insert, lookup, update}
use cpp_autotime.Sets.Laws.{lookup-update}
use cpp_autotime.Enums.{range_of}
use cpp_autotime.Enums.Laws.{Elem, Elem-range_of}
use cpp_autotime.Benchmarks.Defs
use cpp_autotime.Benchmarks.Defs.{Benchmark}
use cpp_autotime.Benchmarks.Category
use cpp_autotime.Benchmarks.Category.{Category}
use cpp_autotime.Benchmarks.Enum.{benchmark_enum, category_enum}
use cpp_autotime.Benchmarks.RoundTrip.{benchmark_IsDeclared}
use cpp_autotime.Benchmarks.Maps.{
  category_benchmark_map, benchmark_category_map, assign, assign_all,
}

abbrev pub is_in : Benchmark → List Benchmark → Bool
is_in b [] = false
is_in b (x ∷ xs) = Defs.underlying b == Defs.underlying x || is_in b xs

-- The categories whose sets have the benchmark.
abbrev pub categories_with : Benchmark → List (Category × List Benchmark) → List Category
categories_with b [] = []
categories_with b ((c, bs) ∷ entries) =
    let rest = categories_with b entries in if is_in b bs then c ∷ rest else rest

abbrev pub last_of : List Category → Option Category → Option Category
last_of [] c = c
last_of (c ∷ cs) _ = last_of cs (some c)

lookup-assign :
    (b : Benchmark) (c : Category) (bs : List Benchmark) (map : List (Benchmark × Category))
    → lookup b (assign c bs map) ≡ (if is_in b bs then some c else lookup b map)
unfolding assign
lookup-assign b c [] map = refl
lookup-assign b c (x ∷ xs) map =
    ground (arith, lookup-assign b c xs (update x c (λ _. c) map), lookup-update b x c map)

-- `BenchmarkCategoryMap` has for a benchmark the last of the categories with it.
lookup-assign_all :
    (b : Benchmark) (entries : List (Category × List Benchmark)) (map : List (Benchmark × Category))
    → lookup b (assign_all entries map) ≡ last_of (categories_with b entries) (lookup b map)
unfolding assign_all
lookup-assign_all b [] map = refl
lookup-assign_all b ((c, bs) ∷ entries) map =
    lookup-assign_all b entries (assign c bs map)
    ∙ (ap (last_of (categories_with b entries)) (lookup-assign b c bs map)
        ∙ last_of-if (is_in b bs))
  where
    last_of-if :
        (test : Bool)
        → last_of (categories_with b entries) (if test then some c else lookup b map)
          ≡ last_of
              (if test then c ∷ categories_with b entries else categories_with b entries)
              (lookup b map)
    last_of-if true = refl
    last_of-if false = refl

abbrev is_single : List Category → Bool
is_single (c ∷ []) = true
is_single _ = false

abbrev all_single : List (Category × List Benchmark) → List Benchmark → Bool
all_single entries [] = true
all_single entries (b ∷ bs) = is_single (categories_with b entries) && all_single entries bs

all_single-Elem :
    (entries : List (Category × List Benchmark)) (bs : List Benchmark) (b : Benchmark)
    → all_single entries bs ≡ true
    → Elem b bs
    → is_single (categories_with b entries) ≡ true
all_single-Elem entries [] b h m = elim m [ ]
all_single-Elem entries (x ∷ bs) b h (inl same) =
    subst (λ v. is_single (categories_with v entries) ≡ true) (sym same) (grind arith)
all_single-Elem entries (x ∷ bs) b h (inr m) = all_single-Elem entries bs b (grind arith) m

each_single : all_single category_benchmark_map range_of ≡ true
unfolding range_of category_benchmark_map insert Defs.underlying Category.underlying
each_single = refl

only_one : (cs : List Category) → is_single cs ≡ true → (c : Category) × (cs ≡ c ∷ [])
only_one [] h = absurd (grind arith)
only_one (c ∷ []) h = (c, refl)
only_one (c ∷ c' ∷ cs) h = absurd (grind arith)

-- Each benchmark is in the set of exactly one category of `CategoryBenchmarkMap`, and that is the
-- category that `BenchmarkCategoryMap` has for it.
pub one_category :
    (b : Benchmark)
    → (c : Category) × (categories_with b category_benchmark_map ≡ c ∷ [])
      × (lookup b benchmark_category_map ≡ some c)
unfolding benchmark_category_map lookup
one_category b =
    let (c, one) = only_one _ (
      all_single-Elem category_benchmark_map range_of b each_single
        (Elem-range_of benchmark_IsDeclared b)) in
    (c, one, lookup-assign_all b category_benchmark_map [] ∙ ap (λ cs. last_of cs none) one)
