-- ===== src/Benchmarks/Maps.antt =====
-- `CategoryBenchmarkMap`, `BenchmarkCategoryMap`, `CategoriesOf` and `GroupByCategory` of
-- bench/list.cpp.
use cpp_autotime.Prelude.{Option, none, some, List, [], ◌∷◌}
use cpp_autotime.Sets.{insert, insert_all, lookup, update}
use cpp_autotime.Benchmarks.Defs.{Benchmark}
use cpp_autotime.Benchmarks.Category.{Category}
use cpp_autotime.Benchmarks.Enum.{benchmark_enum, category_enum}
use cpp_autotime.Benchmarks.Map

-- The map of an initializer list, from `result` on: an entry whose key is there already is not
-- inserted.
unfoldable pub init_map :
    List (Category × List Benchmark)
    → List (Category × List Benchmark)
    → List (Category × List Benchmark)
unfolding insert_all update
init_map [] result = result
init_map ((category, benchmarks) ∷ entries) result =
    init_map entries (update category (insert_all benchmarks []) (λ kept. kept) result)

-- `CategoryBenchmarkMap`
unfoldable pub category_benchmark_map : List (Category × List Benchmark)
unfolding init_map
category_benchmark_map = init_map Map.initializer []

-- The inner and the outer loop of `BenchmarkCategoryMap`.
unfoldable pub assign :
    Category → List Benchmark → List (Benchmark × Category) → List (Benchmark × Category)
unfolding update
assign category [] result = result
assign category (benchmark ∷ benchmarks) result =
    assign category benchmarks (update benchmark category (λ _. category) result)

unfoldable pub assign_all :
    List (Category × List Benchmark) → List (Benchmark × Category) → List (Benchmark × Category)
unfolding assign
assign_all [] result = result
assign_all ((category, benchmarks) ∷ entries) result =
    assign_all entries (assign category benchmarks result)

-- `BenchmarkCategoryMap`
unfoldable pub benchmark_category_map : List (Benchmark × Category)
unfolding assign_all category_benchmark_map
benchmark_category_map = assign_all category_benchmark_map []

-- The body of the loop of `CategoriesOf`, given what was found for the benchmark.
unfoldable pub add_category : Option Category → List Category → List Category
add_category none categories = categories
add_category (some category) categories = insert category categories

-- The loop of `CategoriesOf`, over the map it searches.
unfoldable pub categories_from :
    List (Benchmark × Category) → List Benchmark → List Category → List Category
unfolding add_category
categories_from category_of [] categories = categories
categories_from category_of (benchmark ∷ list) categories =
    categories_from category_of list (add_category (lookup benchmark category_of) categories)

-- `CategoriesOf`
unfoldable pub categories_of : List Benchmark → List Category
categories_of list = categories_from benchmark_category_map list []

-- The body of the loop of `GroupByCategory`, given what was found for the benchmark.
unfoldable pub add_to_group :
    Option Category
    → Benchmark
    → List (Category × List Benchmark)
    → List (Category × List Benchmark)
add_to_group none benchmark by_category = by_category
add_to_group (some category) benchmark by_category =
    update category [] (insert benchmark) by_category

-- The loop of `GroupByCategory`, over the map it searches.
unfoldable pub group_from :
    List (Benchmark × Category)
    → List Benchmark
    → List (Category × List Benchmark)
    → List (Category × List Benchmark)
unfolding add_to_group
group_from category_of [] by_category = by_category
group_from category_of (benchmark ∷ list) by_category =
    group_from category_of list (add_to_group (lookup benchmark category_of) benchmark by_category)

-- `GroupByCategory`
unfoldable pub group_by_category : List Benchmark → List (Category × List Benchmark)
group_by_category list = group_from benchmark_category_map list []
