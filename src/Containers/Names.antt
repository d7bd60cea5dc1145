-- ===== src/Containers/Names.antt =====
-- Each container benchmark does what its name says.
use Prim.Native.String.{String}
use text.Mathlib.Text.{◌==◌}
use text.Mathlib.TextEquality.{eq_iff}
use cpp_autotime.Prelude.{
  inl, inr, sym, subst, ap, ◌∙◌, and-true, ◌≡◌, refl, Bool, true, false, not, ◌&&◌, Option, some,
  none, List, [], ◌∷◌, arith, ◌==◌ as nat_eq,
}
use cpp_autotime.Enums.Laws.{Elem, Elem-range_of, underlying_inj}
use cpp_autotime.Benchmarks.RoundTrip.{benchmark_IsDeclared, category_IsDeclared}
use cpp_autotime.Sets.{insert, lookup}
use cpp_autotime.Enums.{to_str, range_of}
use cpp_autotime.Benchmarks.Defs
use cpp_autotime.Benchmarks.Defs.{Benchmark}
use cpp_autotime.Benchmarks.Names
use cpp_autotime.Benchmarks.Category
use cpp_autotime.Benchmarks.Category.{Category}
use cpp_autotime.Benchmarks.Enum.{benchmark_enum, category_enum}
use cpp_autotime.Benchmarks.Maps.{category_benchmark_map}
use cpp_autotime.Benchmarks.Membership.{categories_with}
use cpp_autotime.Containers.{container_timers, specialisation}
use cpp_autotime.Containers.Recipes.{Timers, name_of, category_of}

-- The categories of containers.
abbrev is_container : Category → Bool
is_container Category.std_deque = true
is_container Category.std_list = true
is_container Category.std_set = true
is_container Category.std_hashset = true
is_container Category.std_vector = true
is_container _ = false

-- The specialisation has the name and the only category of the benchmark; without one, the
-- benchmark has another category.
abbrev pub Matches : Benchmark → Option Timers → Type 0
Matches b (some timers) =
    (to_str b ≡ name_of timers)
    × (categories_with b category_benchmark_map ≡ category_of timers ∷ [])
Matches b none =
    (c : Category) × (categories_with b category_benchmark_map ≡ c ∷ []) × (is_container c ≡ false)

abbrev check : String → Option Timers → List Category → Bool
check name (some timers) (c ∷ []) =
    name == name_of timers
    && nat_eq (Category.underlying c) (Category.underlying (category_of timers))
check name none (c ∷ []) = not (is_container c)
check name o cs = false

not-eq : (a : Bool) → not a ≡ true → a ≡ false
not-eq true h = absurd (grind arith)
not-eq false h = refl

check-Matches :
    (b : Benchmark) (o : Option Timers) (cs : List Category)
    → categories_with b category_benchmark_map ≡ cs
    → check (to_str b) o cs ≡ true
    → Matches b o
check-Matches b none [] e h = absurd (grind arith)
check-Matches b (some timers) [] e h = absurd (grind arith)
check-Matches b none (c ∷ []) e h = (c, e, not-eq (is_container c) h)
check-Matches b (some timers) (c ∷ []) e h =
    let (name, category) = and-true _ _ h in
    (
      (eq_iff (to_str b) (name_of timers)).0 name,
      e
          ∙ ap (λ x. x ∷ [])
              (underlying_inj category_IsDeclared c (category_of timers) (grind (arith, category))),
    )
check-Matches b none (c ∷ c' ∷ cs) e h = absurd (grind arith)
check-Matches b (some timers) (c ∷ c' ∷ cs) e h = absurd (grind arith)

abbrev all_checked :
    List (Benchmark × Timers) → List (Category × List Benchmark) → List Benchmark → Bool
all_checked table map [] = true
all_checked table map (b ∷ bs) =
    check (to_str b) (lookup b table) (categories_with b map) && all_checked table map bs

each_checked : all_checked container_timers category_benchmark_map range_of ≡ true
unfolding range_of lookup to_str Names.to_cstr category_benchmark_map insert Defs.underlying
    Category.underlying
each_checked = refl

all_checked-Elem :
    (table : List (Benchmark × Timers)) (map : List (Category × List Benchmark))
    (bs : List Benchmark) (b : Benchmark)
    → all_checked table map bs ≡ true
    → Elem b bs
    → check (to_str b) (lookup b table) (categories_with b map) ≡ true
all_checked-Elem table map [] b h m = elim m [ ]
all_checked-Elem table map (x ∷ bs) b h (inl same) =
    subst (λ v. check (to_str v) (lookup v table) (categories_with v map) ≡ true) (sym same)
      (and-true _ _ h).0
all_checked-Elem table map (x ∷ bs) b h (inr m) =
    all_checked-Elem table map bs b (and-true _ _ h).1 m

-- The benchmarks for which bench/container_benchmarks.cpp has a specialisation of `MakeTimers` are
-- those of the five categories of containers. Each has the name of what its timers do, that is of
-- the container, the element, the operation and the size, and its category is that of the container.
pub specialisation-Matches : (b : Benchmark) → Matches b (specialisation b)
unfolding specialisation
specialisation-Matches b =
    check-Matches b (lookup b container_timers) (categories_with b category_benchmark_map) refl (
      all_checked-Elem container_timers category_benchmark_map range_of b each_checked
        (Elem-range_of benchmark_IsDeclared b))
