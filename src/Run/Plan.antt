-- ===== src/Run/Plan.antt =====
-- What `main` (bench/main.cpp) does after it has read its options, in order.
use Prim.Native.String.{String}
use cpp_autotime.Prelude.{
  ◌≡◌, refl, ap, Bool, true, false, not, ◌&&◌, ◌||◌, Option, none, some, List, [], ◌∷◌, map,
  if◌then◌else◌,
}
use cpp_autotime.Benchmarks.Defs.{Benchmark}
use cpp_autotime.Benchmarks.Enum.{ListMode}
use cpp_autotime.Benchmarks.Spec.{Parsed, parsed, invalid_name, out_of_fuel, parse_specification}

-- The options that decide what is done.
pub record Options : Type 0 where
  pub help : Bool
  pub spec : String
  pub list_mode : Option ListMode
  pub describe_mode : Option ListMode
  pub run : Bool

-- `PrintList`, `PrintDescriptions`, `SetupCores` and a round of the last loop.
pub data Step : Type 0 where
  print_help set_up : Step
  print_list print_descriptions : ListMode → List Benchmark → Step
  time : Benchmark → Step

pub data Course : Type 0 where
  steps : List Step → Course
  throws : String → Course
  no_course : Course

abbrev pub is_some {ℓ} : {A : Type ℓ} → Option A → Bool
is_some none = false
is_some (some _) = true

-- From `SetupCores` on.
unfoldable pub timing : List Benchmark → List Step
timing benchmarks = set_up ∷ map time benchmarks

-- From `if (describe_mode)` on.
unfoldable pub after_list : Bool → Option ListMode → List Benchmark → List Step
unfolding timing
after_list run none benchmarks = timing benchmarks
after_list run (some mode) benchmarks =
    print_descriptions mode benchmarks ∷ (if not run then [] else timing benchmarks)

-- From `if (list_mode)` on.
unfoldable pub after_parse : Bool → Option ListMode → Option ListMode → List Benchmark → List Step
unfolding after_list
after_parse run none describe_mode benchmarks = after_list run describe_mode benchmarks
after_parse run (some mode) describe_mode benchmarks =
    print_list mode benchmarks
    ∷ (if not run && not (is_some describe_mode)
        then []
        else after_list run describe_mode benchmarks)

unfoldable pub course_of : Options → Parsed → Course
unfolding after_parse
course_of o (parsed benchmarks) = steps (after_parse o.run o.list_mode o.describe_mode benchmarks)
course_of o (invalid_name name) = throws name
course_of o out_of_fuel = no_course

-- `main`
unfoldable pub main : Options → Course
unfolding course_of
main o = if o.help then steps (print_help ∷ []) else course_of o (parse_specification o.spec)

-- The benchmarks that are timed, in order.
abbrev pub timed : List Step → List Benchmark
timed [] = []
timed (time b ∷ rest) = b ∷ timed rest
timed (_ ∷ rest) = timed rest

timed-map : (bs : List Benchmark) → timed (map time bs) ≡ bs
timed-map [] = refl
timed-map (b ∷ bs) = ap (λ rest. b ∷ rest) (timed-map bs)

-- Where the specification is read as a set, `main` without `--help` times the benchmarks of that
-- set, each once and in order, if `--run` is given or if neither `--list` nor `--describe` is;
-- otherwise it times none.
pub main-timed :
    (o : Options) (benchmarks : List Benchmark)
    → o.help ≡ false
    → parse_specification o.spec ≡ parsed benchmarks
    → (course : List Step) × (main o ≡ steps course)
      × (timed course ≡ (
          if o.run || (not (is_some o.list_mode) && not (is_some o.describe_mode))
          then benchmarks
          else []))
unfolding main course_of after_parse after_list timing
main-timed o benchmarks h e = (
  after_parse o.run o.list_mode o.describe_mode benchmarks,
  rw h (rw e refl),
  cases o.run o.list_mode o.describe_mode,
)
  where
    cases :
        (run : Bool) (list_mode describe_mode : Option ListMode)
        → timed (after_parse run list_mode describe_mode benchmarks) ≡ (
            if run || (not (is_some list_mode) && not (is_some describe_mode))
            then benchmarks
            else [])
    cases true none none = timed-map benchmarks
    cases true none (some _) = timed-map benchmarks
    cases true (some _) none = timed-map benchmarks
    cases true (some _) (some _) = timed-map benchmarks
    cases false none none = timed-map benchmarks
    cases false none (some _) = refl
    cases false (some _) none = refl
    cases false (some _) (some _) = refl
