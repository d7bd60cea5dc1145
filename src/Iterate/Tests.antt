-- ===== src/Iterate/Tests.antt =====
-- `IterateUntil` on a clock that counts the units of work, and the witnesses of its theorems.
use cpp_autotime.Prelude.{ℕ, suc, ◌≡◌, ◌≢◌, refl, true, ok, spin, arith}
use cpp_autotime.Prelude.Int.{pos, int_ops, ◌≤ℤ◌}
use cpp_autotime.Iterate.{
  World, pass, is_short, grow, advance, next_count, round_of, hold, iterate_until,
}
use cpp_autotime.Iterate.Ends.{IsSteady, iterate_until-ne-spin}
use cpp_autotime.Iterate.Results.{HasEnded, iterate_until-HasEnded}

-- A unit of work takes a nanosecond, and nothing else takes time.
abbrev counting : World ℕ
counting = record { now = λ n. (pos n, n); work = λ n. suc n; predicate = λ n. (true, n) }

counting-IsSteady : IsSteady counting (λ n. pos n)
counting-IsSteady = record {
  reads = λ n. refl;
  now_later = λ n. omega arith;
  work_later = λ n. omega arith;
  predicate_later = λ n. omega arith;
}

until_100 : iterate_until counting (pos 100) (pos 10) 0 ≡ ok (pos 100, 100)
unfolding iterate_until int_ops pass is_short grow advance next_count round_of hold
until_100 = refl

iterate_until-ne-spin_example : iterate_until counting (pos 100) (pos 10) 0 ≢ spin
iterate_until-ne-spin_example =
    iterate_until-ne-spin counting (λ n. pos n) counting-IsSteady (pos 100) (pos 10) 0 (omega arith)

iterate_until-HasEnded_example :
    (pos 0 ≤ℤ pos 100)
    × HasEnded counting (λ n. pos n) counting-IsSteady (pos 100) (pos 10) (pos 100) 100
iterate_until-HasEnded_example =
    iterate_until-HasEnded counting (λ n. pos n) counting-IsSteady (pos 100) (pos 10) 0 (pos 100)
      100 until_100
