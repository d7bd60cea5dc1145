-- ===== src/Run/Steady.antt =====
-- What is written for functions that take the same time in each iteration.
use native.Mathlib.Nat.{div-eq_of_lt-le}
use cpp_autotime.Prelude.{
  ℕ, ◌+◌, ◌*◌, ◌/◌, ◌^◌, ◌≤◌, ◌<◌, ◌≡◌, ◌∙◌, sym, ap, refl, ok, ok_inj, some, arith,
}
use cpp_autotime.Prelude.Int.{ℤ, pos, pos_part, sub_ℕ, quotient64-pos, checked-ok, checked, ◌-ℤ◌}
use cpp_autotime.Types.{Durations, DurationsForIters, normalize, subtract}
use cpp_autotime.Types.Rounding.{per_iter-pos}
use cpp_autotime.Estimate.{Timer, Sample, auto_time}
use cpp_autotime.Estimate.Contract.{estimate_lem}
use cpp_autotime.Estimate.Linear.{IsLinear, estimate-linear}
use cpp_autotime.Run.{time_benchmark, time_overhead}

-- Each call of the timer succeeds, and measures for each iteration c nanoseconds of real time and
-- k of thread time.
abbrev pub IsSteady : {S : Type 0} → ℕ → ℕ → Timer S → Type 0
IsSteady {S} c k timer =
    (n : ℕ) (s : S)
    → (d : Durations) × (s' : S) × (timer n s ≡ ok (d, s'))
      × (d.real ≡ pos (c * n))
      × (d.thread ≡ pos (k * n))

-- The whole measurement of n iterations.
abbrev exactly : ℕ → ℕ → ℕ → DurationsForIters
exactly n c k = record {
  num_iters = pos n;
  durs = record { real = pos (c * n); thread = pos (k * n) };
}

exact_quotient : (n c : ℕ) → 0 < n → (c * n * 1000 + n / 2) / n ≡ 1000 * c
exact_quotient n c h = div-eq_of_lt-le n (grind arith) (grind arith)

normalize-exactly :
    (n c k : ℕ)
    → 0 < n
    → n < 2 ^ 31
    → c * n < 2 ^ 53
    → k * n < 2 ^ 53
    → normalize (exactly n c k) ≡ ok (record { real = pos (1000 * c); thread = pos (1000 * k) })
unfolding normalize
normalize-exactly n c k h hn hc hk = rw (quotient64-pos n 2 (omega arith) (omega arith)) (
    ground (
      arith,
      per_iter-pos n (c * n) h hn hc,
      per_iter-pos n (k * n) h hn hk,
      exact_quotient n c h,
      exact_quotient n k h,
    ))

small : (c n t : ℕ) → 1 ≤ c → t < 2 ^ 30 → c * n ≤ t * 2 → n < 2 ^ 31
small c n t h lt le = grind arith

abbrev durations : ℤ → ℤ → Durations
durations r t = record { real = r; thread = t }

durations_eq : (d : Durations) (a b : ℤ) → d.real ≡ a → d.thread ≡ b → d ≡ durations a b
durations_eq d a b h k = ap (λ r. durations r d.thread) h ∙ ap (durations a) k

-- The thread time that goes with a measurement.
thread_of :
    {S : Type 0} (timer : Timer S) (c k : ℕ) (r : Sample S)
    → IsSteady c k timer
    → (s : S) → timer r.num_iters s ≡ ok (r.durs, r.state)
    → r.durs.thread ≡ pos (k * r.num_iters)
thread_of timer c k r steady s measured =
    let (d, s', e, _, thread) = steady r.num_iters s in
    let same : (r.durs, r.state) ≡ (d, s') = ok_inj (sym e ∙ measured) in
    ap (λ p. p.0.thread) same ∙ thread

auto_time-steady :
    {S : Type 0} (timer : Timer S) (c k t : ℕ) (s : S)
    → IsSteady c k timer
    → 1 ≤ c
    → k ≤ c
    → 7 * c ≤ 2 * t
    → t < 2 ^ 30
    → (n : ℕ) × (s' : S) × (auto_time (pos t) timer s ≡ ok (exactly n c k, s'))
      × (1 ≤ n)
      × (c * n ≤ t * 2)
unfolding auto_time
auto_time-steady {S} timer c k t s steady hc hk cheap lt =
    let (n, d, s', e, real, _, le) = estimate-linear timer c t s linear hc cheap (omega arith) in
    let (_, r, same, (s0, measured), n1, _, _, _, _, _) =
      estimate_lem timer t s (record { num_iters = pos n; durs = d }) s' (omega arith) e in
    let count : n ≡ r.num_iters = ap pos_part (ap (λ p. p.0.num_iters) same) in
    let thread : d.thread ≡ pos (k * n) =
      ap (λ p. p.0.durs.thread) same
      ∙ (thread_of timer c k r steady s0 measured ∙ ap (λ m. pos (k * m)) (sym count)) in
    (
      n,
      s',
      e
          ∙ ap (λ x. ok (record { num_iters = pos n; durs = x }, s'))
              (durations_eq d _ _ real thread),
      omega (arith, count, n1),
      le,
    )
  where
    linear : IsLinear c timer
    linear n s = let (d, s', e, r, _) = steady n s in (d, s', e, r)

minus : (a b : ℕ) → a < 2 ^ 63 → b < 2 ^ 63 → checked 63 (pos a -ℤ pos b) ≡ ok (sub_ℕ a b)
unfolding ◌-ℤ◌
minus a b ha hb =
    let diff : (pos a -ℤ pos b) ≡ sub_ℕ a b = ground arith in
    ap (checked 63) diff ∙ checked-ok 63 (sub_ℕ a b) (ground arith)

-- What is written for a function that takes c nanoseconds of real time and c' of thread time in each
-- iteration, and whose overhead takes o and o': exactly the differences, in picoseconds. Neither
-- takes more thread time than real time, each takes at least 1 nanosecond and at most 2/7 of the
-- timeslice t, and t is below 2 ^ 30 nanoseconds.
pub time_benchmark-steady :
    {S : Type 0} (primary overhead : Timer S) (c c' o o' t : ℕ) (s : S)
    → IsSteady c c' primary
    → IsSteady o o' overhead
    → 1 ≤ c
    → c' ≤ c
    → 7 * c ≤ 2 * t
    → 1 ≤ o
    → o' ≤ o
    → 7 * o ≤ 2 * t
    → t < 2 ^ 30
    → (n : ℕ) × (s' : S) × (time_benchmark
          (pos t)
          (record { primary = primary; overhead = some overhead })
          s
        ≡ ok (
          (
            record { real = sub_ℕ (1000 * c) (1000 * o); thread = sub_ℕ (1000 * c') (1000 * o') },
            pos n,
          ),
          s',
        ))
unfolding time_benchmark time_overhead subtract
time_benchmark-steady primary overhead c c' o o' t s hp ho c1 lc cc7 o1 lo co7 lt =
    let (n, s1, e, n1, le) = auto_time-steady primary c c' t s hp c1 lc cc7 lt in
    let (m, s2, f, m1, lem) = auto_time-steady overhead o o' t s1 ho o1 lo co7 lt in
    let en =
      normalize-exactly n c c' n1 (small c n t c1 lt le) (omega arith) (below c c' n t lc le lt) in
    let fm =
      normalize-exactly m o o' m1 (small o m t o1 lt lem) (omega arith)
        (below o o' m t lo lem lt) in
    (
      n,
      s2,
      rw
          (
            e,
            f,
            en,
            fm,
            minus (1000 * c) (1000 * o) (omega arith) (omega arith),
            minus (1000 * c') (1000 * o') (omega arith) (omega arith),
          )
          refl,
    )
  where
    below : (c k n t : ℕ) → k ≤ c → c * n ≤ t * 2 → t < 2 ^ 30 → k * n < 2 ^ 53
    below c k n t h le lt = grind arith
