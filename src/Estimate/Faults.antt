-- ===== src/Estimate/Faults.antt =====
-- Where `Estimate` has no result, and what it returns where there is no timeslice to aim for.
use native.Mathlib.Nat.{mul-le-mul, div-eq_of_lt}
use native.Mathlib.Decide.{dec_lt}
use cpp_autotime.Prelude.{
  ℕ, zero, suc, ◌+◌, ◌*◌, ◌^◌, ◌≤◌, ◌<◌, ◌-◌, ◌/◌, ◌||◌, max, ◌≡◌, inl, ap, sym, subst, ◌∙◌, true,
  ok, overflow, div_by_zero, arith,
}
use cpp_autotime.Prelude.Int.{
  ℤ, pos, checked-pos, quotient64-pos, quotient64-zero, pos-*ℤ, pos-+ℤ, pos-/ℤ, to_int32-pos, ltb_ℤ,
  ◌<ℤ◌,
}
use cpp_autotime.Types.{Durations}
use cpp_autotime.Estimate.Defs.{
  Timer, Sample, initial, is_ramping, is_off, next_iters, ramp, as_result, estimate_from, estimate,
  auto_time,
}
use cpp_autotime.Prelude.Powers.{doubled}
use cpp_autotime.Estimate.Ramp.{
  is_ramping-initial, measure-ok, ramp_go, ramp_overflow, ramp-IsMeasured,
}
use cpp_autotime.Estimate.Refine.{is_off-pos, refine_go, refine_coarse, refine_fault}

-- Every measurement of the timer succeeds and is of zero nanoseconds.
abbrev pub IsIdle : {S : Type 0} → Timer S → Type 0
IsIdle {S} timer =
    (n : ℕ) (s : S) → (d : Durations) × (s' : S) × (timer n s ≡ ok (d, s')) × (d.real ≡ pos 0)

is_ramping-idle : (target : ℤ) (d : Durations) → d.real ≡ pos 0 → is_ramping target (pos 0) d ≡ true
unfolding is_ramping
is_ramping-idle target d e = rw e (ground arith)

module _ {S : Type 0} (timer : Timer S) (target : ℤ) (idle : IsIdle timer) where
  ramp_idle :
      (fuel k : ℕ) (m : Sample S)
      → m.durs.real ≡ pos 0
      → 1 ≤ m.num_iters
      → 2 ^ 31 ≤ m.num_iters * 2 ^ k
      → k < fuel
      → ramp timer target fuel (pos 0) m ≡ overflow
  ramp_idle zero k m z h big lf = absurd (omega arith)
  ramp_idle (suc fuel) k m z h big lf = elim (dec_lt (2 * m.num_iters) (2 ^ 31)) [
    | yes p ↦
        let (d, s', e, z') = idle (2 * m.num_iters) m.state in
        let next : Sample S = record { num_iters = 2 * m.num_iters; durs = d; state = s' } in
        let now : max (2 * m.num_iters) 1 ≡ 2 * m.num_iters = omega arith in
        let (fewer, big') = doubled (2 ^ 31) m.num_iters k big (omega arith) in
        ramp_go timer target fuel (pos 0) m next (is_ramping-idle target m.durs z) p
          (rw now (measure-ok timer _ _ _ _ e))
        ∙ subst (λ x. ramp timer target fuel x next ≡ overflow) (sym z)
            (ramp_idle fuel (k - 1) next z' (omega arith) big' (omega arith))
    | no p ↦ ramp_overflow timer target fuel _ m (is_ramping-idle target m.durs z) (omega arith)
  ]

  -- A timer that measures zero nanoseconds for every number of iterations never ends the first
  -- loop by its test: doubling the number of iterations overflows an `int`, for every target.
  pub estimate_idle : (s : S) → estimate timer target s ≡ overflow
  unfolding estimate estimate_from
  estimate_idle s =
      let (d, s', e, z) = idle 1 s in
      let first : Sample S = record { num_iters = 1; durs = d; state = s' } in
      rw (
        ramp_go timer target 32 (pos 0) (initial s) first (is_ramping-initial target s)
          (omega arith) (measure-ok timer 1 s d s' e)
        ∙ ramp_idle 32 31 first z (omega arith) (omega arith) (omega arith))

next_iters-zero :
    {S : Type 0} (t : ℕ) (m : Sample S)
    → m.durs.real ≡ pos 0
    → m.num_iters < 2 ^ 31
    → t < 2 ^ 31
    → next_iters (pos t) m ≡ div_by_zero
unfolding next_iters
next_iters-zero t m z n lt =
    let bound : m.num_iters * t ≤ 2 ^ 31 * 2 ^ 31 =
      mul-le-mul {n₂ = 2 ^ 31} {m₂ = 2 ^ 31} (omega arith) (omega arith) in
    rw (
      z,
      quotient64-pos 0 2 (omega arith) (omega arith),
      pos-*ℤ m.num_iters t,
      checked-pos 63 (m.num_iters * t) (omega (arith, bound)),
      pos-+ℤ (m.num_iters * t) 0,
      checked-pos 63 (m.num_iters * t + 0) (omega (arith, bound)),
      quotient64-zero,
    )

-- A target of zero asks for no iterations at all.
next_iters-no_target :
    {S : Type 0} (m : Sample S) (r : ℕ)
    → m.durs.real ≡ pos r
    → 0 < r
    → r < 2 ^ 63
    → next_iters (pos 0) m ≡ ok (pos 0)
unfolding next_iters
next_iters-no_target m r e h lr = rw (
  e,
  quotient64-pos r 2 (omega arith) (omega arith),
  pos-*ℤ m.num_iters 0,
  checked-pos 63 (m.num_iters * 0) (omega arith),
  pos-+ℤ (m.num_iters * 0) (r / 2),
  checked-pos 63 (m.num_iters * 0 + r / 2) (omega arith),
  quotient64-pos (m.num_iters * 0 + r / 2) r h (omega arith),
  div-eq_of_lt {n = m.num_iters * 0 + r / 2} {m = r} (omega arith),
  to_int32-pos 0 (omega arith),
)

below_target :
    (t : ℕ) (d : Durations)
    → 2 ≤ t
    → d.real ≡ pos 0
    → (ltb_ℤ d.real (pos (t * 4 / 5)) || ltb_ℤ (pos (t * 2)) d.real) ≡ true
below_target t d h e = rw e (ground arith)

above_nothing :
    (r : ℕ) (d : Durations)
    → 0 < r
    → d.real ≡ pos r
    → (ltb_ℤ d.real (pos (0 * 4 / 5)) || ltb_ℤ (pos (0 * 2)) d.real) ≡ true
above_nothing r d h e = rw e (ground arith)

module _ {S : Type 0} (timer : Timer S) where
  -- If the second loop takes a next number of iterations q, from 4 to the largest `int`, and the
  -- timer then measures zero nanoseconds, the loop divides by zero, for targets t from 2 to 2 ^ 31 - 1.
  pub estimate_zero :
      (t q : ℕ) (s s' : S) (m : Sample S) (d : Durations)
      → 2 ≤ t
      → t < 2 ^ 31
      → ramp timer (pos t) 33 (pos 0) (initial s) ≡ ok m
      → is_off (pos t) m.durs ≡ ok true
      → next_iters (pos t) m ≡ ok (pos q)
      → 4 ≤ q
      → q < 2 ^ 31
      → timer q m.state ≡ ok (d, s')
      → d.real ≡ pos 0
      → estimate timer (pos t) s ≡ div_by_zero
  unfolding estimate estimate_from
  estimate_zero t q s s' m d ht lt ramped off next hq lq e z =
      let last : Sample S = record { num_iters = q; durs = d; state = s' } in
      rw (
        ramped,
        refine_go timer (pos t) 4 q m last off next hq (measure-ok timer q m.state d s' e)
            ∙ refine_fault timer (pos t) 3 last
                (is_off-pos t d (omega arith) ∙ ap ok (below_target t d ht z))
                (next_iters-zero t last z lq lt),
      )

  -- With a target of zero, which `GetTimeslice` returns where it finds no scheduler setting, the
  -- second loop changes nothing: the result is that of the first loop, whose duration, below 2 ^ 63
  -- nanoseconds, is positive.
  pub estimate_no_target :
      (s : S) (m : Sample S) (r : ℕ)
      → ramp timer (pos 0) 33 (pos 0) (initial s) ≡ ok m
      → m.durs.real ≡ pos r
      → r < 2 ^ 63
      → auto_time (pos 0) timer s ≡ ok (as_result m)
  unfolding estimate estimate_from auto_time
  estimate_no_target s m r ramped e lr =
      let (_, _, above) =
        ramp-IsMeasured timer (pos 0) 33 (pos 0) (initial s) m (inl (is_ramping-initial (pos 0) s))
          ramped in
      let above' : pos 0 <ℤ pos r = subst (λ x. x <ℤ pos r) (pos-/ℤ 0 1000) (rw e at above) in
      rw (
        ramped,
        refine_coarse timer (pos 0) 4 m
            (is_off-pos 0 m.durs (omega arith) ∙ ap ok (above_nothing r m.durs (omega arith) e))
            (pos 0, next_iters-no_target m r e (omega arith) lr, omega arith),
      )
