-- ===== src/Estimate/Threshold.antt =====
-- The note on `Estimate` in include/autotime/estimate.hpp gives 1/3rd of the target as the cost
-- above which the function exits early.
use native.Mathlib.Nat.{le_refl}
use native.Mathlib.Decide.{dec_lt}
use cpp_autotime.Prelude.{
  ℕ, ◌+◌, ◌*◌, ◌/◌, ◌^◌, ◌≤◌, ◌<◌, ◌≡◌, refl, sym, ap, ◌∙◌, subst, ◌||◌, true, false, leb, ok,
  arith,
}
use cpp_autotime.Prelude.Int.{pos, ltb_ℤ}
use cpp_autotime.Types.{Durations}
use cpp_autotime.Estimate.Defs.{Timer, Sample, initial, ramp, estimate_from, estimate}
use cpp_autotime.Estimate.Ramp.{is_ramping-initial, measure-ok, ramp_stop, ramp_go}
use cpp_autotime.Estimate.Refine.{is_off-pos, refine_coarse}
use cpp_autotime.Estimate.Linear.{
  IsLinear, next_of, next_of_bounds, next_iters-linear, mul_mono, is_ramping-zero,
  is_ramping-linear,
}

above_ramp : (c t : ℕ) → 2 * t < 7 * c → leb (c * 1) (t / 1000) ≡ false
above_ramp c t h = ground arith

too_short :
    (c t : ℕ) (d : Durations)
    → 3 * c ≤ t
    → 7 ≤ t
    → d.real ≡ pos (c * (2 * 1))
    → (ltb_ℤ d.real (pos (t * 4 / 5)) || ltb_ℤ (pos (t * 2)) d.real) ≡ true
too_short c t d h k e = rw e (ground arith)

next_low : (c t q : ℕ) → 1 ≤ c → 2 * t < 7 * c → 2 * (c * q) ≤ 2 * t + c → q ≤ 3
next_low c t q hc h k = elim (dec_lt 3 q) [
  | yes p ↦ absurd (omega (arith, mul_mono c 4 c q (le_refl c) p))
  | no p ↦ omega arith
]

-- A function that takes c nanoseconds, more than 2/7 of the target t and at most a third of it, is
-- below the documented threshold, yet `Estimate` gives up after two measurements: it returns 2
-- iterations, whose duration is 2 * c, below 0.8 t. The target
-- is at least 7 and below 2 ^ 31.
pub estimate_gives_up :
    {S : Type 0} (timer : Timer S) (c t : ℕ) (s : S)
    → IsLinear c timer
    → 7 ≤ t
    → 2 * t < 7 * c
    → 3 * c ≤ t
    → t < 2 ^ 31
    → (d : Durations) × (s' : S) × (estimate timer (pos t) s
        ≡ ok (record { num_iters = pos 2; durs = d }, s'))
      × (d.real ≡ pos (2 * c))
      × (2 * c < t * 4 / 5)
unfolding estimate estimate_from
estimate_gives_up {S} timer c t s linear ht hc cheap lt =
    let (d, s1, e, r) = linear 1 s in
    let (d', s2, e', r') = linear 2 s1 in
    let m : Sample S = record { num_iters = 1; durs = d; state = s1 } in
    let m' : Sample S = record { num_iters = 2; durs = d'; state = s2 } in
    let ramped : ramp timer (pos t) 33 (pos 0) (initial s) ≡ ok m' =
      ramp_go timer (pos t) 32 (pos 0) (initial s) m (is_ramping-initial (pos t) s) (omega arith)
        (measure-ok timer 1 s d s1 e)
      ∙ ramp_go timer (pos t) 31 (pos 0) m m' (is_ramping-zero t d) (omega arith)
          (measure-ok timer 2 s1 d' s2 e')
      ∙ subst (λ x. ramp timer (pos t) 31 x m' ≡ ok m') (sym r)
          (ramp_stop timer (pos t) 30 (pos (c * 1)) m'
            (is_ramping-linear c t 1 d' (omega arith) (omega arith) r' ∙ above_ramp c t hc)) in
    (
      d',
      s2,
      rw (
        ramped,
        refine_coarse timer (pos t) 4 m'
            (is_off-pos t d' (omega arith) ∙ ap ok (too_short c t d' cheap ht r'))
            (
              pos (next_of c t 1),
              next_iters-linear c t 1 m' (omega arith) (omega arith) (omega arith) (omega arith) lt
                  refl r',
              omega (
                arith,
                next_low c t (next_of c t 1) (omega arith) hc
                    (next_of_bounds c t 1 (omega arith) (omega arith)).0,
              ),
            ),
      ),
      r' ∙ ap pos (omega arith),
      omega arith,
    )
