-- ===== src/Estimate/Linear.antt =====
-- `Estimate` on a function whose runs all take the same time, c nanoseconds each.
use native.Mathlib.Nat.{div-mul-le_self, lt-div-mul-add, le_refl}
use native.Mathlib.Decide.{dec_lt}
use cpp_autotime.Prelude.{
  ℕ, zero, suc, ◌+◌, ◌-◌, ◌*◌, ◌/◌, ◌^◌, ◌≤◌, ◌<◌, max, ◌≡◌, refl, sym, ap, ◌∙◌, subst, inl, inr,
  true, false, ok, arith, Bool-cases, leb→le, leb, ◌||◌,
}
use cpp_autotime.Prelude.Int.{
  pos, ltb_ℤ, ◌≤ℤ◌, checked-pos, pos-*ℤ, pos-+ℤ, pos-/ℤ, quotient64-pos, to_int32-pos,
}
use cpp_autotime.Types.{Durations}
use cpp_autotime.Estimate.Defs.{
  Timer, Sample, initial, is_ramping, is_off, next_iters, ramp, refine, estimate_from, estimate,
}
use cpp_autotime.Prelude.Powers.{doubled}
use cpp_autotime.Estimate.Ramp.{is_ramping-initial, measure-ok, ramp_stop, ramp_go}
use cpp_autotime.Estimate.Refine.{IsWithin, is_off-IsWithin, is_off-pos, refine_stop, refine_go}

-- Each call of the timer succeeds, and measures c nanoseconds for each iteration.
abbrev pub IsLinear : {S : Type 0} → ℕ → Timer S → Type 0
IsLinear {S} c timer =
    (n : ℕ) (s : S) → (d : Durations) × (s' : S) × (timer n s ≡ ok (d, s')) × (d.real ≡ pos (c * n))

pub mul_mono : (a b x y : ℕ) → a ≤ x → b ≤ y → a * b ≤ x * y
mul_mono a b x y h k = grind arith

mul_cancel : (g a b : ℕ) → 1 ≤ g → g * a ≤ g * b → a ≤ b
mul_cancel g a b h k = grind arith

mul_cancel_lt : (g a b : ℕ) → g * a < g * b → a < b
mul_cancel_lt g a b k = grind arith

rounded_le : (c q t : ℕ) → 1 ≤ c → 2 * (c * q) ≤ 2 * t + c → q ≤ t
rounded_le c q t h k = elim (dec_lt t q) [
  | yes p ↦
      absurd (omega (arith, mul_mono c (suc t) c q (le_refl c) p, mul_mono 1 t c t h (le_refl t)))
  | no p ↦ omega arith
]

-- The rounded quotient of the second loop, for 2 * g iterations of c nanoseconds.
abbrev pub next_of : ℕ → ℕ → ℕ → ℕ
next_of c t g = (2 * g * t + c * g) / (c * (2 * g))

pub next_of_bounds :
    (c t g : ℕ)
    → 1 ≤ c
    → 1 ≤ g
    → (2 * (c * next_of c t g) ≤ 2 * t + c) × (2 * t < 2 * (c * next_of c t g) + c)
next_of_bounds c t g hc hg = (
  mul_cancel g (2 * (c * q)) (2 * t + c) hg (omega (arith, below)),
  omega (arith, mul_cancel_lt g (2 * t + c) (2 * (c * q) + 2 * c) (omega (arith, above))),
)
  where
    q : ℕ
    q = next_of c t g

    positive : 0 < c * (2 * g)
    positive = grind arith

    below : q * (c * (2 * g)) ≤ 2 * g * t + c * g
    below = div-mul-le_self (2 * g * t + c * g) (c * (2 * g))

    above : 2 * g * t + c * g < q * (c * (2 * g)) + c * (2 * g)
    above = lt-div-mul-add {a = 2 * g * t + c * g} positive

-- For a sample of 2 * g iterations, nothing in the computation of the next number overflows.
pub next_iters-linear :
    {S : Type 0} (c t g : ℕ) (m : Sample S)
    → 1 ≤ c
    → 1 ≤ g
    → g < 2 ^ 24
    → c ≤ t
    → t < 2 ^ 31
    → m.num_iters ≡ 2 * g
    → m.durs.real ≡ pos (c * (2 * g))
    → next_iters (pos t) m ≡ ok (pos (next_of c t g))
unfolding next_iters
next_iters-linear c t g m hc hg lg lc lt n d = rw (
  d,
  n,
  quotient64-pos (c * (2 * g)) 2 (omega arith) (omega (arith, small_cost)),
  halved,
  pos-*ℤ (2 * g) t,
  checked-pos 63 (2 * g * t) (omega (arith, small_product)),
  pos-+ℤ (2 * g * t) (c * g),
  checked-pos 63 (2 * g * t + c * g) (omega (arith, small_cost, small_product)),
  quotient64-pos (2 * g * t + c * g) (c * (2 * g)) positive
      (omega (arith, small_cost, small_product)),
  to_int32-pos (next_of c t g) (omega (arith, small_next)),
)
  where
    positive : 0 < c * (2 * g)
    positive = grind arith

    small_cost : c * g ≤ 2 ^ 31 * 2 ^ 24
    small_cost = mul_mono c g (2 ^ 31) (2 ^ 24) (omega arith) (omega arith)

    small_product : g * t ≤ 2 ^ 24 * 2 ^ 31
    small_product = mul_mono g t (2 ^ 24) (2 ^ 31) (omega arith) (omega arith)

    halved : c * (2 * g) / 2 ≡ c * g
    halved = omega arith

    small_next : next_of c t g ≤ t
    small_next = rounded_le c (next_of c t g) t hc (next_of_bounds c t g hc hg).0

pub is_ramping-zero : (t : ℕ) (d : Durations) → is_ramping (pos t) (pos 0) d ≡ true
unfolding is_ramping
is_ramping-zero t d = rw (pos-/ℤ t 1000) (ground arith)

pub is_ramping-linear :
    (c t h : ℕ) (d : Durations)
    → 1 ≤ c
    → 1 ≤ h
    → d.real ≡ pos (c * (2 * h))
    → is_ramping (pos t) (pos (c * h)) d ≡ leb (c * h) (t / 1000)
unfolding is_ramping
is_ramping-linear c t h d hc hh e = rw (e, pos-/ℤ t 1000) (ground (arith, grows))
  where
    grows : c * h < c * (2 * h)
    grows = grind arith

module _ {S : Type 0} (timer : Timer S) (c t : ℕ) (linear : IsLinear c timer) where
  -- A sample of 2 * g iterations.
  abbrev pub IsDouble : ℕ → Sample S → Type 0
  IsDouble g r = (1 ≤ g) × (g < 2 ^ 24) × (r.num_iters ≡ 2 * g) × (r.durs.real ≡ pos (c * (2 * g)))

  -- The first loop, from a sample of 2 * h iterations, returns some 2 * g.
  ramp_linear :
      (fuel k h : ℕ) (m : Sample S)
      → 1 ≤ c
      → t < 2 ^ 31
      → 1 ≤ h
      → h < 2 ^ 23
      → m.num_iters ≡ 2 * h
      → m.durs.real ≡ pos (c * (2 * h))
      → 2 ^ 22 ≤ h * 2 ^ k
      → k < fuel
      → (g : ℕ) × (r : Sample S) × (ramp timer (pos t) fuel (pos (c * h)) m ≡ ok r) × IsDouble g r
  ramp_linear zero k h m hc lt hh lh n d big fuel = absurd (omega arith)
  ramp_linear (suc fuel) k h m hc lt hh lh n d big lf = elim (Bool-cases (leb (c * h) (t / 1000))) [
    | inl more ↦
        let (d', s', e, d'') = linear (2 * (2 * h)) m.state in
        let (g, r, e', rest) =
          ramp_linear fuel (k - 1) (2 * h)
            (record { num_iters = 2 * (2 * h); durs = d'; state = s' }) hc lt (omega arith)
            (omega (arith, low more)) refl d'' (doubled (2 ^ 22) h k big (low more)).1
            (omega (arith, (doubled (2 ^ 22) h k big (low more)).0)) in
        (g, r, go more e ∙ e', rest)
    | inr done ↦ (
      h,
      m,
      ramp_stop timer (pos t) fuel _ m (is_ramping-linear c t h m.durs hc hh d ∙ done),
      (hh, omega arith, n, d),
    )
  ]
    where
      low : leb (c * h) (t / 1000) ≡ true → h < 2 ^ 22
      low more = omega (arith, leb→le _ _ more, mul_mono 1 h c h hc (le_refl h))

      go :
          {d' : Durations} {s' : S}
          → leb (c * h) (t / 1000) ≡ true
          → timer (2 * (2 * h)) m.state ≡ ok (d', s')
          → ramp timer (pos t) (suc fuel) (pos (c * h)) m
            ≡ ramp timer
                (pos t)
                fuel
                (pos (c * (2 * h)))
                (record { num_iters = 2 * (2 * h); durs = d'; state = s' })
      go {d'} {s'} more e =
          let now : max (2 * m.num_iters) 1 ≡ 2 * (2 * h) = omega arith in
          subst
            (λ x.
              ramp timer (pos t) (suc fuel) (pos (c * h)) m
              ≡ ramp timer (pos t) fuel x
                  (record { num_iters = 2 * (2 * h); durs = d'; state = s' }))
            d
            (ramp_go timer (pos t) fuel _ m _ (is_ramping-linear c t h m.durs hc hh d ∙ more)
              (omega (arith, low more)) (rw now (measure-ok timer _ _ _ _ e)))

  -- The first loop as a whole.
  pub ramp_from_start :
      (s : S)
      → 1 ≤ c
      → t < 2 ^ 31
      → (g : ℕ) × (r : Sample S) × (ramp timer (pos t) 33 (pos 0) (initial s) ≡ ok r) × IsDouble g r
  ramp_from_start s hc lt =
      let (d, s1, e, r) = linear 1 s in
      let (d', s2, e', r') = linear 2 s1 in
      let m : Sample S = record { num_iters = 1; durs = d; state = s1 } in
      let m' : Sample S = record { num_iters = 2; durs = d'; state = s2 } in
      let (g, out, run, rest) =
        ramp_linear 31 22 1 m' hc lt (omega arith) (omega arith) refl (rw r' (ap pos (omega arith)))
          (omega arith) (omega arith) in
      (
        g,
        out,
        ramp_go timer (pos t) 32 (pos 0) (initial s) m (is_ramping-initial (pos t) s) (omega arith)
              (measure-ok timer 1 s d s1 e)
            ∙ ramp_go timer (pos t) 31 (pos 0) m m' (is_ramping-zero t d) (omega arith)
                (measure-ok timer 2 s1 d' s2 e')
            ∙ subst (λ x. ramp timer (pos t) 31 x m' ≡ ok out) (sym r) run,
        rest,
      )

  abbrev IsGood : ℕ → Sample S → Type 0
  IsGood n r =
      (r.num_iters ≡ n) × (r.durs.real ≡ pos (c * n)) × (t * 4 / 5 ≤ c * n) × (c * n ≤ t * 2)

  -- From 2 * g iterations the second loop is done after one more measurement at most.
  refine_linear :
      (g : ℕ) (m : Sample S)
      → 1 ≤ c
      → 7 * c ≤ 2 * t
      → t < 2 ^ 31
      → IsDouble g m
      → (n : ℕ) × (r : Sample S) × (refine timer (pos t) 5 m ≡ ok r) × IsGood n r
  refine_linear g m hc cheap lt (hg, lg, n, d) =
      elim (Bool-cases (ltb_ℤ m.durs.real (pos (t * 4 / 5)) || ltb_ℤ (pos (t * 2)) m.durs.real)) [
        | inl bad ↦
            let (d', s', e, r) = linear (next_of c t g) m.state in
            let next : Sample S = record { num_iters = next_of c t g; durs = d'; state = s' } in
            (
              next_of c t g,
              next,
              refine_go timer (pos t) 4 (next_of c t g) m next
                    (is_off-pos t m.durs (omega arith) ∙ ap ok bad)
                    (next_iters-linear c t g m hc hg lg (omega arith) lt n d) high
                    (measure-ok timer (next_of c t g) m.state d' s' e)
                  ∙ refine_stop timer (pos t) 3 next
                      ((is_off-IsWithin t d' (omega arith)).1 (rw r (omega (arith, within)))),
              (refl, r, within.0, within.1),
            )
        | inr good ↦
            let off : is_off (pos t) m.durs ≡ ok false =
              is_off-pos t m.durs (omega arith) ∙ ap ok good in
            let inside : IsWithin t m.durs = (is_off-IsWithin t m.durs (omega arith)).0 off in
            let inside' = subst (λ x. (pos (t * 4 / 5) ≤ℤ x) × (x ≤ℤ pos (t * 2))) d inside in
            (2 * g, m, refine_stop timer (pos t) 4 m off, (n, d, omega arith, omega arith))
      ]
    where
      q : ℕ
      q = next_of c t g

      bounds : (2 * (c * q) ≤ 2 * t + c) × (2 * t < 2 * (c * q) + c)
      bounds = next_of_bounds c t g hc hg

      within : (t * 4 / 5 ≤ c * q) × (c * q ≤ t * 2)
      within = (omega (arith, bounds), omega (arith, bounds))

      high : 3 < q
      high = elim (dec_lt 3 q) [
        | yes p ↦ p
        | no p ↦ absurd (omega (arith, bounds, mul_mono c q c 3 (le_refl c) (omega arith)))
      ]

-- For a function that takes c nanoseconds, at least 1 and at most 2/7 of the target t, and a target
-- below 2 ^ 31: `Estimate` succeeds, and the measurement that it returns, of n iterations and c * n
-- nanoseconds, lies between 0.8 t and 2 t.
pub estimate-linear :
    {S : Type 0} (timer : Timer S) (c t : ℕ) (s : S)
    → IsLinear c timer
    → 1 ≤ c
    → 7 * c ≤ 2 * t
    → t < 2 ^ 31
    → (n : ℕ) × (d : Durations) × (s' : S) × (estimate timer (pos t) s
        ≡ ok (record { num_iters = pos n; durs = d }, s'))
      × (d.real ≡ pos (c * n))
      × (t * 4 / 5 ≤ c * n)
      × (c * n ≤ t * 2)
unfolding estimate estimate_from
estimate-linear timer c t s linear hc cheap lt =
    let (g, m, ramped, double) = ramp_from_start timer c t linear s hc lt in
    let (n, r, refined, good) = refine_linear timer c t linear g m hc cheap lt double in
    (n, r.durs, r.state, rw (ramped, refined, good.0), good.1, good.2, good.3)
