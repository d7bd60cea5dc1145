-- ===== src/Iterate/Rounds.antt =====
-- The loops of `IterateUntil`, round by round.
use cpp_autotime.Prelude.{
  ℕ, zero, suc, ◌+◌, ◌≤◌, ◌≡◌, ◌≢◌, ◌∙◌, sym, ap, inl, inr, true, false, Outcome, ok, div_by_zero,
  spin, >>=-eq-ok, >>=-ne-spin, ok_inj, Bool-cases, arith,
}
use cpp_autotime.Prelude.Int.{
  ℤ, pos, pos_part, ◌+ℤ◌, ◌-ℤ◌, ◌≤ℤ◌, leb_ℤ, checked, checked->>=-eq-ok, checked->>=-ne-spin,
  quotient64, quotient64-ne-spin, quotient64-zero, +ℤ_parts, -ℤ_parts, eq_of_parts,
}
use cpp_autotime.Iterate.{World, Pass, repeat, pass, advance, next_count}

back : (a b : ℤ) → a +ℤ (b -ℤ a) ≡ b
back a b = eq_of_parts _ _ (omega (arith, +ℤ_parts a (b -ℤ a), -ℤ_parts b a))

checked-ne-spin : (w : ℕ) (z : ℤ) → checked w z ≢ spin
unfolding checked
checked-ne-spin w z h = ground arith

closer :
    (fuel : ℕ) (t t_next step : ℤ)
    → pos 1 ≤ℤ step
    → pos_part (t -ℤ t_next) + 2 ≤ suc fuel
    → leb_ℤ (t_next +ℤ step) t ≡ true
    → pos_part (t -ℤ (t_next +ℤ step)) + 2 ≤ fuel
unfolding ◌+ℤ◌ ◌-ℤ◌
closer fuel t t_next step positive enough more = ground arith

module _ {S : Type 0} (w : World S) where
  pub pass-ne-spin : (num_iters t : ℤ) (s : S) → pass w num_iters t s ≢ spin
  unfolding pass
  pass-ne-spin num_iters t s =
      checked->>=-ne-spin 63 _ _ (λ _. checked->>=-ne-spin 63 _ _ (λ _ e. cc))

  -- A pass ends at the time of its own reading of the clock.
  pub pass-eq-ok :
      (num_iters t : ℤ) (s : S) (p : Pass S)
      → pass w num_iters t s ≡ ok p
      → (p.t ≡ (w.now (repeat w (pos_part num_iters) s)).0)
        × (p.dur ≡ p.t -ℤ t)
        × (p.num_iters ≡ num_iters)
        × (p.state ≡ (w.now (repeat w (pos_part num_iters) s)).1)
  unfolding pass
  pass-eq-ok num_iters t s p e =
      let (_, e') = checked->>=-eq-ok 63 _ _ e in
      let (_, e'') = checked->>=-eq-ok 63 _ _ e' in
      let same = ok_inj e'' in
      let at = ap (λ q. q.t) same ∙ back t _ in
      (
        at,
        ap (λ q. q.dur) same ∙ ap (λ x. x -ℤ t) (sym at),
        ap (λ q. q.num_iters) same,
        ap (λ q. q.state) same,
      )

  module _ (t_limit step : ℤ) where
    advance_go :
        (fuel : ℕ) (t t_next : ℤ)
        → leb_ℤ (t_next +ℤ step) t ≡ true
        → (advance w t_limit step fuel t (t_next +ℤ step) ≢ spin)
        → advance w t_limit step (suc fuel) t t_next ≢ spin
    unfolding advance
    advance_go fuel t t_next more h = checked->>=-ne-spin 63 _ _ (λ _. rw more h)

    advance_stop :
        (fuel : ℕ) (t t_next : ℤ)
        → leb_ℤ (t_next +ℤ step) t ≡ false
        → advance w t_limit step (suc fuel) t t_next ≢ spin
    unfolding advance
    advance_stop fuel t t_next done = checked->>=-ne-spin 63 _ _ (λ _. rw done (λ e. cc))

    -- With a step of one nanosecond or more, `t_next` passes t within the rounds given.
    pub advance-ne-spin :
        (fuel : ℕ) (t t_next : ℤ)
        → pos 1 ≤ℤ step
        → pos_part (t -ℤ t_next) + 2 ≤ fuel
        → advance w t_limit step fuel t t_next ≢ spin
    advance-ne-spin zero t t_next positive enough = absurd (omega arith)
    advance-ne-spin (suc fuel) t t_next positive enough =
        elim (Bool-cases (leb_ℤ (t_next +ℤ step) t)) [
          | inl more ↦ advance_go fuel t t_next more (
              advance-ne-spin fuel t (t_next +ℤ step) positive
                (closer fuel t t_next step positive enough more))
          | inr done ↦ advance_stop fuel t t_next done
        ]

    pub next_count-ne-spin : (p : Pass S) (t_next : ℤ) → next_count w t_limit step p t_next ≢ spin
    unfolding next_count
    next_count-ne-spin p t_next =
        >>=-ne-spin (quotient64 p.dur (pos 2)) _ (quotient64-ne-spin _ _) (λ round _.
          checked->>=-ne-spin 63 _ _ (λ _. checked->>=-ne-spin 63 _ _ (λ _.
            checked->>=-ne-spin 63 _ _
              (λ _. >>=-ne-spin (quotient64 _ p.dur) _ (quotient64-ne-spin _ _) (λ q _ e. cc)))))

    -- No number of iterations follows a pass in which the clock stood still.
    pub next_count-dur :
        (p : Pass S) (t_next n : ℤ) → p.dur ≡ pos 0 → next_count w t_limit step p t_next ≢ ok n
    unfolding next_count
    next_count-dur p t_next n zero_dur e =
        let (round, _, e1) = >>=-eq-ok (quotient64 p.dur (pos 2)) _ e in
        let (_, e2) = checked->>=-eq-ok 63 _ _ e1 in
        let (_, e3) = checked->>=-eq-ok 63 _ _ e2 in
        let (_, e4) = checked->>=-eq-ok 63 _ _ e3 in
        let (q, e5, _) = >>=-eq-ok (quotient64 _ p.dur) _ e4 in
        no_quotient _ q (ap (quotient64 _) (sym zero_dur) ∙ e5)
      where
        no_quotient : (a q : ℤ) → quotient64 a (pos 0) ≢ ok q
        no_quotient a q e = div_ne (sym (quotient64-zero a) ∙ e)
          where
            div_ne : ◌≢◌ {A = Outcome ℤ} div_by_zero (ok q)
            div_ne h = cc h
