-- ===== src/Iterate/Grow.antt =====
-- The first loop of `IterateUntil`.
use cpp_autotime.Prelude.{
  ℕ, zero, suc, ◌-◌, ◌*◌, ◌^◌, ◌≤◌, ◌<◌, ◌≡◌, ◌≢◌, ap, sym, subst, ◌⊎◌, max, inl, inr, ok, spin,
  >>=-ne-spin, >>=-eq-ok, ok_inj, Bool-cases, arith,
}
use cpp_autotime.Prelude.Int.{ℤ, pos, pos_part, checked->>=-ne-spin, checked->>=-eq-ok}
use cpp_autotime.Prelude.Powers.{doubled}
use cpp_autotime.Iterate.{World, Pass, pass, grow, is_short}
use cpp_autotime.Iterate.Rounds.{pass-ne-spin, pass-eq-ok}

module _ {S : Type 0} (w : World S) (t_limit step : ℤ) where
  grow-ne-spin :
      (fuel : ℕ) (prev : ℤ) (p : Pass S)
      → ((next : Pass S)
          → 2 * pos_part p.num_iters < 2 ^ 31
          → pos_part next.num_iters ≡ max (2 * pos_part p.num_iters) 1
          → grow w t_limit step fuel p.dur next ≢ spin)
      → grow w t_limit step (suc fuel) prev p ≢ spin
  unfolding grow
  grow-ne-spin fuel prev p rest = elim (Bool-cases (is_short w t_limit step p.dur prev)) [
    | inl more ↦ rw more (
        checked->>=-ne-spin 31 (pos (2 * pos_part p.num_iters)) _ (λ fits.
          >>=-ne-spin (pass w (pos (max (2 * pos_part p.num_iters) 1)) p.t p.state) _
            (pass-ne-spin w _ _ _)
            (λ next e. rest next fits.0 (ap pos_part (pass-eq-ok w _ _ _ _ e).2))))
    | inr done ↦ rw done (λ e. cc)
  ]

  grow_ends_from :
      (fuel k : ℕ) (prev : ℤ) (p : Pass S)
      → 1 ≤ pos_part p.num_iters
      → 2 ^ 31 ≤ pos_part p.num_iters * 2 ^ k
      → k < fuel
      → grow w t_limit step fuel prev p ≢ spin
  grow_ends_from zero k prev p h big lt = absurd (omega arith)
  grow_ends_from (suc fuel) k prev p h big lt = grow-ne-spin fuel prev p (λ next fits e.
      let (k1, less) = doubled (2 ^ 31) (pos_part p.num_iters) k big (omega arith) in
      let same : pos_part next.num_iters ≡ 2 * pos_part p.num_iters = omega (arith, e) in
      grow_ends_from fuel (k - 1) p.dur next (omega (arith, same)) (rw same less) (omega arith))

  -- The first loop is over within its 33 rounds, whatever the clock says.
  pub grow_ends : (p : Pass S) → p.num_iters ≡ pos 0 → grow w t_limit step 33 (pos 0) p ≢ spin
  grow_ends p none_yet = grow-ne-spin 32 (pos 0) p (λ next fits e.
      let zero_iters : pos_part p.num_iters ≡ 0 = ap pos_part none_yet in
      let one : pos_part next.num_iters ≡ 1 = omega (arith, e, zero_iters) in
      grow_ends_from 32 31 p.dur next (omega (arith, one)) (omega (arith, one)) (omega arith))

  -- A round of the loop, when it has a result.
  grow-eq-ok :
      (fuel : ℕ) (prev : ℤ) (p r : Pass S)
      → grow w t_limit step (suc fuel) prev p ≡ ok r
      → (r ≡ p)
        ⊎ ((n : ℤ) × (next : Pass S) × (pass w n p.t p.state ≡ ok next)
            × (grow w t_limit step fuel p.dur next ≡ ok r))
  unfolding grow
  grow-eq-ok fuel prev p r h = elim (Bool-cases (is_short w t_limit step p.dur prev)) [
    | inl more ↦
        let (_, h') = checked->>=-eq-ok 31 (pos (2 * pos_part p.num_iters)) _ (rw more at h) in
        let (next, e, h'') =
          >>=-eq-ok (pass w (pos (max (2 * pos_part p.num_iters) 1)) p.t p.state) _ h' in
        inr (_, next, e, h'')
    | inr done ↦ inl (ok_inj (rw done at h))
  ]

  grow-no_fuel : (prev : ℤ) (p r : Pass S) → grow w t_limit step zero prev p ≢ ok r
  unfolding grow
  grow-no_fuel prev p r h = cc

  -- What holds of each pass that is kept by the next holds of the result.
  pub grow_inv :
      (P : Pass S → Type 0)
      → ((n : ℤ) (p next : Pass S) → P p → pass w n p.t p.state ≡ ok next → P next)
      → (fuel : ℕ) (prev : ℤ) (p r : Pass S) → P p
      → grow w t_limit step fuel prev p ≡ ok r
      → P r
  grow_inv P keep zero prev p r h e = absurd (grow-no_fuel prev p r e)
  grow_inv P keep (suc fuel) prev p r h e = elim (grow-eq-ok fuel prev p r e) [
    | inl same ↦ subst P (sym same) h
    | inr (n, next, e', e'') ↦ grow_inv P keep fuel p.dur next r (keep n p next h e') e''
  ]
