-- ===== src/Iterate/Ends.antt =====
-- `IterateUntil` comes to an end, and why.
use cpp_autotime.Prelude.{
  ℕ, zero, suc, ◌+◌, ◌≤◌, ◌≡◌, ◌≢◌, ◌∙◌, refl, sym, subst, ap, inl, inr, true, false, ok, spin,
  >>=-eq-ok, >>=-ne-spin, ok_inj, Bool-cases, arith,
}
use cpp_autotime.Prelude.Int.{ℤ, pos, pos_part, ◌-ℤ◌, ◌≤ℤ◌, ltb_ℤ, checked->>=-ne-spin}
use cpp_autotime.Iterate.{
  World, Pass, repeat, pass, advance, next_count, round_of, hold, grow, iterate_until,
}
use cpp_autotime.Iterate.Grow.{grow_ends, grow_inv}
use cpp_autotime.Iterate.Rounds.{
  pass-ne-spin, pass-eq-ok, advance-ne-spin, next_count-ne-spin, next_count-dur,
}

-- What is documented of `steady_clock`: it never goes back. `time` is the time in a state of the
-- world, `now` reads it, and nothing that is called takes it back.
pub record IsSteady {S : Type 0} (w : World S) (time : S → ℤ) : Type 0 where
  pub reads : (s : S) → (w.now s).0 ≡ time (w.now s).1
  pub now_later : (s : S) → time s ≤ℤ time (w.now s).1
  pub work_later : (s : S) → time s ≤ℤ time (w.work s)
  pub predicate_later : (s : S) → time s ≤ℤ time (w.predicate s).1

nearer :
    (fuel : ℕ) (t t' t_limit : ℤ)
    → pos_part (t_limit -ℤ t) + 2 ≤ suc fuel
    → ltb_ℤ t t_limit ≡ true
    → ltb_ℤ t t' ≡ true
    → pos_part (t_limit -ℤ t') + 2 ≤ fuel
unfolding ◌-ℤ◌
nearer fuel t t' t_limit enough early moved = ground arith

no_time : (t t' : ℤ) → t ≤ℤ t' → ltb_ℤ t t' ≡ false → t' -ℤ t ≡ pos 0
unfolding ◌-ℤ◌
no_time t t' forth stood = ground arith

module _ {S : Type 0} (w : World S) (time : S → ℤ) (steady : IsSteady w time)
    (t_limit step : ℤ) where
  repeat_later : (n : ℕ) (s : S) → time s ≤ℤ time (repeat w n s)
  repeat_later zero s = omega arith
  repeat_later (suc n) s = omega (arith, steady.work_later s, repeat_later n (w.work s))

  -- The pass was at the time of its state.
  abbrev pub IsTimed : Pass S → Type 0
  IsTimed p = p.t ≡ time p.state

  pass-IsTimed :
      (num_iters t : ℤ) (s : S) (p : Pass S)
      → pass w num_iters t s ≡ ok p
      → IsTimed p × (time s ≤ℤ p.t) × (p.dur ≡ p.t -ℤ t)
  pass-IsTimed num_iters t s p e =
      let (at, dur, _, state) = pass-eq-ok w num_iters t s p e in
      let s' = repeat w (pos_part num_iters) s in
      let timed : p.t ≡ time p.state = at ∙ (steady.reads s' ∙ ap time (sym state)) in
      (
        timed,
        rw (at, steady.reads s')
            (omega (arith, repeat_later (pos_part num_iters) s, steady.now_later s')),
        dur,
      )

  -- A round of the second loop keeps the invariant, and the time does not go back.
  pub round_of-IsTimed :
      (p next : Pass S) (t_next t_next' : ℤ) (s : S)
      → round_of w t_limit step p t_next s ≡ ok (next, t_next')
      → IsTimed next × (time s ≤ℤ next.t) × (next.dur ≡ next.t -ℤ p.t) × (p.dur ≢ pos 0)
  unfolding round_of
  round_of-IsTimed p next t_next t_next' s e =
      let (n, e1, e2) = >>=-eq-ok (next_count w t_limit step p t_next) _ e in
      let (q, e3, e4) = >>=-eq-ok (pass w n p.t s) _ e2 in
      let (_, _, e5) = >>=-eq-ok (advance w t_limit step _ q.t t_next) _ e4 in
      let same : next ≡ q = ap (λ x. x.0) (ok_inj e5) in
      let at = pass-IsTimed n p.t s q e3 in
      subst (λ x. IsTimed x × (time s ≤ℤ x.t) × (x.dur ≡ x.t -ℤ p.t) × (p.dur ≢ pos 0)) (sym same)
        (at.0, at.1, at.2, λ still. next_count-dur w t_limit step p t_next n still e1)

  round_of-ne-spin :
      (p : Pass S) (t_next : ℤ) (s : S) → pos 1 ≤ℤ step → round_of w t_limit step p t_next s ≢ spin
  unfolding round_of
  round_of-ne-spin p t_next s positive =
      >>=-ne-spin (next_count w t_limit step p t_next) _
        (next_count-ne-spin w t_limit step p t_next)
        (λ n _. >>=-ne-spin (pass w n p.t s) _ (pass-ne-spin w n p.t s) (λ q _.
          >>=-ne-spin (advance w t_limit step (pos_part (q.t -ℤ t_next) + 2) q.t t_next) _
            (advance-ne-spin w t_limit step _ q.t t_next positive (omega arith)) (λ x _ e. cc)))

  -- A round of the second loop runs out of fuel only in the rounds after it.
  hold-ne-spin :
      (fuel : ℕ) (p : Pass S) (t_next : ℤ)
      → pos 1 ≤ℤ step
      → ((next : Pass S) (t_next' : ℤ)
          → ltb_ℤ p.t t_limit ≡ true
          → round_of w t_limit step p t_next (w.predicate p.state).1 ≡ ok (next, t_next')
          → hold w t_limit step fuel next t_next' ≢ spin)
      → hold w t_limit step (suc fuel) p t_next ≢ spin
  unfolding hold
  hold-ne-spin fuel p t_next positive rest = elim (Bool-cases (ltb_ℤ p.t t_limit)) [
    | inl early ↦ rw early (elim (Bool-cases (w.predicate p.state).0) [
      | inl going ↦ rw going (
          >>=-ne-spin (round_of w t_limit step p t_next (w.predicate p.state).1) _
            (round_of-ne-spin p t_next _ positive) (λ x e. rest x.0 x.1 early e))
      | inr done ↦ rw done (λ e. cc)
    ])
    | inr late ↦ rw late (λ e. cc)
  ]

  -- After a pass in which the clock stood still, the next round is the last: it ends the loop or
  -- divides by zero.
  hold_still :
      (fuel : ℕ) (p : Pass S) (t_next : ℤ)
      → pos 1 ≤ℤ step
      → p.dur ≡ pos 0
      → 1 ≤ fuel
      → hold w t_limit step fuel p t_next ≢ spin
  hold_still zero p t_next positive still enough = absurd (omega arith)
  hold_still (suc fuel) p t_next positive still enough =
      hold-ne-spin fuel p t_next positive
        (λ next t_next' early e. absurd ((round_of-IsTimed p next t_next t_next' _ e).3 still))

  hold_ends :
      (fuel : ℕ) (p : Pass S) (t_next : ℤ)
      → pos 1 ≤ℤ step
      → IsTimed p
      → pos_part (t_limit -ℤ p.t) + 2 ≤ fuel
      → hold w t_limit step fuel p t_next ≢ spin
  hold_ends zero p t_next positive timed enough = absurd (omega arith)
  hold_ends (suc fuel) p t_next positive timed enough =
      hold-ne-spin fuel p t_next positive (λ next t_next' early e.
        let (timed', later, dur, _) = round_of-IsTimed p next t_next t_next' _ e in
        let forth : p.t ≤ℤ next.t =
          rw timed (omega (arith, steady.predicate_later p.state, later)) in
        elim (Bool-cases (ltb_ℤ p.t next.t)) [
          | inl moved ↦
              hold_ends fuel next t_next' positive timed'
                (nearer fuel p.t next.t t_limit enough early moved)
          | inr stood ↦
              hold_still fuel next t_next' positive (dur ∙ no_time p.t next.t forth stood)
                (omega arith)
        ])

  -- The first loop starts at the time that was read, and keeps the invariant.
  abbrev pub start : S → Pass S
  start s = record { num_iters = pos 0; dur = pos 0; t = (w.now s).0; state = (w.now s).1 }

  -- The invariant, and the time since `s`.
  abbrev pub IsAfter : S → Pass S → Type 0
  IsAfter s p = IsTimed p × (time s ≤ℤ p.t)

  pub grow-IsAfter :
      (s : S) (p : Pass S) → grow w t_limit step 33 (pos 0) (start s) ≡ ok p → IsAfter s p
  grow-IsAfter s p e =
      grow_inv w t_limit step (IsAfter s)
        (λ n q next h e'.
          let (timed, later, _) = pass-IsTimed n q.t q.state next e' in
          (timed, at_least _ _ _ _ h.0 h.1 later))
        33 (pos 0) (start s) p (steady.reads s, rw (steady.reads s) (steady.now_later s)) e
    where
      at_least : (a b c d : ℤ) → b ≡ c → a ≤ℤ b → c ≤ℤ d → a ≤ℤ d
      at_least a b c d h k l = ground (arith, h)

  -- With a clock that never goes back and a step of one nanosecond or more, `IterateUntil` comes to an
  -- end: it returns, or it meets an overflow or a division by zero.
  pub iterate_until-ne-spin : (s : S) → pos 1 ≤ℤ step → iterate_until w t_limit step s ≢ spin
  unfolding iterate_until
  iterate_until-ne-spin s positive = checked->>=-ne-spin 63 _ _ (λ _.
      >>=-ne-spin (grow w t_limit step 33 (pos 0) (start s)) _
        (grow_ends w t_limit step (start s) refl)
        (λ p e. hold_ends _ p _ positive (grow-IsAfter s p e).0 (omega arith)))
