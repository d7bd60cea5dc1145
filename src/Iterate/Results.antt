-- ===== src/Iterate/Results.antt =====
-- Why `IterateUntil` returns.
use cpp_autotime.Prelude.{
  ℕ, zero, suc, ◌≡◌, ◌≢◌, ◌∙◌, sym, subst, ap, ◌⊎◌, inl, inr, Bool, false, ok, >>=-eq-ok, ok_inj,
  Bool-cases, arith,
}
use cpp_autotime.Prelude.Int.{ℤ, pos, ◌≤ℤ◌, ltb_ℤ, checked->>=-eq-ok}
use cpp_autotime.Iterate.{World, Pass, round_of, hold, grow, iterate_until}
use cpp_autotime.Iterate.Ends.{IsSteady, IsAfter, start, round_of-IsTimed, grow-IsAfter}

later_still : (a b c d f : ℤ) → b ≡ c → a ≤ℤ b → c ≤ℤ d → d ≤ℤ f → a ≤ℤ f
later_still a b c d f h k l m = ground (arith, h)

module _ {S : Type 0} (w : World S) (time : S → ℤ) (steady : IsSteady w time)
    (t_limit step : ℤ) where
  -- Why the second loop ended, at time t and in state s'.
  abbrev pub HasEnded : ℤ → S → Type 0
  HasEnded t s' = (t_limit ≤ℤ t) ⊎ ((s0 : S) × (w.predicate s0 ≡ (false, s')) × (time s0 ≡ t))

  -- A round of the second loop, when it has a result.
  hold-eq-ok :
      (fuel : ℕ) (p : Pass S) (t_next t : ℤ) (s' : S)
      → hold w t_limit step (suc fuel) p t_next ≡ ok (t, s')
      → ((t_limit ≤ℤ p.t) × (p.t ≡ t))
        ⊎ (((w.predicate p.state ≡ (false, s')) × (p.t ≡ t))
            ⊎ ((next : Pass S) × (t_next' : ℤ) × (round_of w t_limit step p t_next
                    (w.predicate p.state).1
                  ≡ ok (next, t_next'))
                × (hold w t_limit step fuel next t_next' ≡ ok (t, s'))))
  unfolding hold
  hold-eq-ok fuel p t_next t s' e = elim (Bool-cases (ltb_ℤ p.t t_limit)) [
    | inl early ↦ elim (Bool-cases (w.predicate p.state).0) [
      | inl going ↦
          let (x, e1, e2) =
            >>=-eq-ok (round_of w t_limit step p t_next (w.predicate p.state).1) _
              (rw going at (rw early at e)) in
          inr (inr (x.0, x.1, e1, e2))
      | inr done ↦
          let same = ok_inj (rw done at (rw early at e)) in
          inr (
            inl (
              pair_eq (w.predicate p.state) false s' done (sym (ap (λ x. x.1) same)),
              sym (ap (λ x. x.0) same),
            ))
    ]
    | inr late ↦ inl (ground arith, sym (ap (λ x. x.0) (ok_inj (rw late at e))))
  ]
    where
      pair_eq : (x : Bool × S) (b : Bool) (s : S) → x.0 ≡ b → x.1 ≡ s → x ≡ (b, s)
      pair_eq x b s h k = ap (λ c. (c, x.1)) h ∙ ap (λ y. (b, y)) k

  hold-no_fuel : (p : Pass S) (t_next : ℤ) (r : ℤ × S) → hold w t_limit step zero p t_next ≢ ok r
  unfolding hold
  hold-no_fuel p t_next r h = cc

  hold-HasEnded :
      (s : S) (fuel : ℕ) (p : Pass S) (t_next t : ℤ) (s' : S)
      → IsAfter w time steady t_limit step s p
      → hold w t_limit step fuel p t_next ≡ ok (t, s')
      → (time s ≤ℤ t) × HasEnded t s'
  hold-HasEnded s zero p t_next t s' h e = absurd (hold-no_fuel p t_next _ e)
  hold-HasEnded s (suc fuel) p t_next t s' h e = elim (hold-eq-ok fuel p t_next t s' e) [
    | inl (late, same) ↦
        (subst (λ x. time s ≤ℤ x) same h.1, inl (subst (λ x. t_limit ≤ℤ x) same late))
    | inr (inl (answer, same)) ↦
        (subst (λ x. time s ≤ℤ x) same h.1, inr (p.state, answer, sym h.0 ∙ same))
    | inr (inr (next, t_next', e1, e2)) ↦
        let (timed, later, _, _) =
          round_of-IsTimed w time steady t_limit step p next t_next t_next' _ e1 in
        hold-HasEnded s fuel next t_next' t s'
          (
            timed,
            later_still (time s) p.t (time p.state) _ next.t h.0 h.1
                (steady.predicate_later p.state) later,
          )
          e2
  ]

  -- Where `IterateUntil` returns a time t, with a clock that never goes back, t is no earlier than its
  -- start, and it is the limit or later, or it is the time at which the predicate said to stop.
  pub iterate_until-HasEnded :
      (s : S) (t : ℤ) (s' : S)
      → iterate_until w t_limit step s ≡ ok (t, s')
      → (time s ≤ℤ t) × HasEnded t s'
  unfolding iterate_until
  iterate_until-HasEnded s t s' e =
      let (_, e1) = checked->>=-eq-ok 63 _ _ e in
      let (p, e2, e3) =
        >>=-eq-ok (grow w t_limit step 33 (pos 0) (start w time steady t_limit step s)) _ e1 in
      hold-HasEnded s _ p _ t s' (grow-IsAfter w time steady t_limit step s p e2) e3
