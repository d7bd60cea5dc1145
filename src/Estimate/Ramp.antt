-- ===== src/Estimate/Ramp.antt =====
-- The first loop of `Estimate`: that it ends, what it returns, and when it overflows.
use cpp_autotime.Prelude.{
  ℕ, zero, suc, ◌-◌, ◌*◌, ◌^◌, ◌≤◌, ◌<◌, max, ◌≡◌, refl, ◌≢◌, ◌⊎◌, inl, inr, true, false, ok, spin,
  overflow, >>=-eq-ok, >>=-ne-spin, ok_inj, arith, Bool-cases,
}
use cpp_autotime.Prelude.Int.{
  ℤ, pos, ◌<ℤ◌, ◌/ℤ◌, checked-pos, checked-overflow, checked->>=-eq-ok, checked->>=-ne-spin,
}
use cpp_autotime.Prelude.Powers.{doubled}
use cpp_autotime.Types.{Durations}
use cpp_autotime.Estimate.Defs.{Timer, Sample, initial, measure, is_ramping, ramp}

-- The loop is entered.
pub is_ramping-initial :
    {S : Type 0} (target : ℤ) (s : S) → is_ramping target (pos 0) (initial s).durs ≡ true
unfolding is_ramping
is_ramping-initial target s = refl

module _ {S : Type 0} (timer : Timer S) where
  -- The sample is what the timer returned for its number of iterations.
  abbrev pub IsMeasured : Sample S → Type 0
  IsMeasured m = (s : S) × (timer m.num_iters s ≡ ok (m.durs, m.state))

  -- The timer itself always comes to an end.
  abbrev pub Ends : Type 0
  Ends = (n : ℕ) (s : S) → timer n s ≢ spin

  pub measure-eq-ok :
      (n : ℕ) (s : S) (m : Sample S)
      → measure timer n s ≡ ok m
      → (m.num_iters ≡ n) × (timer n s ≡ ok (m.durs, m.state))
  unfolding measure
  measure-eq-ok n s m h = ground arith

  pub measure-ne-spin : Ends → (n : ℕ) (s : S) → measure timer n s ≢ spin
  unfolding measure
  measure-ne-spin ends n s = >>=-ne-spin (timer n s) _ (ends n s) (λ a e k. cc)

  pub measure-ok :
      (n : ℕ) (s : S) (d : Durations) (s' : S)
      → timer n s ≡ ok (d, s')
      → measure timer n s ≡ ok (record { num_iters = n; durs = d; state = s' })
  unfolding measure
  measure-ok n s d s' e = rw e

  -- The loop stops, or makes one more round.
  pub ramp_stop :
      (target : ℤ) (fuel : ℕ) (prev : ℤ) (m : Sample S)
      → is_ramping target prev m.durs ≡ false
      → ramp timer target (suc fuel) prev m ≡ ok m
  unfolding ramp
  ramp_stop target fuel prev m e = rw e

  pub ramp_go :
      (target : ℤ) (fuel : ℕ) (prev : ℤ) (m next : Sample S)
      → is_ramping target prev m.durs ≡ true
      → 2 * m.num_iters < 2 ^ 31
      → measure timer (max (2 * m.num_iters) 1) m.state ≡ ok next
      → ramp timer target (suc fuel) prev m ≡ ramp timer target fuel m.durs.real next
  unfolding ramp
  ramp_go target fuel prev m next e fits e' = rw (e, checked-pos 31 (2 * m.num_iters) fits, e')

  pub ramp_overflow :
      (target : ℤ) (fuel : ℕ) (prev : ℤ) (m : Sample S)
      → is_ramping target prev m.durs ≡ true
      → 2 ^ 31 ≤ 2 * m.num_iters
      → ramp timer target (suc fuel) prev m ≡ overflow
  unfolding ramp
  ramp_overflow target fuel prev m e large = rw (e, checked-overflow 31 (2 * m.num_iters) large)

  -- One round of the loop, when it has a result.
  pub ramp-eq-ok :
      (target : ℤ) (fuel : ℕ) (prev : ℤ) (m r : Sample S)
      → ramp timer target (suc fuel) prev m ≡ ok r
      → ((is_ramping target prev m.durs ≡ false) × (r ≡ m))
        ⊎ ((next : Sample S) × (is_ramping target prev m.durs ≡ true)
            × (2 * m.num_iters < 2 ^ 31)
            × (measure timer (max (2 * m.num_iters) 1) m.state ≡ ok next)
            × (ramp timer target fuel m.durs.real next ≡ ok r))
  unfolding ramp
  ramp-eq-ok target fuel prev m r h = elim (Bool-cases (is_ramping target prev m.durs)) [
    | inl more ↦
        let (fits, h') = checked->>=-eq-ok 31 (pos (2 * m.num_iters)) _ (rw more at h) in
        let (next, e, h'') = >>=-eq-ok (measure timer (max (2 * m.num_iters) 1) m.state) _ h' in
        inr (next, more, fits.0, e, h'')
    | inr done ↦ inl (done, ok_inj (rw done at h))
  ]

  spin_ne_ok : (target prev : ℤ) (m r : Sample S) → ramp timer target zero prev m ≢ ok r
  unfolding ramp
  spin_ne_ok target prev m r e = cc

  stopped :
      (target prev : ℤ) (m : Sample S)
      → (is_ramping target prev m.durs ≡ true) ⊎ (IsMeasured m × (1 ≤ m.num_iters))
      → is_ramping target prev m.durs ≡ false
      → IsMeasured m × (1 ≤ m.num_iters) × (target /ℤ pos 1000 <ℤ m.durs.real)
  unfolding is_ramping
  stopped target prev m (inl more) done = cc
  stopped target prev m (inr (measured, n)) done = (measured, n, ground arith)

  -- A round runs out of fuel only in the rounds after it.
  ramp-ne-spin :
      (target : ℤ)
      → Ends
      → (fuel : ℕ) (prev : ℤ) (m : Sample S)
      → ((next : Sample S)
          → 2 * m.num_iters < 2 ^ 31
          → next.num_iters ≡ max (2 * m.num_iters) 1
          → ramp timer target fuel m.durs.real next ≢ spin)
      → ramp timer target (suc fuel) prev m ≢ spin
  unfolding ramp
  ramp-ne-spin target ends fuel prev m rest = elim (Bool-cases (is_ramping target prev m.durs)) [
    | inl more ↦ rw more (
        checked->>=-ne-spin 31 (pos (2 * m.num_iters)) _ (λ fits.
          >>=-ne-spin (measure timer (max (2 * m.num_iters) 1) m.state) _ (measure-ne-spin ends _ _)
            (λ next e. rest next fits.0 (measure-eq-ok _ _ _ e).0)))
    | inr done ↦ rw done (λ e. cc)
  ]

  ramp_ends_from :
      (target : ℤ)
      → Ends
      → (fuel k : ℕ) (prev : ℤ) (m : Sample S) → 1 ≤ m.num_iters
      → 2 ^ 31 ≤ m.num_iters * 2 ^ k
      → k < fuel
      → ramp timer target fuel prev m ≢ spin
  ramp_ends_from target ends zero k prev m h big lt = absurd (omega arith)
  ramp_ends_from target ends (suc fuel) k prev m h big lt =
      ramp-ne-spin target ends fuel prev m (λ next fits e.
        ramp_ends_from target ends fuel (k - 1) m.durs.real next (omega arith)
          (rw (e, no_max m.num_iters h) (fewer m.num_iters fits big).1)
          (omega (arith, (fewer m.num_iters fits big).0)))
    where
      no_max : (n : ℕ) → 1 ≤ n → max (2 * n) 1 ≡ 2 * n
      no_max n p = omega arith

      fewer :
          (n : ℕ) → 2 * n < 2 ^ 31 → 2 ^ 31 ≤ n * 2 ^ k → (1 ≤ k) × (2 ^ 31 ≤ 2 * n * 2 ^ (k - 1))
      fewer n p q = doubled (2 ^ 31) n k q (omega arith)

  -- Whatever the timer measures, the first loop of `Estimate` is over within its 33 rounds.
  pub ramp_ends : (target : ℤ) (s : S) → Ends → ramp timer target 33 (pos 0) (initial s) ≢ spin
  ramp_ends target s ends = ramp-ne-spin target ends 32 (pos 0) (initial s) (λ next fits e.
      ramp_ends_from target ends 32 31 (pos 0) next (omega arith) (rw e (omega arith))
        (omega arith))

  -- What the loop returns is a measurement, of at least one iteration, above a thousandth of the target.
  pub ramp-IsMeasured :
      (target : ℤ) (fuel : ℕ) (prev : ℤ) (m r : Sample S)
      → (is_ramping target prev m.durs ≡ true) ⊎ (IsMeasured m × (1 ≤ m.num_iters))
      → ramp timer target fuel prev m ≡ ok r
      → IsMeasured r × (1 ≤ r.num_iters) × (target /ℤ pos 1000 <ℤ r.durs.real)
  ramp-IsMeasured target zero prev m r h e = absurd (spin_ne_ok target prev m r e)
  ramp-IsMeasured target (suc fuel) prev m r h e = elim (ramp-eq-ok target fuel prev m r e) [
    | inl (done, same) ↦ rw same (stopped target prev m h done)
    | inr (next, more, fits, e', e'') ↦
        let (n, measured) = measure-eq-ok _ _ _ e' in
        ramp-IsMeasured target fuel m.durs.real next r (inr ((m.state, rw n measured), omega arith))
          e''
  ]
