-- ===== src/Estimate/Contract.antt =====
-- What `Estimate` promises: its results, and that it ends.
use cpp_autotime.Prelude.{
  ℕ, ◌^◌, ◌≤◌, ◌<◌, ◌≡◌, ◌≢◌, ◌⊎◌, inl, inr, ok, spin, >>=-eq-ok, >>=-ne-spin, ok_inj,
}
use cpp_autotime.Prelude.Int.{ℤ, pos}
use cpp_autotime.Types.{DurationsForIters}
use cpp_autotime.Estimate.Defs.{Timer, Sample, initial, as_result, ramp, estimate_from, estimate}
use cpp_autotime.Estimate.Ramp.{IsMeasured, Ends, is_ramping-initial, ramp-IsMeasured}
use cpp_autotime.Estimate.Refine.{
  IsWithin, IsCoarse, Chain, is_off-IsWithin, refine-IsMeasured, refine-Stops,
  estimate_from-ne-spin,
}

module _ {S : Type 0} (timer : Timer S) where
  -- What `Estimate` returns, for a target of t nanoseconds below 2 ^ 61, is the number of iterations
  -- and the duration of its last call of the timer, for at least one iteration. After the first
  -- loop it calls the timer k times, at most 5; and if k is not 5, the duration lies between 0.8 t
  -- and 2 t, or the next number of iterations would be 3 or less.
  pub estimate_lem :
      (t : ℕ) (s : S) (dfi : DurationsForIters) (s' : S)
      → t < 2 ^ 61
      → estimate timer (pos t) s ≡ ok (dfi, s')
      → (m r : Sample S) × ((dfi, s') ≡ as_result r)
        × IsMeasured timer r
        × (1 ≤ r.num_iters)
        × (ramp timer (pos t) 33 (pos 0) (initial s) ≡ ok m)
        × (k : ℕ) × (k ≤ 5)
        × Chain timer k m r
        × (IsWithin t r.durs ⊎ (IsCoarse (pos t) r ⊎ (k ≡ 5)))
  unfolding estimate estimate_from
  estimate_lem t s dfi s' h e =
      let (r, e', out) = >>=-eq-ok (estimate_from timer (pos t) s) _ e in
      let (m, ramped, refined) = >>=-eq-ok (ramp timer (pos t) 33 (pos 0) (initial s)) _ e' in
      let (measured, n, _) =
        ramp-IsMeasured timer (pos t) 33 (pos 0) (initial s) m (inl (is_ramping-initial (pos t) s))
          ramped in
      let (measured', n') = refine-IsMeasured timer (pos t) 5 m r (measured, n) refined in
      let (k, le, chain, why) = refine-Stops timer (pos t) 5 m r refined in
      (
        m,
        r,
        ok_inj out,
        measured',
        n',
        ramped,
        k,
        le,
        chain,
        elim why [ inl good ↦ inl ((is_off-IsWithin t r.durs h).0 good) | inr rest ↦ inr rest ],
      )

  -- `Estimate` does not run on for ever, for any target, if its timer always comes to an end: it
  -- returns, or it meets an overflow of a signed integer or a division by zero. Both are undefined
  -- behaviour and count as its end here; where the doubled num_iters wraps round instead of that, a
  -- timer that always measures zero keeps the first loop going.
  pub estimate-ne-spin : (target : ℤ) (s : S) → Ends timer → estimate timer target s ≢ spin
  unfolding estimate
  estimate-ne-spin target s ends =
      >>=-ne-spin (estimate_from timer target s) _ (estimate_from-ne-spin timer target ends s)
        (λ r e k. cc)
