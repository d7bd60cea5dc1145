-- ===== src/Timing/Measuring.antt =====
-- `GetOverhead` and `End` come to an end, and `GetOverhead` gives what it measures.
use cpp_autotime.Prelude.{
  ℕ, suc, ◌≡◌, ◌≢◌, refl, true, Bool-cases, inl, inr, Outcome, ok, overflow, div_by_zero, spin,
  >>=-ne-spin, ◌>>=◌,
}
use cpp_autotime.Prelude.Int.{
  ℤ, pos, ◌*ℤ◌, ◌+ℤ◌, checked, checked->>=-ne-spin, quotient64, quotient64-ne-spin, eqb_ℤ,
}
use cpp_autotime.Types.{Durations, DurationsForIters, NormDurations, normalize, rates, per_iter}
use cpp_autotime.Estimate.{auto_time}
use cpp_autotime.Estimate.Safe.{Holds, >>=-Holds, Holds-any, checked-Holds, estimate-Holds}
use cpp_autotime.Timing.{
  Clocks, Clock, Timed, TimePoints, calibration, calibration_of, with_calibration, with_world, now,
  time_with, get_overhead, end_timing, to_nanoseconds, steady_clock, thread_clock,
}

per_iter-ne-spin : (dur round n : ℤ) → per_iter dur round n ≢ spin
unfolding per_iter
per_iter-ne-spin dur round n =
    checked->>=-ne-spin 63 (dur *ℤ pos 1000) _
      (λ _. checked->>=-ne-spin 63 (dur *ℤ pos 1000 +ℤ round) _ (λ _. quotient64-ne-spin _ n))

normalize-ne-spin : (dfi : DurationsForIters) → normalize dfi ≢ spin
unfolding normalize rates
normalize-ne-spin dfi =
    >>=-ne-spin (quotient64 dfi.num_iters (pos 2)) _ (quotient64-ne-spin _ _) (λ round _.
      elim (Bool-cases (eqb_ℤ dfi.num_iters (pos 0))) [
        | inl none_run ↦ rw none_run (λ e. cc)
        | inr others ↦ rw others (
            >>=-ne-spin (per_iter dfi.durs.real round dfi.num_iters) _ (per_iter-ne-spin _ _ _)
              (λ real _.
                >>=-ne-spin (per_iter dfi.durs.thread round dfi.num_iters) _
                  (per_iter-ne-spin _ _ _) (λ thread _ e. cc)))
      ])

-- As `>>=-Holds`, where what follows knows which result it has.
>>=-Holds_of {ℓ κ} :
    {A : Type ℓ} {B : Type κ} (P : A → Type 0) (Q : B → Type 0) (first : Outcome A)
    (next : A → Outcome B)
    → Holds P first
    → ((a : A) → first ≡ ok a → P a → Holds Q (next a))
    → Holds Q (first >>= next)
>>=-Holds_of P Q (ok a) next h k = k a refl h
>>=-Holds_of P Q overflow next h k = tt
>>=-Holds_of P Q div_by_zero next h k = tt
>>=-Holds_of P Q spin next h k = h

module _ {S : Type 0} (clocks : Clocks S) (timeslice : ℤ) where
  -- The overhead of the clock is known, or about to be measured.
  abbrev pub Called : Clock → Timed S → Type 0
  Called clock s = (calibration_of clock s).called ≡ true

  -- The overhead is what `AutoTime` gives of `now` of the clock, from some state on, normalized and in
  -- nanoseconds.
  abbrev pub IsMeasured : Clock → Durations → Type 0
  IsMeasured clock overhead =
      (depth : ℕ) × (s : Timed S) × (s' : Timed S) × (dfi : DurationsForIters)
      × (norm : NormDurations) × (auto_time timeslice
            (time_with clocks timeslice (end_timing clocks timeslice depth)
              (λ w. (now clocks timeslice clock w).1))
            s
          ≡ ok (dfi, s'))
      × (normalize dfi ≡ ok norm)
      × (overhead ≡ to_nanoseconds norm)

  -- `End` comes to an end from the states with P, and keeps P.
  abbrev pub Keeps :
      (Timed S → Type 0) → (TimePoints → Timed S → Outcome (Durations × Timed S)) → Type 0
  Keeps P end = (p : TimePoints) (s : Timed S) → P s → Holds (λ r. P r.1) (end p s)

  -- `GetOverhead` of a clock that is called gives what is known of it.
  pub get_overhead-known :
      (end : TimePoints → Timed S → Outcome (Durations × Timed S)) (clock : Clock) (s : Timed S)
      (Q : Timed S → Type 0)
      → Called clock s
      → Q s
      → Holds (λ r. Q r.1) (get_overhead clocks timeslice end clock s)
  unfolding get_overhead
  get_overhead-known end clock s Q h q = rw h q

  -- `GetOverhead` comes to an end if `End` does from the states of its measurement, which have P, and
  -- leaves Q if the state it finds has it, or the one with the measured overhead.
  pub get_overhead-Holds :
      (depth : ℕ) (clock : Clock) (s : Timed S) (P Q : Timed S → Type 0)
      → ((t : Timed S) (w : S) → P t → P (with_world t w))
      → ((t : Timed S) (o : Durations)
          → IsMeasured clock o
          → P t
          → Q (with_calibration clock (calibration true o) t))
      → Keeps P (end_timing clocks timeslice depth)
      → P (with_calibration clock (calibration true (calibration_of clock s).overhead) s)
      → (Called clock s → Q s)
      → Holds
          (λ r. Q r.1)
          (get_overhead clocks timeslice (end_timing clocks timeslice depth) clock s)
  unfolding get_overhead auto_time time_with
  get_overhead-Holds depth clock s P Q moved stored ends marked known =
      elim (Bool-cases (calibration_of clock s).called) [
        | inl called ↦ rw called (known called)
        | inr fresh ↦
            let s0 : Timed S =
              with_calibration clock (calibration true (calibration_of clock s).overhead) s in
            rw fresh (
              >>=-Holds_of (λ r. P r.1) _
                (auto_time timeslice
                  (time_with clocks timeslice (end_timing clocks timeslice depth)
                    (λ w. (now clocks timeslice clock w).1))
                  s0)
                _ (estimate-Holds _ P (λ n t h. ends _ _ (moved t _ h)) timeslice s0 marked)
                (λ r e h.
                  >>=-Holds_of _ _ (normalize r.0) _ (Holds-any _ (normalize-ne-spin r.0))
                    (λ norm e' _.
                      stored r.1 (to_nanoseconds norm) (depth, s0, r.1, r.0, norm, e, e', refl) h)))
      ]

  -- What follows on the two overheads are checks.
  pub end-Holds :
      (depth : ℕ) (p : TimePoints) (s : Timed S) (P Q : Timed S → Type 0)
      → ((t : Timed S)
          → Holds
              (λ r. P r.1)
              (get_overhead clocks timeslice
                (end_timing clocks timeslice depth)
                steady_clock
                (with_world s t.world)))
      → ((t : Timed S)
          → P t
          → Holds
              (λ r. Q r.1)
              (get_overhead clocks timeslice (end_timing clocks timeslice depth) thread_clock t))
      → Holds (λ r. Q r.1) (end_timing clocks timeslice (suc depth) p s)
  unfolding end_timing
  end-Holds depth p s P Q first second =
      >>=-Holds _ _
        (get_overhead clocks timeslice (end_timing clocks timeslice depth) steady_clock _) _
        (first (with_world s (clocks.thread_now (clocks.steady_now s.world).1).1))
        (λ x h. >>=-Holds _ _ (checked 63 _) _ (checked-Holds 63 _) (λ real_span _.
          >>=-Holds _ _ (checked 63 _) _ (checked-Holds 63 _) (λ real_dur _.
            >>=-Holds _ _
              (get_overhead clocks timeslice (end_timing clocks timeslice depth) thread_clock x.1) _
              (second x.1 h)
              (λ y k. >>=-Holds _ _ (checked 63 _) _ (checked-Holds 63 _) (λ a _.
                >>=-Holds _ _ (checked 63 _) _ (checked-Holds 63 _) (λ b _.
                  >>=-Holds _ _ (checked 63 _) _ (checked-Holds 63 _)
                    (λ c _. >>=-Holds _ _ (checked 63 _) _ (checked-Holds 63 _) (λ d _. k))))))))

  pub weaken :
      (P : Timed S → Type 0) {Q : Timed S → Type 0} (o : Outcome (Durations × Timed S))
      → ((t : Timed S) → P t → Q t)
      → Holds (λ r. P r.1) o
      → Holds (λ r. Q r.1) o
  weaken P (ok r) k h = k r.1 h
  weaken P overflow k h = tt
  weaken P div_by_zero k h = tt
  weaken P spin k h = h
