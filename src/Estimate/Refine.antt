-- ===== src/Estimate/Refine.antt =====
-- The second loop of `Estimate`, and the function as a whole.
use cpp_autotime.Prelude.{
  ℕ, zero, suc, ◌*◌, ◌/◌, ◌^◌, ◌≤◌, ◌<◌, ◌≡◌, refl, ap, ◌≢◌, ◌⊎◌, inl, inr, ◌↔◌, true, false, ◌||◌,
  ok, div_by_zero, spin, >>=-eq-ok, >>=-ne-spin, ok_inj, arith, Bool-cases,
}
use cpp_autotime.Prelude.Int.{
  ℤ, pos, pos_part, ◌≤ℤ◌, ◌+ℤ◌, ◌*ℤ◌, leb_ℤ, ltb_ℤ, checked->>=-ne-spin, checked-pos, pos-*ℤ,
  pos-/ℤ, quotient64, quotient64-ne-spin,
}
use cpp_autotime.Types.{Durations}
use cpp_autotime.Estimate.Defs.{
  Timer, Sample, initial, measure, is_off, next_iters, ramp, refine, estimate_from,
}
use cpp_autotime.Estimate.Ramp.{IsMeasured, Ends, measure-eq-ok, measure-ne-spin, ramp_ends}

-- At least 0.8 of the target, and no more than twice the target.
abbrev pub IsWithin : ℕ → Durations → Type 0
IsWithin t d = (pos (t * 4 / 5) ≤ℤ d.real) × (d.real ≤ℤ pos (t * 2))

-- For a target below 2 ^ 61 the products of the loop's condition do not overflow.
pub is_off-pos :
    (t : ℕ) (d : Durations)
    → t < 2 ^ 61
    → is_off (pos t) d ≡ ok (ltb_ℤ d.real (pos (t * 4 / 5)) || ltb_ℤ (pos (t * 2)) d.real)
unfolding is_off
is_off-pos t d h = rw (
  pos-*ℤ t 4,
  checked-pos 63 (t * 4) (omega arith),
  pos-*ℤ t 2,
  checked-pos 63 (t * 2) (omega arith),
  pos-/ℤ (t * 4) 5,
)

pub is_off-IsWithin :
    (t : ℕ) (d : Durations) → t < 2 ^ 61 → (is_off (pos t) d ≡ ok false) ↔ IsWithin t d
is_off-IsWithin t d h = rw (is_off-pos t d h) ((λ e. ground arith), (λ w. ground arith))

-- The number of iterations that the loop would take next is too low to go on.
abbrev pub IsCoarse : {S : Type 0} → ℤ → Sample S → Type 0
IsCoarse target m = (z : ℤ) × (next_iters target m ≡ ok z) × (z ≤ℤ pos 3)

pub is_off-ne-spin : (target : ℤ) (d : Durations) → is_off target d ≢ spin
unfolding is_off
is_off-ne-spin target d =
    checked->>=-ne-spin 63 (target *ℤ pos 4) _
      (λ _. checked->>=-ne-spin 63 (target *ℤ pos 2) _ (λ _ k. cc))

pub next_iters-ne-spin : {S : Type 0} (target : ℤ) (m : Sample S) → next_iters target m ≢ spin
unfolding next_iters
next_iters-ne-spin target m =
    >>=-ne-spin (quotient64 m.durs.real (pos 2)) _ (quotient64-ne-spin _ _) (λ round _.
      checked->>=-ne-spin 63 (pos m.num_iters *ℤ target) _ (λ _.
        checked->>=-ne-spin 63 (pos m.num_iters *ℤ target +ℤ round) _ (λ _.
          >>=-ne-spin (quotient64 (pos m.num_iters *ℤ target +ℤ round) m.durs.real) _
            (quotient64-ne-spin _ _) (λ _ _ k. cc))))

module _ {S : Type 0} (timer : Timer S) where
  -- `k` measurements in a row, of whatever numbers of iterations, from one sample to another.
  abbrev pub Chain : ℕ → Sample S → Sample S → Type 0
  Chain zero m r = r ≡ m
  Chain (suc k) m r =
      (n : ℕ) × (next : Sample S) × (measure timer n m.state ≡ ok next) × Chain k next r

module _ {S : Type 0} (timer : Timer S) (target : ℤ) where
  -- The ways on from one attempt of the loop.
  pub refine_stop :
      (attempts : ℕ) (m : Sample S)
      → is_off target m.durs ≡ ok false
      → refine timer target (suc attempts) m ≡ ok m
  unfolding refine
  refine_stop attempts m e = rw e

  pub refine_coarse :
      (attempts : ℕ) (m : Sample S)
      → is_off target m.durs ≡ ok true
      → IsCoarse target m
      → refine timer target (suc attempts) m ≡ ok m
  unfolding refine
  refine_coarse attempts m e (z, e', low) =
      let test : leb_ℤ z (pos 3) ≡ true = ground arith in rw (e, e', test)

  pub refine_go :
      (attempts q : ℕ) (m next : Sample S)
      → is_off target m.durs ≡ ok true
      → next_iters target m ≡ ok (pos q)
      → 3 < q
      → measure timer q m.state ≡ ok next
      → refine timer target (suc attempts) m ≡ refine timer target attempts next
  unfolding refine
  refine_go attempts q m next e e' high e3 =
      let test : leb_ℤ (pos q) (pos 3) ≡ false = ground arith in rw (e, e', test, e3)

  pub refine_fault :
      (attempts : ℕ) (m : Sample S)
      → is_off target m.durs ≡ ok true
      → next_iters target m ≡ div_by_zero
      → refine timer target (suc attempts) m ≡ div_by_zero
  unfolding refine
  refine_fault attempts m e e' = rw (e, e')

  -- One attempt of the loop, when it has a result.
  pub refine-eq-ok :
      (attempts : ℕ) (m r : Sample S)
      → refine timer target (suc attempts) m ≡ ok r
      → ((is_off target m.durs ≡ ok false) × (r ≡ m))
        ⊎ ((IsCoarse target m × (r ≡ m))
            ⊎ ((z : ℤ) × (next : Sample S) × (measure timer (pos_part z) m.state ≡ ok next)
                × (pos 4 ≤ℤ z)
                × (refine timer target attempts next ≡ ok r)))
  unfolding refine
  refine-eq-ok attempts m r h =
      let (off, e, h') = >>=-eq-ok (is_off target m.durs) _ h in
      elim (Bool-cases off) [
        | inl bad ↦
            let (z, e', h'') = >>=-eq-ok (next_iters target m) _ (rw bad at h') in
            elim (Bool-cases (leb_ℤ z (pos 3))) [
              | inl low ↦ inr (inl ((z, e', ground arith), ok_inj (rw low at h'')))
              | inr high ↦
                  let (next, e3, h3) =
                    >>=-eq-ok (measure timer (pos_part z) m.state) _ (rw high at h'') in
                  inr (inr (z, next, e3, ground arith, h3))
            ]
        | inr good ↦ inl (rw good at e, ok_inj (rw good at h'))
      ]

  refine-ne-spin :
      Ends timer → (attempts : ℕ) (m : Sample S) → refine timer target attempts m ≢ spin
  unfolding refine
  refine-ne-spin ends zero m =
      >>=-ne-spin (is_off target m.durs) _ (is_off-ne-spin target m.durs) (λ off e k. cc)
  refine-ne-spin ends (suc attempts) m =
      >>=-ne-spin (is_off target m.durs) _ (is_off-ne-spin target m.durs) (λ off e.
        elim (Bool-cases off) [
          | inl bad ↦ rw bad (
              >>=-ne-spin (next_iters target m) _ (next_iters-ne-spin target m) (λ z e'.
                elim (Bool-cases (leb_ℤ z (pos 3))) [
                  | inl low ↦ rw low (λ k. cc)
                  | inr high ↦ rw high (
                      >>=-ne-spin (measure timer (pos_part z) m.state) _
                        (measure-ne-spin timer ends _ _)
                        (λ next e3. refine-ne-spin ends attempts next))
                ]))
          | inr good ↦ rw good (λ k. cc)
        ])

  -- `Estimate` always comes to an end, if its timer does.
  pub estimate_from-ne-spin : Ends timer → (s : S) → estimate_from timer target s ≢ spin
  unfolding estimate_from
  estimate_from-ne-spin ends s =
      >>=-ne-spin (ramp timer target 33 (pos 0) (initial s)) _ (ramp_ends timer target s ends)
        (λ m e. refine-ne-spin ends 5 m)

  refine-eq-ok_zero : (m r : Sample S) → refine timer target 0 m ≡ ok r → r ≡ m
  unfolding refine
  refine-eq-ok_zero m r h = ok_inj (>>=-eq-ok (is_off target m.durs) _ h).2

  pub refine-IsMeasured :
      (attempts : ℕ) (m r : Sample S)
      → IsMeasured timer m × (1 ≤ m.num_iters)
      → refine timer target attempts m ≡ ok r
      → IsMeasured timer r × (1 ≤ r.num_iters)
  refine-IsMeasured zero m r h e = rw (refine-eq-ok_zero m r e) h
  refine-IsMeasured (suc attempts) m r h e = elim (refine-eq-ok attempts m r e) [
    | inl (_, same) ↦ rw same h
    | inr (inl (_, same)) ↦ rw same h
    | inr (inr (z, next, e', high, e3)) ↦
        let (n, measured) = measure-eq-ok timer _ _ _ e' in
        refine-IsMeasured attempts next r ((m.state, rw n measured), omega arith) e3
  ]

  -- Why the loop stopped, and after how many measurements.
  abbrev pub Stops : ℕ → Sample S → Sample S → Type 0
  Stops attempts m r =
      (k : ℕ) × (k ≤ attempts)
      × Chain timer k m r
      × ((is_off target r.durs ≡ ok false) ⊎ (IsCoarse target r ⊎ (k ≡ attempts)))

  pub refine-Stops :
      (attempts : ℕ) (m r : Sample S) → refine timer target attempts m ≡ ok r → Stops attempts m r
  refine-Stops zero m r e = (0, omega arith, refine-eq-ok_zero m r e, inr (inr refl))
  refine-Stops (suc attempts) m r e = elim (refine-eq-ok attempts m r e) [
    | inl (good, same) ↦ (0, omega arith, same, inl (rw same good))
    | inr (inl (coarse, same)) ↦ (0, omega arith, same, inr (inl (rw same coarse)))
    | inr (inr (z, next, e', high, e3)) ↦
        let (k, le, chain, why) = refine-Stops attempts next r e3 in
        (
          suc k,
          omega arith,
          (pos_part z, next, e', chain),
          elim why [
            | inl good ↦ inl good
            | inr (inl coarse) ↦ inr (inl coarse)
            | inr (inr all) ↦ inr (inr (ap suc all))
          ],
        )
  ]
