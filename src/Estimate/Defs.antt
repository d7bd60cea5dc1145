-- ===== src/Estimate/Defs.antt =====
-- The two loops of `Estimate`. `num_iters` is an `int`, never negative, so it is a number here; the
-- quotient of the second loop may be negative until it is compared with 3.
use cpp_autotime.Prelude.{
  ℕ, zero, suc, ◌*◌, max, Bool, ◌||◌, Outcome, ok, spin, ◌>>=◌, if◌then◌else◌,
}
use cpp_autotime.Prelude.Int.{
  ℤ, pos, pos_part, ◌+ℤ◌, ◌*ℤ◌, ◌/ℤ◌, ltb_ℤ, leb_ℤ, checked, to_int32, quotient64,
}
use cpp_autotime.Types.{Durations, DurationsForIters}

-- `Timer`: measures the given number of iterations, from a state to a state.
abbrev pub Timer : Type 0 → Type 0
Timer S = ℕ → S → Outcome (Durations × S)

-- Where a loop of `Estimate` stands: `num_iters`, `durs`, and the timer's state.
pub record Sample (S : Type 0) : Type 0 where
  pub num_iters : ℕ
  pub durs : Durations
  pub state : S

-- The initial values of the variables of `Estimate`.
abbrev pub initial : {S : Type 0} → S → Sample S
initial s = record { num_iters = 0; durs = record { real = pos 0; thread = pos 0 }; state = s }

-- `durs = timer( num_iters )`
unfoldable pub measure : {S : Type 0} → Timer S → ℕ → S → Outcome (Sample S)
measure timer n s = do (d, s') ← timer n s; ok (record { num_iters = n; durs = d; state = s' })

-- `durs.real <= prev || prev <= target / 1000`
unfoldable pub is_ramping : ℤ → ℤ → Durations → Bool
is_ramping target prev d = leb_ℤ d.real prev || leb_ℤ prev (target /ℤ pos 1000)

-- `durs.real < target * 4 / 5 || durs.real > target * 2`
unfoldable pub is_off : ℤ → Durations → Outcome Bool
is_off target d = do
  quadruple ← checked 63 (target *ℤ pos 4)
  double ← checked 63 (target *ℤ pos 2)
  ok (ltb_ℤ d.real (quadruple /ℤ pos 5) || ltb_ℤ double d.real)

-- `static_cast< int >( (num_iters * target + round) / durs.real )`
unfoldable pub next_iters : {S : Type 0} → ℤ → Sample S → Outcome ℤ
next_iters target m = do
  round ← quotient64 m.durs.real (pos 2)
  product ← checked 63 (pos m.num_iters *ℤ target)
  sum ← checked 63 (product +ℤ round)
  quotient ← quotient64 sum m.durs.real
  ok (to_int32 quotient)

module _ {S : Type 0} (timer : Timer S) (target : ℤ) where
  -- The first loop. Doubling past the largest `int` is an overflow.
  unfoldable pub ramp : ℕ → ℤ → Sample S → Outcome (Sample S)
  ramp zero prev m = spin
  ramp (suc fuel) prev m =
      let again = (do
        doubled ← checked 31 (pos (2 * m.num_iters))
        next ← measure timer (max (pos_part doubled) 1) m.state
        ramp fuel m.durs.real next) in
      if is_ramping target prev m.durs then again else ok m

  -- The second loop, with `5 - num_attempts` attempts left.
  unfoldable pub refine : ℕ → Sample S → Outcome (Sample S)
  refine zero m = do off ← is_off target m.durs; ok m
  refine (suc attempts) m = do
    off ← is_off target m.durs
    let again = (do
      next ← next_iters target m
      let again = measure timer (pos_part next) m.state >>= refine attempts
      if leb_ℤ next (pos 3) then ok m else again)
    if off then again else ok m

  -- The loops one after the other.
  unfoldable pub estimate_from : S → Outcome (Sample S)
  estimate_from s = ramp 33 (pos 0) (initial s) >>= refine 5

abbrev pub as_result : {S : Type 0} → Sample S → DurationsForIters × S
as_result m = (record { num_iters = pos m.num_iters; durs = m.durs }, m.state)

-- `Estimate`. At the 33rd round the first loop has overflowed (`Ramp.ramp_ends`).
unfoldable pub estimate : {S : Type 0} → Timer S → ℤ → S → Outcome (DurationsForIters × S)
estimate timer target s = do m ← estimate_from timer target s; ok (as_result m)

-- `AutoTime`: the target is the timeslice that `GetTimeslice` returns.
unfoldable pub auto_time : {S : Type 0} → ℤ → Timer S → S → Outcome (DurationsForIters × S)
auto_time timeslice timer = estimate timer timeslice

-- All of the above, for the `unfolding` line of a test.
unfoldable pub estimate_ops : Unit {0}
unfolding measure is_ramping is_off next_iters ramp refine estimate_from estimate auto_time
estimate_ops = tt
