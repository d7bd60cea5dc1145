-- ===== src/Iterate.antt =====
-- `IterateUntil` (lib/iterate.cpp). Its clock, its work and its predicate act on a state of the
-- world; `num_iters` of the first loop is never negative, so it is a number there.
pub mod Rounds
pub mod Grow
pub mod Ends
pub mod Results
mod Tests
use cpp_autotime.Prelude.{
  ℕ, zero, suc, ◌+◌, ◌*◌, max, Bool, ◌||◌, Outcome, ok, spin, ◌>>=◌, if◌then◌else◌,
}
use cpp_autotime.Prelude.Int.{
  ℤ, pos, pos_part, ◌+ℤ◌, ◌-ℤ◌, ◌*ℤ◌, ◌/ℤ◌, ltb_ℤ, leb_ℤ, checked, to_int32, quotient64,
}

-- `now` is `steady_clock::now()`.
pub record World (S : Type 0) : Type 0 where
  pub now : S → ℤ × S
  pub work : S → S
  pub predicate : S → Bool × S

-- The variables of `IterateUntil` after a pass over the work.
pub record Pass (S : Type 0) : Type 0 where
  pub num_iters : ℤ
  pub dur : ℤ
  pub t : ℤ
  pub state : S

module _ {S : Type 0} (w : World S) where
  open w use {now, work, predicate}

  -- `for (int i = 0; i < num_iters; ++i) work()`
  abbrev pub repeat : ℕ → S → S
  repeat zero s = s
  repeat (suc n) s = repeat n (work s)

  -- The work, and the lines `dur = steady_clock::now() - t; t += dur` after it.
  unfoldable pub pass : ℤ → ℤ → S → Outcome (Pass S)
  pass num_iters t s = do
    let (time, s') = now (repeat (pos_part num_iters) s)
    dur ← checked 63 (time -ℤ t)
    t' ← checked 63 (t +ℤ dur)
    ok (record { num_iters = num_iters; dur = dur; t = t'; state = s' })

  module _ (t_limit step : ℤ) where
    -- `dur <= dur_prev || dur_prev <= step / 100`
    unfoldable pub is_short : ℤ → ℤ → Bool
    is_short dur dur_prev = leb_ℤ dur dur_prev || leb_ℤ dur_prev (step /ℤ pos 100)

    -- The first loop.
    unfoldable pub grow : ℕ → ℤ → Pass S → Outcome (Pass S)
    grow zero dur_prev p = spin
    grow (suc fuel) dur_prev p =
        let again = (do
          doubled ← checked 31 (pos (2 * pos_part p.num_iters))
          next ← pass (pos (max (pos_part doubled) 1)) p.t p.state
          grow fuel p.dur next) in
        if is_short p.dur dur_prev then again else ok p

    -- `do t_next += step; while (t_next <= t)`
    unfoldable pub advance : ℕ → ℤ → ℤ → Outcome ℤ
    advance zero t t_next = spin
    advance (suc fuel) t t_next = do
      next ← checked 63 (t_next +ℤ step)
      let again = advance fuel t next
      if leb_ℤ next t then again else ok next

    -- The next `num_iters`.
    unfoldable pub next_count : Pass S → ℤ → Outcome ℤ
    next_count p t_next = do
      round ← quotient64 p.dur (pos 2)
      left ← checked 63 (t_next -ℤ p.t)
      product ← checked 63 (p.num_iters *ℤ left)
      sum ← checked 63 (product +ℤ round)
      quotient ← quotient64 sum p.dur
      ok (to_int32 quotient)

    -- The body of the second loop: the pass, and the next `t_next`.
    unfoldable pub round_of : Pass S → ℤ → S → Outcome (Pass S × ℤ)
    round_of p t_next s = do
      num_iters ← next_count p t_next
      next ← pass num_iters p.t s
      t_next' ← advance (pos_part (next.t -ℤ t_next) + 2) next.t t_next
      ok (next, t_next')

    -- The second loop: `t` and the state at its end.
    unfoldable pub hold : ℕ → Pass S → ℤ → Outcome (ℤ × S)
    hold zero p t_next = spin
    hold (suc fuel) p t_next =
        let (going, s) = predicate p.state in
        let again = (do (next, t_next') ← round_of p t_next s; hold fuel next t_next') in
        if ltb_ℤ p.t t_limit then (if going then again else ok (p.t, s)) else ok (p.t, p.state)

    -- `IterateUntil`
    unfoldable pub iterate_until : S → Outcome (ℤ × S)
    iterate_until s = do
      let (t, s') = now s
      t_next ← checked 63 (t +ℤ step)
      p ← grow 33 (pos 0) (record { num_iters = pos 0; dur = pos 0; t = t; state = s' })
      hold (pos_part (t_limit -ℤ p.t) + 2) p t_next
