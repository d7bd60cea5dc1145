-- ===== src/Types/Rounding.antt =====
-- How `DurationsForIters::normalize` rounds.
use native.Mathlib.Nat.{div-add-mod, mod-lt}
use cpp_autotime.Prelude.{ℕ, ◌+◌, ◌*◌, ◌/◌, ◌^◌, ◌≤◌, ◌<◌, ◌≡◌, ok, arith}
use cpp_autotime.Prelude.Int.{pos, pos-*ℤ, pos-+ℤ, checked-pos, quotient64-pos}
use cpp_autotime.Types.{per_iter, normalize}

-- `ps` picoseconds are `ns` nanoseconds divided by `n`, to the nearest whole number.
abbrev pub IsNearest : ℕ → ℕ → ℕ → Type 0
IsNearest n ns ps = (2 * (ps * n) ≤ 2 * (ns * 1000) + n) × (2 * (ns * 1000) ≤ 2 * (ps * n) + n)

nearest :
    (n x : ℕ)
    → 0 < n
    → (2 * ((x + n / 2) / n * n) ≤ 2 * x + n) × (2 * x ≤ 2 * ((x + n / 2) / n * n) + n)
nearest n x h = omega (arith, div-add-mod (x + n / 2) n, mod-lt (x + n / 2) h)

pub per_iter-pos :
    (n ns : ℕ)
    → 0 < n
    → n < 2 ^ 31
    → ns < 2 ^ 53
    → per_iter (pos ns) (pos (n / 2)) (pos n) ≡ ok (pos ((ns * 1000 + n / 2) / n))
unfolding per_iter
per_iter-pos n ns h hn hs =
    rw
      (
        pos-*ℤ ns 1000,
        checked-pos 63 (ns * 1000) (omega arith),
        pos-+ℤ (ns * 1000) (n / 2),
        checked-pos 63 (ns * 1000 + n / 2) (omega arith),
      )
      (quotient64-pos (ns * 1000 + n / 2) n h (omega arith))

-- A measurement of `n` iterations, at least one, with durations below 2 ^ 53 nanoseconds: nothing
-- overflows, and each result is the exact quotient in picoseconds, to the nearest whole number.
pub normalize-IsNearest :
    (n a b : ℕ)
    → 0 < n
    → n < 2 ^ 31
    → a < 2 ^ 53
    → b < 2 ^ 53
    → (r t : ℕ) × (normalize
          (record { num_iters = pos n; durs = record { real = pos a; thread = pos b } })
        ≡ ok (record { real = pos r; thread = pos t }))
      × IsNearest n a r
      × IsNearest n b t
unfolding normalize
normalize-IsNearest n a b h hn ha hb = (
  (a * 1000 + n / 2) / n,
  (b * 1000 + n / 2) / n,
  rw (quotient64-pos n 2 (omega arith) (omega arith))
      (ground (arith, per_iter-pos n a h hn ha, per_iter-pos n b h hn hb)),
  nearest n (a * 1000) h,
  nearest n (b * 1000) h,
)
