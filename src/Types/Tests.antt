-- ===== src/Types/Tests.antt =====
-- A run of lib/types.cpp, and inputs at which its theorems apply.
use cpp_autotime.Prelude.{ℕ, ◌≡◌, refl, ok, arith}
use cpp_autotime.Prelude.Int.{pos, int_ops}
use cpp_autotime.Types.{normalize}
use cpp_autotime.Types.Rounding.{IsNearest, normalize-IsNearest}

thirds :
    normalize (record { num_iters = pos 3; durs = record { real = pos 5; thread = pos 4 } })
    ≡ ok (record { real = pos 1667; thread = pos 1333 })
unfolding normalize int_ops
thirds = refl

normalize-IsNearest_example :
    (r t : ℕ) × (normalize
        (record { num_iters = pos 3; durs = record { real = pos 5; thread = pos 4 } })
      ≡ ok (record { real = pos r; thread = pos t }))
    × IsNearest 3 5 r
    × IsNearest 3 4 t
normalize-IsNearest_example =
    normalize-IsNearest 3 5 4 (omega arith) (omega arith) (omega arith) (omega arith)
