-- ===== src/Timing/Ends.antt =====
-- The calibration of the clocks comes to an end, and what it leaves in the static variables.
use cpp_autotime.Prelude.{◌≡◌, ◌⊎◌}
use cpp_autotime.Prelude.Int.{ℤ}
use cpp_autotime.Timing.{Clocks, Clock, Timed, calibration_of}
use cpp_autotime.Timing.Measuring.{Called, IsMeasured}

module _ {S : Type 0} (clocks : Clocks S) (timeslice : ℤ) where
  module _ (begin : Timed S) where
    -- The overhead of the clock is what it was at the beginning, where it was known, or it is measured.
    abbrev pub IsCalibrated : Clock → Timed S → Type 0
    IsCalibrated clock s =
        Called clocks timeslice clock s
        × ((Called clocks timeslice clock begin
              × ((calibration_of clock s).overhead ≡ (calibration_of clock begin).overhead))
            ⊎ IsMeasured clocks timeslice clock (calibration_of clock s).overhead)

    -- The clock is calibrated where it is called: it is not being measured.
    abbrev IsIdle : Clock → Timed S → Type 0
    IsIdle clock s = Called clocks timeslice clock s → IsCalibrated clock s
