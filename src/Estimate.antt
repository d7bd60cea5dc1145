-- ===== src/Estimate.antt =====
-- `Estimate` (lib/estimate.cpp) and `AutoTime` (lib/autotime.cpp). A timer may keep state of its
-- own, so a call of one passes a state on; the loops are recursions on fuel.
mod Defs
pub mod Ramp
pub mod Refine
pub mod Safe
pub mod Contract
pub mod Linear
pub mod Threshold
pub mod Faults
mod Tests
unfoldable pub use Defs.*
