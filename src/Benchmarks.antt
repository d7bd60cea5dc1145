-- ===== src/Benchmarks.antt =====
-- The benchmarks and their categories, after bench/list.hpp and bench/list.cpp.
pub mod Defs
pub mod Names
mod Sections
pub mod Category
mod Map
pub mod Maps
pub mod Membership
pub mod Groups
pub mod Spec
pub mod Enum
pub mod RoundTrip
mod Tests
