-- ===== src/Stats.antt =====
-- pkg/stats: the per-peer traffic tracker and the interface counters.
pub mod Delta
pub mod Entry
pub mod Tracker
pub mod Accounting
pub mod History
pub mod Calls
pub mod Shape
pub mod AllUsers
pub mod Conservation
pub mod Online
pub mod Interface
mod Tests
