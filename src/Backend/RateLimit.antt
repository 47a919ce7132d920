-- ===== src/Backend/RateLimit.antt =====
-- backend/ratelimit: the speed limits of single clients by firewall marks and tc classes. The
-- commands that the manager runs are given by a Runner: whether each succeeds is up to the host.
pub mod Marks
pub mod Values
pub mod MarkLaws
pub mod Classes
pub mod Apply
pub mod Commands
pub mod Reconcile
pub mod Capacity
pub mod Exact
mod Tests
