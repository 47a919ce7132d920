-- ===== src/Backend/OpenVpn.antt =====
-- backend/openvpn: one server's users and sessions, and the listeners of a core.
pub mod Serial
pub mod Users
pub mod Sync
mod Sessions
mod Excess
mod Allowlist
mod Invariant
pub mod Subnet
mod Blocks
pub mod Listeners
mod Distinct
mod Endpoint
pub mod Mgmt
pub mod Group
mod AllOrNone
mod Stream
mod Dialog
mod Tests
