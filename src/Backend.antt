-- ===== src/Backend.antt =====
-- backend: what the node's VPN backends share, and the backends themselves.
pub mod DeviceLimit
pub mod RateLimit
pub mod Composite
pub mod OpenVpn
pub mod WireGuard
mod L2tp
mod Xray
