-- ===== src/Backend/WireGuard.antt =====
-- backend/wireguard: the store of peers, the synchronization of the users, and the device limit.
pub mod PeerStore
mod OneToOne
mod Replace
mod Sync
pub mod IpLimit
mod Kicks
mod Windows
mod Machine
mod Strikes
mod Tests
