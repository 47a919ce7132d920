-- ===== src/Controller.antt =====
-- controller: what the node's service does with the calls of the panel.
pub mod Chunks
mod Types
mod Node
mod Lifecycle
mod KeepAlive
mod Answers
mod OnlineIp
mod OnlineIps
mod Shaping
mod Service
mod Access
mod NodeTests
mod Chunked
mod Tests
