-- ===== src/Backend/WireGuard/Sync.antt =====
-- backend/wireguard/user.go, user_common.go, user_full_sync.go and user_partial_sync.go: how the panel's
-- users become the peers of the interface.
mod Desired
mod Diff
mod UserSync
mod Claims
mod Collect
mod Intended
mod DiffExact
mod Owners
mod Target
mod DiffLists
mod Stored
mod FullSync
mod Touched
mod PartialSync
mod UntouchedUsers
mod WellFormed
mod Calls
mod Tests
