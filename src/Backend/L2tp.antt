-- ===== src/Backend/L2tp.antt =====
-- backend/l2tp: the users, the polls of the PPP sessions, and the device limit.
mod Users
mod Sessions
mod Poll
mod Allowed
mod Oldest
mod Growth
mod Tests
