-- ===== src/Backend/Xray.antt =====
-- backend/xray: the accounts of the users and the client lists of the inbounds.
mod Accounts
mod Inbounds
mod Password
mod Clients
mod OneByOne
mod Batch
mod Limits
mod Turn
mod Kicked
mod Tests
