-- ===== src/Tests.antt =====
-- Tests: concrete runs of the definitions.
pub mod Memory
pub mod Rows
pub mod Accounts
pub mod Chains
pub mod Disk
pub mod Engine
pub mod Rounds
pub mod Transfers
pub mod Signing
pub mod Slots
pub mod Bank
