-- ===== src/Address.antt =====
-- The package `address`: Tari addresses and their encodings.
pub mod Errors
pub mod Network
pub mod Features
pub mod Emoji
pub mod Pubkey
pub mod Base58
pub mod Single
pub mod Dual
pub mod Tari
pub mod Dammsum
mod Tests
