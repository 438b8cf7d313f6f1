-- ===== src/WalletGrpc.antt =====
-- walletGRPC
pub mod Messages
pub mod Client
pub mod Transfers
pub mod Transactions
pub mod Deprecated
pub mod Events
mod Tests
