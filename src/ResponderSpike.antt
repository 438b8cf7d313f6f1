-- ===== src/ResponderSpike.antt =====
-- cmd/p2p-responder-spike
pub mod Errors
pub mod PeerStore
pub mod Addresses
pub mod KeyFile
mod Tests
