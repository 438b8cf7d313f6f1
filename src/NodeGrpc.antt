-- ===== src/NodeGrpc.antt =====
-- nodeGRPC
pub mod Messages
pub mod Client
pub mod Streams
pub mod Deprecated
mod Tests
