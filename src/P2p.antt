-- ===== src/P2p.antt =====
-- p2p
pub mod Errors
pub mod Frame
pub mod Session
pub mod Handshake
pub mod YamuxAdapter
pub mod Hashing
pub mod Ristretto
pub mod RistrettoDh
pub mod Multiaddr
pub mod Identity
pub mod IdentitySignature
pub mod IdentityExchange
pub mod Responder
pub mod Socks
pub mod Rpc
mod Tests
