-- ===== src/P2p/Rpc.antt =====
-- p2p/rpc
pub mod Errors
pub mod CanonicalFrame
pub mod NegotiationFrame
pub mod StreamTransport
pub mod Negotiation
pub mod Messages
pub mod Handshake
pub mod GetPeers
pub mod ServeGetPeers
pub mod Exchange
pub mod ChainMetadata
