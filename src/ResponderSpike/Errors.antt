-- ===== src/ResponderSpike/Errors.antt =====
-- The failures of cmd/p2p-responder-spike before it serves.
pub data StartupError : Type 0 where
  no_address bad_public_tcp_addr bad_onion3_addr : StartupError
  key_file_size_wrong key_file_unreadable key_file_not_saved no_fresh_keypair : StartupError
