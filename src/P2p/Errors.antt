-- ===== src/P2p/Errors.antt =====
-- The failures of package `p2p`, told apart by where they begin; the text that is wrapped round them is
-- left out.
pub data Error : Type 0 where
  frame_too_long write_failed read_failed : Error
  encrypt_failed decrypt_failed : Error
  identity_too_long identity_frame_too_short unsupported_identity_version : Error
  declared_length_too_long declared_length_beyond_frame identity_undecodable : Error
  scalar_undecodable point_undecodable no_signature : Error
  private_key_length public_key_length no_randomness : Error
  context_done liveness_mode : Error
  handshake_not_started message_not_built message_refused handshake_incomplete : Error
  peer_key_length identity_not_marshalled : Error
  unsupported_multiaddr malformed_multiaddr invalid_ip invalid_port : Error
  onion_address_length invalid_base32 onion_hash_length : Error
