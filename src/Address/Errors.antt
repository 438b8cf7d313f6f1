-- ===== src/Address/Errors.antt =====
-- address/errors.go
use go_tari_lib.Common.{ℕ, List}

-- The sentinels, and `creationError` with its message.
pub data Error : Type 0 where
  invalid_size invalid_network invalid_features invalid_checksum invalid_emoji : Error
  invalid_character cannot_recover_public_key cannot_recover_network : Error
  cannot_recover_feature invalid_address_string : Error
  payment_id_too_large payment_id_not_supported : Error
  -- the bytes of the message
  creation_error : List ℕ → Error
