-- ===== src/Address/Single.antt =====
-- address/single_address.go
pub mod Codec
pub mod Texts
use go_tari_lib.Common.{
  ℕ, ◌<◌, ◌≡◌, Bool, true, not, ◌||◌, none, some, List, [], ◌∷◌, ◌++◌, ltb, ◌==◌, map,
  if◌then◌else◌, length, slice, get_or,
}
use go_tari_lib.Common.Result.{Result, ok, err, ◌>>=◌, or_fail, some_or_fail}
use go_tari_lib.Stdlib.Hex.{encode_to_string, decode_string}
use go_tari_lib.Stdlib.Utf8.{runes, string_of_runes}
use go_tari_lib.Address.Errors.{
  Error, invalid_size, invalid_checksum, invalid_network, invalid_features, invalid_emoji,
  cannot_recover_public_key,
}
use go_tari_lib.Address.Network.{network_as_byte, network_from_byte, IsNetwork}
use go_tari_lib.Address.Features.{features_interactive_only, features_from_bits, as_u8}
use go_tari_lib.Address.Pubkey.{IsKey, public_key_from_canonical_bytes}
use go_tari_lib.Address.Emoji.{emoji_at, reverse_emoji}
use go_tari_lib.Address.Base58.{Base58, decode_parts, encode_parts}
use go_tari_lib.Address.Dammsum.{compute_checksum, validate_checksum}

abbrev pub single_address_internal_size : ℕ
single_address_internal_size = 35

abbrev pub single_base58_min_size : ℕ
single_base58_min_size = 45

abbrev pub single_base58_max_size : ℕ
single_base58_max_size = 48

pub record SingleAddress : Type 0 where
  pub network : ℕ
  pub features : ℕ
  pub public_spend_key : List ℕ

abbrev pub new_single_address : List ℕ → ℕ → ℕ → SingleAddress
new_single_address spend_key network features = record {
  network = network;
  features = features;
  public_spend_key = spend_key;
}

abbrev pub new_single_address_interactive_only : List ℕ → ℕ → SingleAddress
new_single_address_interactive_only spend_key network =
    new_single_address spend_key network features_interactive_only

-- The loop over the code points that `singleEmojiToBytes` and `dualEmojiToBytes` share; it ends at the
-- first one that is no emoji of the dictionary.
unfoldable pub emoji_loop : List ℕ → List ℕ → Result Error (List ℕ)
emoji_loop [] bytes = ok bytes
emoji_loop (c ∷ cs) bytes = elim (reverse_emoji c) [
  | none ↦ err invalid_emoji
  | some b ↦ emoji_loop cs (bytes ++ (b ∷ []))
]

unfoldable pub single_emoji_to_bytes : List ℕ → Result Error (List ℕ)
single_emoji_to_bytes emoji =
    if not (length emoji == single_address_internal_size)
    then err invalid_size
    else emoji_loop emoji []

-- The first 34 bytes, which the checksum is over.
abbrev pub single_payload : SingleAddress → List ℕ
single_payload a = network_as_byte a.network ∷ as_u8 a.features ∷ a.public_spend_key

unfoldable pub single_bytes : SingleAddress → List ℕ
single_bytes a = single_payload a ++ (compute_checksum (single_payload a) ∷ [])

unfoldable pub single_emoji_string : SingleAddress → List ℕ
single_emoji_string a = string_of_runes (map emoji_at (single_bytes a))

unfoldable pub single_hex : SingleAddress → List ℕ
single_hex a = encode_to_string (single_bytes a)

unfoldable pub single_base58 : Base58 → SingleAddress → List ℕ
single_base58 c a = encode_parts c (single_bytes a)

module _ (is_canonical : List ℕ → Bool) where
  unfoldable pub single_address_from_bytes : List ℕ → Result Error SingleAddress
  single_address_from_bytes b =
      if not (length b == single_address_internal_size) then err invalid_size else (do
        checked ← or_fail (validate_checksum b) invalid_checksum
        network ← or_fail (network_from_byte (get_or b 0 0)) invalid_network
        features ← some_or_fail (features_from_bits (get_or b 1 0)) invalid_features
        spend_key ←
            or_fail (public_key_from_canonical_bytes is_canonical (slice 2 34 b))
              cannot_recover_public_key
        ok (record { network = network; features = features; public_spend_key = spend_key }))

  unfoldable pub single_address_from_emoji_string : List ℕ → Result Error SingleAddress
  single_address_from_emoji_string emoji = do
    bytes ← single_emoji_to_bytes (runes emoji)
    single_address_from_bytes bytes

  unfoldable pub single_address_from_hex : List ℕ → Result Error SingleAddress
  single_address_from_hex s = do
    buf ← some_or_fail (decode_string s) cannot_recover_public_key
    single_address_from_bytes buf

  unfoldable pub single_address_from_base58 : Base58 → List ℕ → Result Error SingleAddress
  single_address_from_base58 c s =
      if ltb (length s) single_base58_min_size || ltb single_base58_max_size (length s)
      then err invalid_size
      else (do result ← decode_parts c s; single_address_from_bytes result)

  -- An address with one of the six networks, known features and a canonical key.
  pub record IsValidSingle (a : SingleAddress) : Type 0 where
    pub network_known : IsNetwork a.network
    pub features_known : a.features < 8
    pub key : IsKey a.public_spend_key
    pub key_canonical : is_canonical a.public_spend_key ≡ true
