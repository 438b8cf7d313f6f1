-- ===== src/Address/Dual.antt =====
-- address/dual_address.go
pub mod Codec
pub mod Texts
pub mod Memo
use go_tari_lib.Common.{
  ℕ, ◌+◌, ◌-◌, ◌<◌, ◌≤◌, ◌≡◌, Bool, true, ◌||◌, Option, none, some, List, [], ◌∷◌, ◌++◌, ltb, map,
  if◌then◌else◌, length, slice, get_or,
}
use go_tari_lib.Common.Result.{Result, ok, err, ◌>>=◌, or_fail, some_or_fail}
use go_tari_lib.Stdlib.Hex.{encode_to_string, decode_string}
use go_tari_lib.Stdlib.Utf8.{runes, string_of_runes}
use go_tari_lib.Address.Errors.{
  Error, invalid_size, invalid_checksum, invalid_network, invalid_features,
  cannot_recover_public_key, payment_id_too_large,
}
use go_tari_lib.Address.Network.{network_as_byte, network_from_byte, IsNetwork}
use go_tari_lib.Address.Features.{
  feature_payment_id, default_features, features_from_bits, as_u8, combine,
}
use go_tari_lib.Address.Pubkey.{IsKey, public_key_from_canonical_bytes}
use go_tari_lib.Address.Emoji.{emoji_at}
use go_tari_lib.Address.Base58.{Base58, decode_parts, encode_parts}
use go_tari_lib.Address.Dammsum.{compute_checksum, validate_checksum}
use go_tari_lib.Address.Dammsum.Detect.{IsBytes}
use go_tari_lib.Address.Single.{emoji_loop}

abbrev pub dual_address_internal_size : ℕ
dual_address_internal_size = 67

abbrev pub max_encrypted_data_size : ℕ
max_encrypted_data_size = 256

abbrev pub dual_base58_min_size : ℕ
dual_base58_min_size = 89

abbrev pub dual_base58_max_size : ℕ
dual_base58_max_size = 443

pub record DualAddress : Type 0 where
  pub network : ℕ
  pub features : ℕ
  pub public_view_key : List ℕ
  pub public_spend_key : List ℕ
  pub memo_field_payment_id : List ℕ

-- A nil payment id is `none`; an empty one that is not nil sets the feature bit too.
unfoldable pub new_dual_address :
    List ℕ → List ℕ → ℕ → ℕ → Option (List ℕ) → Result Error DualAddress
new_dual_address view_key spend_key network features none = ok (record {
  network = network;
  features = features;
  public_view_key = view_key;
  public_spend_key = spend_key;
  memo_field_payment_id = [];
})
new_dual_address view_key spend_key network features (some memo) =
    if ltb max_encrypted_data_size (length memo)
    then err payment_id_too_large
    else ok (record {
      network = network;
      features = combine features feature_payment_id;
      public_view_key = view_key;
      public_spend_key = spend_key;
      memo_field_payment_id = memo;
    })

abbrev pub new_dual_address_with_default_features : List ℕ → List ℕ → ℕ → Result Error DualAddress
new_dual_address_with_default_features view_key spend_key network =
    new_dual_address view_key spend_key network default_features none

-- The address that the method leaves; after an error it is the one before.
unfoldable pub add_memo_field_payment_id : DualAddress → List ℕ → Result Error DualAddress
add_memo_field_payment_id a bytes =
    if ltb max_encrypted_data_size (length bytes)
    then err payment_id_too_large
    else ok (record a {
      features = combine a.features feature_payment_id;
      memo_field_payment_id = bytes;
    })

abbrev pub get_memo_field_payment_id_bytes : DualAddress → List ℕ
get_memo_field_payment_id_bytes a = a.memo_field_payment_id

unfoldable pub dual_emoji_to_bytes : List ℕ → Result Error (List ℕ)
dual_emoji_to_bytes emoji =
    if ltb (length emoji) dual_address_internal_size
      || ltb (dual_address_internal_size + max_encrypted_data_size) (length emoji)
    then err invalid_size
    else emoji_loop emoji []

-- Everything but the checksum at the end.
abbrev pub dual_payload : DualAddress → List ℕ
dual_payload a =
    network_as_byte a.network
    ∷ as_u8 a.features
    ∷ (a.public_view_key ++ (a.public_spend_key ++ a.memo_field_payment_id))

unfoldable pub dual_bytes : DualAddress → List ℕ
dual_bytes a = dual_payload a ++ (compute_checksum (dual_payload a) ∷ [])

unfoldable pub dual_emoji_string : DualAddress → List ℕ
dual_emoji_string a = string_of_runes (map emoji_at (dual_bytes a))

unfoldable pub dual_hex : DualAddress → List ℕ
dual_hex a = encode_to_string (dual_bytes a)

unfoldable pub dual_base58 : Base58 → DualAddress → List ℕ
dual_base58 c a = encode_parts c (dual_bytes a)

module _ (is_canonical : List ℕ → Bool) where
  unfoldable pub dual_address_from_bytes : List ℕ → Result Error DualAddress
  dual_address_from_bytes b =
      if ltb (length b) dual_address_internal_size
        || ltb (dual_address_internal_size + max_encrypted_data_size) (length b)
      then err invalid_size
      else (do
        checked ← or_fail (validate_checksum b) invalid_checksum
        network ← or_fail (network_from_byte (get_or b 0 0)) invalid_network
        features ← some_or_fail (features_from_bits (get_or b 1 0)) invalid_features
        view_key ←
            or_fail (public_key_from_canonical_bytes is_canonical (slice 2 34 b))
              cannot_recover_public_key
        spend_key ←
            or_fail (public_key_from_canonical_bytes is_canonical (slice 34 66 b))
              cannot_recover_public_key
        ok (record {
          network = network;
          features = features;
          public_view_key = view_key;
          public_spend_key = spend_key;
          memo_field_payment_id = slice 66 (length b - 1) b;
        }))

  unfoldable pub dual_address_from_emoji_string : List ℕ → Result Error DualAddress
  dual_address_from_emoji_string emoji = do
    bytes ← dual_emoji_to_bytes (runes emoji)
    dual_address_from_bytes bytes

  unfoldable pub dual_address_from_hex : List ℕ → Result Error DualAddress
  dual_address_from_hex s = do
    buf ← some_or_fail (decode_string s) cannot_recover_public_key
    dual_address_from_bytes buf

  unfoldable pub dual_address_from_base58 : Base58 → List ℕ → Result Error DualAddress
  dual_address_from_base58 c s =
      if ltb (length s) dual_base58_min_size || ltb dual_base58_max_size (length s)
      then err invalid_size
      else (do result ← decode_parts c s; dual_address_from_bytes result)

  -- An address with one of the six networks, known features, canonical keys and a payment id that fits.
  pub record IsValidDual (a : DualAddress) : Type 0 where
    pub network_known : IsNetwork a.network
    pub features_known : a.features < 8
    pub view_key : IsKey a.public_view_key
    pub view_canonical : is_canonical a.public_view_key ≡ true
    pub spend_key : IsKey a.public_spend_key
    pub spend_canonical : is_canonical a.public_spend_key ≡ true
    pub memo_fits : length a.memo_field_payment_id ≤ max_encrypted_data_size
    pub memo_bytes : IsBytes a.memo_field_payment_id
