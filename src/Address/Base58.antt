-- ===== src/Address/Base58.antt =====
-- address/base58.go, and the steps that every `Base58` and `FromBase58` shares. The package
-- mr-tron/base58 is a parameter: its two functions, and what is documented of them. A string is the
-- list of its bytes.
pub mod Parts
use go_tari_lib.Common.{
  ℕ, ◌<◌, ◌≡◌, Option, some, List, [], ◌∷◌, ◌++◌, ltb, if◌then◌else◌, length, take, drop, slice,
  get_or,
}
use go_tari_lib.Common.Result.{Result, ok, err, ◌>>=◌, some_or_fail}
use go_tari_lib.Address.Errors.{
  Error, invalid_character, cannot_recover_network, cannot_recover_feature,
  cannot_recover_public_key,
}
use go_tari_lib.Address.Dammsum.Detect.{IsBytes}

pub record Base58 : Type 0 where
  pub encode : List ℕ → List ℕ
  -- `none` is the error
  pub decode : List ℕ → Option (List ℕ)

-- Decoding inverts encoding, and a number below 58 is one digit.
pub record IsBase58 (c : Base58) : Type 0 where
  pub decode_encode : (bs : List ℕ) → IsBytes bs → c.decode (c.encode bs) ≡ some bs
  pub one_digit : (b : ℕ) → b < 58 → length (c.encode (b ∷ [])) ≡ 1

-- network, features, rest
unfoldable pub split_network_features_rest : List ℕ → Result Error (List ℕ × List ℕ × List ℕ)
split_network_features_rest s =
    if ltb (length s) 2
    then err invalid_character
    else (let first = take 2 s in ok (take 1 first, slice 1 2 first, drop 2 s))

module _ (c : Base58) where
  unfoldable pub encode_single_byte : ℕ → List ℕ
  encode_single_byte b = c.encode (b ∷ [])

  unfoldable pub decode_bytes : List ℕ → Option (List ℕ)
  decode_bytes s = c.decode s

  -- The three parts, each decoded with its own error, one after the other.
  unfoldable pub decode_parts : List ℕ → Result Error (List ℕ)
  unfolding split_network_features_rest decode_bytes
  decode_parts s = do
    (network, features, rest) ← split_network_features_rest s
    network_bytes ← some_or_fail (decode_bytes network) cannot_recover_network
    features_bytes ← some_or_fail (decode_bytes features) cannot_recover_feature
    rest_bytes ← some_or_fail (decode_bytes rest) cannot_recover_public_key
    ok ((network_bytes ++ features_bytes) ++ rest_bytes)

  -- The text of an address with these bytes, of which there are 35 at least.
  unfoldable pub encode_parts : List ℕ → List ℕ
  unfolding encode_single_byte
  encode_parts bytes =
      encode_single_byte (get_or bytes 0 0)
      ++ (encode_single_byte (get_or bytes 1 0) ++ c.encode (drop 2 bytes))
