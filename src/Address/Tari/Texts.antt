-- ===== src/Address/Tari/Texts.antt =====
-- The texts of an address are read back.
use go_tari_lib.Common.{ℕ, ◌≤◌, ◌≡◌, refl, ap, ◌∙◌, Bool, List, [], map, arith, length, length-map}
use go_tari_lib.Common.Result.{ok, ◌>>=◌}
use go_tari_lib.Stdlib.Hex.{decode-encode}
use go_tari_lib.Stdlib.Utf8.{runes, string_of_runes, runes-string}
use go_tari_lib.Address.Emoji.{emoji_at}
use go_tari_lib.Address.Base58.{Base58, IsBase58, decode_parts, encode_parts}
use go_tari_lib.Address.Base58.Parts.{decode-encode_parts}
use go_tari_lib.Address.Single.{single_emoji_to_bytes, single_bytes, single_emoji_string}
use go_tari_lib.Address.Single.Codec.{single_bytes-IsBytes, length-single_bytes}
use go_tari_lib.Address.Single.Texts.{emojis-IsRune, emoji_loop-emojis, network-lt}
use go_tari_lib.Address.Dual.{dual_emoji_to_bytes, dual_bytes, dual_emoji_string}
use go_tari_lib.Address.Dual.Codec.{dual_bytes-IsBytes, length-dual_bytes}
use go_tari_lib.Address.Tari.{
  Address, IsAddress, dual_valid, single_valid, bytes, emoji_to_bytes, emoji_string, address_hex,
  address_base58, from_bytes, from_emoji_string, from_hex, from_base58,
}
use go_tari_lib.Address.Tari.Codec.{bytes-IsBytes, from-bytes}

module _ (is_canonical : List ℕ → Bool) where
  -- Both kinds write the emoji of their bytes, and the number of emoji tells the kinds apart.
  pub emoji_string-bytes :
      (a : Address)
      → IsAddress is_canonical a
      → emoji_string a ≡ string_of_runes (map emoji_at (bytes a))
  unfolding emoji_string bytes single_emoji_string dual_emoji_string
  emoji_string-bytes a (single_valid s v) = refl
  emoji_string-bytes a (dual_valid d v) = refl

  emoji_to_bytes-emojis :
      (a : Address)
      → IsAddress is_canonical a
      → emoji_to_bytes (map emoji_at (bytes a)) ≡ ok (bytes a)
  unfolding emoji_to_bytes bytes single_emoji_to_bytes dual_emoji_to_bytes
  emoji_to_bytes-emojis a (single_valid s v) = ground (
    arith,
    length-map emoji_at (single_bytes s),
    length-single_bytes is_canonical s v,
    emoji_loop-emojis (single_bytes s) [] (single_bytes-IsBytes is_canonical s v),
  )
  emoji_to_bytes-emojis a (dual_valid d v) = ground (
    arith,
    length-map emoji_at (dual_bytes d),
    length-dual_bytes is_canonical d v,
    v.memo_fits,
    emoji_loop-emojis (dual_bytes d) [] (dual_bytes-IsBytes is_canonical d v),
  )

  module _ (a : Address) (v : IsAddress is_canonical a) where
    -- The emoji text of a valid address is read back to the address.
    pub from-emoji_string : from_emoji_string is_canonical (emoji_string a) ≡ ok a
    unfolding from_emoji_string
    from-emoji_string =
        ap (λ t. emoji_to_bytes (runes t) >>= from_bytes is_canonical) (emoji_string-bytes a v)
        ∙ ap (λ t. emoji_to_bytes t >>= from_bytes is_canonical)
            (runes-string _ (emojis-IsRune (bytes a) (bytes-IsBytes is_canonical a v)))
        ∙ ap (λ r. r >>= from_bytes is_canonical) (emoji_to_bytes-emojis a v)
        ∙ from-bytes is_canonical a v

    -- The hexadecimal text of a valid address is read back to the address.
    pub from-hex : from_hex is_canonical (address_hex a) ≡ ok a
    unfolding from_hex address_hex
    from-hex =
        rw (decode-encode (bytes a) (bytes-IsBytes is_canonical a v)) (from-bytes is_canonical a v)

  parts_read :
      (a : Address)
      → IsAddress is_canonical a
      → (c : Base58) → IsBase58 c
      → decode_parts c (encode_parts c (bytes a)) ≡ ok (bytes a)
  unfolding bytes
  parts_read a (single_valid s v) c laws =
      unfold single_bytes in
      decode-encode_parts c s.network s.features _ laws (network-lt s.network v.network_known)
        (omega (arith, v.features_known)) (single_bytes-IsBytes is_canonical s v).1.1
  parts_read a (dual_valid d v) c laws =
      unfold dual_bytes in
      decode-encode_parts c d.network d.features _ laws (network-lt d.network v.network_known)
        (omega (arith, v.features_known)) (dual_bytes-IsBytes is_canonical d v).1.1

  -- The base58 text of a valid address is read back to the address, for every base58 codec that inverts its
  -- encoding and writes a number below 58 as one digit, when the text has the 45 characters that are asked for.
  pub from-base58 :
      (a : Address) (c : Base58)
      → IsAddress is_canonical a
      → IsBase58 c
      → 45 ≤ length (address_base58 c a)
      → from_base58 is_canonical c (address_base58 c a) ≡ ok a
  unfolding from_base58 address_base58
  from-base58 a c v laws long = ground (arith, parts_read a v c laws, from-bytes is_canonical a v)
