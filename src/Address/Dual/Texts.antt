-- ===== src/Address/Dual/Texts.antt =====
-- The texts of a dual address are read back.
use go_tari_lib.Common.{ℕ, ◌≤◌, ◌≡◌, Bool, List, [], arith, length, length-map}
use go_tari_lib.Common.Result.{ok}
use go_tari_lib.Stdlib.Hex.{decode-encode}
use go_tari_lib.Stdlib.Utf8.{runes-string}
use go_tari_lib.Address.Emoji.{emoji_at}
use go_tari_lib.Address.Base58.{Base58, IsBase58, decode_parts, encode_parts}
use go_tari_lib.Address.Base58.Parts.{decode-encode_parts}
use go_tari_lib.Address.Dammsum.Detect.{IsBytes}
use go_tari_lib.Address.Single.Texts.{emojis-IsRune, emoji_loop-emojis, network-lt}
use go_tari_lib.Address.Dual.{
  DualAddress, IsValidDual, dual_emoji_to_bytes, dual_bytes, dual_emoji_string, dual_hex,
  dual_base58, dual_address_from_emoji_string, dual_address_from_hex, dual_address_from_base58,
}
use go_tari_lib.Address.Dual.Codec.{dual_bytes-IsBytes, length-dual_bytes, dual_from-bytes}

module _ (is_canonical : List ℕ → Bool) (a : DualAddress) (v : IsValidDual is_canonical a) where
  abbrev bytes-IsBytes : IsBytes (dual_bytes a)
  bytes-IsBytes = dual_bytes-IsBytes is_canonical a v

  -- The emoji text of a valid dual address is read back to the address.
  pub dual_from-emoji_string :
      dual_address_from_emoji_string is_canonical (dual_emoji_string a) ≡ ok a
  unfolding dual_address_from_emoji_string dual_emoji_to_bytes dual_emoji_string
  dual_from-emoji_string = rw (runes-string _ (emojis-IsRune (dual_bytes a) bytes-IsBytes)) (
      ground (
        arith,
        length-map emoji_at (dual_bytes a),
        length-dual_bytes is_canonical a v,
        v.memo_fits,
        emoji_loop-emojis (dual_bytes a) [] bytes-IsBytes,
        dual_from-bytes is_canonical a v,
      ))

  -- The hexadecimal text of a valid dual address is read back to the address.
  pub dual_from-hex : dual_address_from_hex is_canonical (dual_hex a) ≡ ok a
  unfolding dual_address_from_hex dual_hex
  dual_from-hex = rw (decode-encode (dual_bytes a) bytes-IsBytes) (dual_from-bytes is_canonical a v)

  -- The base58 text of a valid dual address is read back to the address, for every base58 codec that
  -- inverts its encoding and writes a number below 58 as one digit, when the text is 89 to 443 characters long.
  pub dual_from-base58 :
      (c : Base58)
      → IsBase58 c
      → 89 ≤ length (dual_base58 c a)
      → length (dual_base58 c a) ≤ 443
      → dual_address_from_base58 is_canonical c (dual_base58 c a) ≡ ok a
  unfolding dual_address_from_base58 dual_base58
  dual_from-base58 c laws lo hi = ground (arith, decoded, dual_from-bytes is_canonical a v)
    where
      decoded : decode_parts c (encode_parts c (dual_bytes a)) ≡ ok (dual_bytes a)
      decoded =
          unfold dual_bytes in
          decode-encode_parts c a.network a.features _ laws (network-lt a.network v.network_known)
            (omega (arith, v.features_known)) bytes-IsBytes.1.1
