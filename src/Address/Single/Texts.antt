-- ===== src/Address/Single/Texts.antt =====
-- The texts of a single address are read back.
use go_tari_lib.Common.{
  ℕ, ◌≤◌, ◌≡◌, sym, ap, Bool, List, [], ◌∷◌, ◌++◌, map, append-nil, append_assoc, arith, length,
  length-map, ◌<◌, All,
}
use go_tari_lib.Common.Result.{ok}
use go_tari_lib.Stdlib.Hex.{decode-encode}
use go_tari_lib.Stdlib.Utf8.{IsRune, runes-string}
use go_tari_lib.Address.Network.{IsNetwork}
use go_tari_lib.Address.Emoji.{emoji_at, reverse-emoji_at, emoji_at-IsRune}
use go_tari_lib.Address.Base58.{Base58, IsBase58, decode_parts, encode_parts}
use go_tari_lib.Address.Base58.Parts.{decode-encode_parts}
use go_tari_lib.Address.Dammsum.Detect.{IsBytes}
use go_tari_lib.Address.Single.{
  SingleAddress, IsValidSingle, emoji_loop, single_emoji_to_bytes, single_bytes,
  single_emoji_string, single_hex, single_base58, single_address_from_emoji_string,
  single_address_from_hex, single_address_from_base58,
}
use go_tari_lib.Address.Single.Codec.{single_bytes-IsBytes, length-single_bytes, single_from-bytes}

pub emojis-IsRune : (bs : List ℕ) → IsBytes bs → All IsRune (map emoji_at bs)
emojis-IsRune [] h = tt
emojis-IsRune (b ∷ bs) (hb, h) = (emoji_at-IsRune b hb, emojis-IsRune bs h)

pub emoji_loop-emojis :
    (bs out : List ℕ) → IsBytes bs → emoji_loop (map emoji_at bs) out ≡ ok (out ++ bs)
unfolding emoji_loop
emoji_loop-emojis [] out h = ap ok (sym (append-nil out))
emoji_loop-emojis (b ∷ bs) out (hb, h) = ground (
  arith,
  reverse-emoji_at b hb,
  emoji_loop-emojis bs (out ++ (b ∷ [])) h,
  append_assoc out (b ∷ []) bs,
)

pub network-lt : (n : ℕ) → IsNetwork n → n < 58
network-lt n h = ground arith

module _ (is_canonical : List ℕ → Bool) (a : SingleAddress) (v : IsValidSingle is_canonical a) where
  abbrev bytes-IsBytes : IsBytes (single_bytes a)
  bytes-IsBytes = single_bytes-IsBytes is_canonical a v

  -- The emoji text of a valid single address is read back to the address.
  pub single_from-emoji_string :
      single_address_from_emoji_string is_canonical (single_emoji_string a) ≡ ok a
  unfolding single_address_from_emoji_string single_emoji_to_bytes single_emoji_string
  single_from-emoji_string = rw (runes-string _ (emojis-IsRune (single_bytes a) bytes-IsBytes)) (
      ground (
        arith,
        length-map emoji_at (single_bytes a),
        length-single_bytes is_canonical a v,
        emoji_loop-emojis (single_bytes a) [] bytes-IsBytes,
        single_from-bytes is_canonical a v,
      ))

  -- The hexadecimal text of a valid single address is read back to the address.
  pub single_from-hex : single_address_from_hex is_canonical (single_hex a) ≡ ok a
  unfolding single_address_from_hex single_hex
  single_from-hex =
      rw (decode-encode (single_bytes a) bytes-IsBytes) (single_from-bytes is_canonical a v)

  -- The base58 text of a valid single address is read back to the address, for every base58 codec that
  -- inverts its encoding and writes a number below 58 as one digit, when the text is 45 to 48 characters long.
  pub single_from-base58 :
      (c : Base58)
      → IsBase58 c
      → 45 ≤ length (single_base58 c a)
      → length (single_base58 c a) ≤ 48
      → single_address_from_base58 is_canonical c (single_base58 c a) ≡ ok a
  unfolding single_address_from_base58 single_base58
  single_from-base58 c laws lo hi = ground (arith, decoded, single_from-bytes is_canonical a v)
    where
      decoded : decode_parts c (encode_parts c (single_bytes a)) ≡ ok (single_bytes a)
      decoded =
          unfold single_bytes in
          decode-encode_parts c a.network a.features _ laws (network-lt a.network v.network_known)
            (omega (arith, v.features_known)) bytes-IsBytes.1.1
