-- ===== src/Address/Tests/Parse.antt =====
-- `Parse` on the emoji of an address, with a bar in front and a blank on either side. The base58 codec
-- writes hexadecimal digits here.
use go_tari_lib.Common.{ℕ, ◌≡◌, refl, arith, List, [], ◌∷◌, ◌++◌, map}
use go_tari_lib.Common.Result.{ok}
use go_tari_lib.Stdlib.Hex.{encode_to_string, decode_string, decode_string-IsByte}
use go_tari_lib.Stdlib.Utf8.{string_of_runes}
use go_tari_lib.Stdlib.Trim.{remove, is_space}
use go_tari_lib.Stdlib.Trim.Runes.{IsPad}
use go_tari_lib.Address.Emoji.{emoji_at}
use go_tari_lib.Address.Base58.{Base58}
use go_tari_lib.Address.Dual.{dual_bytes}
use go_tari_lib.Address.Dammsum.{double, checksum_loop, compute_checksum}
use go_tari_lib.Address.Tari.{IsAddress, bytes, parse}
use go_tari_lib.Address.Tari.Parse.{parse-emoji_string}
use go_tari_lib.Address.Tari.Accepted.{parse-IsAddress}
use go_tari_lib.Address.Tests.{any_key, any_address, any_address-IsAddress}

abbrev hex_codec : Base58
hex_codec = record { encode = encode_to_string; decode = decode_string }

abbrev barred : List ℕ
barred = b'|' ∷ map emoji_at (bytes any_address)

abbrev blank : List ℕ
blank = 32 ∷ []

one_bar : remove b'|' barred ≡ map emoji_at (bytes any_address)
unfolding remove emoji_at bytes dual_bytes compute_checksum checksum_loop double
one_bar = refl

blank-IsPad : IsPad 32
unfolding is_space
blank-IsPad = (omega arith, refl)

parse-emoji_string_example :
    parse any_key hex_codec (blank ++ (string_of_runes barred ++ blank)) ≡ ok any_address
parse-emoji_string_example =
    parse-emoji_string any_key hex_codec any_address any_address-IsAddress blank blank barred
      (blank-IsPad, tt) (blank-IsPad, tt) one_bar

parse-IsAddress_example : IsAddress any_key any_address
parse-IsAddress_example =
    parse-IsAddress any_key any_address hex_codec decode_string-IsByte
      (blank ++ (string_of_runes barred ++ blank))
      (parse-emoji_string any_key hex_codec any_address any_address-IsAddress blank blank barred
        (blank-IsPad, tt) (blank-IsPad, tt) one_bar)
