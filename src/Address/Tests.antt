-- ===== src/Address/Tests.antt =====
-- The theorems on addresses at concrete inputs. Every 32 bytes count as a canonical key here.
mod Parse
use go_tari_lib.Common.{
  ℕ, ◌+◌, ◌≤◌, ◌≡◌, refl, ◌↔◌, inr, Bool, true, false, Option, some, List, [], ◌∷◌, arith, length,
  drop,
}
use go_tari_lib.Common.Result.{ok, err}
use go_tari_lib.Stdlib.Hex.{encode_to_string, decode_string, decode-encode}
use go_tari_lib.Stdlib.Text.{codes, to_lower, ◌===◌}
use go_tari_lib.Address.Errors.{invalid_checksum}
use go_tari_lib.Address.Network.{network_from_string}
use go_tari_lib.Address.Network.Names.{IsNetworkKey, network_from_string_iff}
use go_tari_lib.Address.Features.{contains, combine, feature_payment_id}
use go_tari_lib.Address.Base58.{Base58, IsBase58, encode_parts}
use go_tari_lib.Address.Dammsum.{double, checksum_loop, compute_checksum, validate_checksum}
use go_tari_lib.Address.Dammsum.Detect.{IsBytes}
use go_tari_lib.Address.Single.{SingleAddress, IsValidSingle, single_bytes}
use go_tari_lib.Address.Dual.{DualAddress, IsValidDual, new_dual_address, dual_bytes, dual_base58}
use go_tari_lib.Address.Tari.{
  Address, IsAddress, dual_valid, single_valid, of_dual, of_single, zero_key, bytes, from_bytes,
  emoji_string, address_base58, from_emoji_string, from_base58, get_size, combine_addresses,
  new_dual,
}
use go_tari_lib.Address.Dual.Memo.{IsAnnounced}
use go_tari_lib.Address.Tari.Codec.{
  from_bytes_iff, from_bytes_substitution, from_bytes_transposition,
}
use go_tari_lib.Address.Tari.Texts.{from-emoji_string, from-base58}
use go_tari_lib.Address.Tari.Combine.{MadeOf, combine_addresses_made}
use go_tari_lib.Address.Tari.Size.{get_size_unannounced}

abbrev any_key : List ℕ → Bool
any_key k = true

abbrev any_single : SingleAddress
any_single = record { network = 0x26; features = 1; public_spend_key = zero_key }

any_single-IsValidSingle : IsValidSingle any_key any_single
any_single-IsValidSingle = record {
  network_known = inr (inr (inr (inr (inr refl))));
  features_known = omega arith;
  key = (refl, omega arith);
  key_canonical = refl;
}

abbrev any_dual : DualAddress
any_dual = record {
  network = 0x26;
  features = 2;
  public_view_key = zero_key;
  public_spend_key = zero_key;
  memo_field_payment_id = 7 ∷ 9 ∷ [];
}

any_dual-IsValidDual : IsValidDual any_key any_dual
any_dual-IsValidDual = record {
  network_known = inr (inr (inr (inr (inr refl))));
  features_known = omega arith;
  view_key = (refl, omega arith);
  view_canonical = refl;
  spend_key = (refl, omega arith);
  spend_canonical = refl;
  memo_fits = omega arith;
  memo_bytes = omega arith;
}

dual_bytes-IsBytes_any : IsBytes (dual_bytes any_dual)
unfolding dual_bytes compute_checksum checksum_loop double
dual_bytes-IsBytes_any = omega arith

abbrev any_address : Address
any_address = of_dual any_dual

any_address-IsAddress : IsAddress any_key any_address
any_address-IsAddress = dual_valid any_dual any_dual-IsValidDual

bytes-IsBytes_any : IsBytes (bytes any_address)
unfolding bytes
bytes-IsBytes_any = dual_bytes-IsBytes_any

from_bytes_iff_example :
    (from_bytes any_key (bytes any_address) ≡ ok any_address)
    ↔ (IsAddress any_key any_address × (bytes any_address ≡ bytes any_address))
from_bytes_iff_example = from_bytes_iff any_key (bytes any_address) any_address bytes-IsBytes_any

abbrev after_first : List ℕ
after_first = drop 1 (bytes any_address)

abbrev after_second : List ℕ
after_second = drop 2 (bytes any_address)

bytes_split :
    (bytes any_address ≡ 0x26 ∷ after_first) × (bytes any_address ≡ 0x26 ∷ 2 ∷ after_second)
unfolding bytes dual_bytes
bytes_split = (refl, refl)

from_bytes_substitution_example : from_bytes any_key (0x24 ∷ after_first) ≡ err invalid_checksum
from_bytes_substitution_example =
    from_bytes_substitution any_key any_address [] any_address-IsAddress 0x26 0x24 after_first
      bytes_split.0 (omega arith) (omega arith)

from_bytes_transposition_example :
    from_bytes any_key (2 ∷ 0x26 ∷ after_second) ≡ err invalid_checksum
from_bytes_transposition_example =
    from_bytes_transposition any_key any_address [] any_address-IsAddress 0x26 2 after_second
      bytes_split.1 (omega arith)

abbrev any_single_address : Address
any_single_address = of_single any_single

any_single_address-IsAddress : IsAddress any_key any_single_address
any_single_address-IsAddress = single_valid any_single any_single-IsValidSingle

abbrev both : Address
both = of_dual (record any_dual { features = 3; memo_field_payment_id = [] })

combine_addresses_any : combine_addresses any_address any_single_address ≡ ok both
unfolding combine_addresses new_dual new_dual_address ◌===◌ combine
combine_addresses_any = refl

combine_addresses_made_example : IsAddress any_key both × MadeOf any_address any_single_address both
combine_addresses_made_example =
    combine_addresses_made any_key any_address any_single_address both any_address-IsAddress
      any_single_address-IsAddress combine_addresses_any

unflagged : contains 2 feature_payment_id ≡ false
unfolding contains
unflagged = refl

get_size_unannounced_example :
    (from_bytes any_key (bytes (of_dual any_dual)) ≡ ok (of_dual any_dual))
    × (get_size (of_dual any_dual) + 2 ≡ length (bytes (of_dual any_dual)))
get_size_unannounced_example = get_size_unannounced any_key any_dual any_dual-IsValidDual unflagged
