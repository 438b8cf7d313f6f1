-- ===== src/Address/Tari.antt =====
-- address/address.go: the tagged union of a dual and a single address.
pub mod Codec
pub mod Texts
pub mod Size
pub mod Combine
pub mod Memo
pub mod Parse
pub mod Accepted
use go_tari_lib.Common.{
  ℕ, ◌+◌, ◌-◌, ◌≡◌, Bool, true, false, not, ◌&&◌, ◌||◌, Option, none, some, List, [], ◌∷◌, ◌++◌,
  ltb, leb, ◌==◌, if◌then◌else◌, length, get_or,
}
use go_tari_lib.Common.Result.{Result, ok, err, ◌>>=◌, or_fail, some_or_fail}
use go_tari_lib.Stdlib.Hex.{encode_to_string, decode_string}
use go_tari_lib.Stdlib.Utf8.{runes}
use go_tari_lib.Stdlib.Trim.{remove, trim_space}
use go_tari_lib.Stdlib.Text.{codes, ◌===◌}
use go_tari_lib.Address.Errors.{
  Error, invalid_size, cannot_recover_public_key, payment_id_not_supported, creation_error,
  invalid_address_string,
}
use go_tari_lib.Address.Features.{feature_payment_id, contains, combine}
use go_tari_lib.Address.Base58.{Base58, decode_parts, encode_parts}
use go_tari_lib.Address.Single.{
  SingleAddress, IsValidSingle, single_address_internal_size, single_emoji_to_bytes, single_bytes,
  single_emoji_string, single_address_from_bytes, new_single_address,
  new_single_address_interactive_only,
}
use go_tari_lib.Address.Dual.{
  DualAddress, IsValidDual, dual_address_internal_size, max_encrypted_data_size,
  dual_emoji_to_bytes, dual_bytes, dual_emoji_string, dual_address_from_bytes, new_dual_address,
  new_dual_address_with_default_features, add_memo_field_payment_id,
  get_memo_field_payment_id_bytes,
}

abbrev pub internal_single_min_base58_size : ℕ
internal_single_min_base58_size = 45

pub data Kind : Type 0 where
  kind_dual kind_single : Kind

-- The struct has all three fields; the one that `kind` does not name is the zero value.
pub record Address : Type 0 where
  pub kind : Kind
  pub dual : DualAddress
  pub single : SingleAddress

-- 32 zero bytes
abbrev pub zero_key : List ℕ
zero_key =
    0 ∷ 0 ∷ 0 ∷ 0 ∷ 0 ∷ 0 ∷ 0 ∷ 0 ∷ 0 ∷ 0 ∷ 0 ∷ 0 ∷ 0 ∷ 0 ∷ 0 ∷ 0 ∷ 0 ∷ 0 ∷ 0 ∷ 0 ∷ 0 ∷ 0 ∷ 0 ∷ 0
    ∷ 0 ∷ 0 ∷ 0 ∷ 0 ∷ 0 ∷ 0 ∷ 0 ∷ 0 ∷ []

abbrev pub zero_single : SingleAddress
zero_single = record { network = 0; features = 0; public_spend_key = zero_key }

abbrev pub zero_dual : DualAddress
zero_dual = record {
  network = 0;
  features = 0;
  public_view_key = zero_key;
  public_spend_key = zero_key;
  memo_field_payment_id = [];
}

abbrev pub of_dual : DualAddress → Address
of_dual d = record { kind = kind_dual; dual = d; single = zero_single }

abbrev pub of_single : SingleAddress → Address
of_single s = record { kind = kind_single; dual = zero_dual; single = s }

abbrev is_dual : Address → Bool
is_dual a = elim a.kind [ kind_dual ↦ true | kind_single ↦ false ]

-- The value and the flag that comes with it.
abbrev pub as_dual : Address → DualAddress × Bool
as_dual a = (a.dual, is_dual a)

abbrev pub as_single : Address → SingleAddress × Bool
as_single a = (a.single, not (is_dual a))

unfoldable pub new_dual : List ℕ → List ℕ → ℕ → ℕ → Option (List ℕ) → Result Error Address
new_dual view_key spend_key network features memo = do
  d ← new_dual_address view_key spend_key network features memo
  ok (of_dual d)

unfoldable pub new_single : List ℕ → ℕ → ℕ → Address
new_single spend_key network features = of_single (new_single_address spend_key network features)

unfoldable pub new_dual_with_default_features : List ℕ → List ℕ → ℕ → Result Error Address
new_dual_with_default_features view_key spend_key network = do
  d ← new_dual_address_with_default_features view_key spend_key network
  ok (of_dual d)

unfoldable pub new_single_interactive_only : List ℕ → ℕ → Address
new_single_interactive_only spend_key network =
    of_single (new_single_address_interactive_only spend_key network)

abbrev pub network : Address → ℕ
network a = if is_dual a then a.dual.network else a.single.network

abbrev pub features : Address → ℕ
features a = if is_dual a then a.dual.features else a.single.features

abbrev pub public_view_key : Address → List ℕ × Bool
public_view_key a = if is_dual a then (a.dual.public_view_key, true) else (zero_key, false)

abbrev pub public_spend_key : Address → List ℕ
public_spend_key a = if is_dual a then a.dual.public_spend_key else a.single.public_spend_key

abbrev pub comms_public_key : Address → List ℕ
comms_public_key a = public_spend_key a

unfoldable pub bytes : Address → List ℕ
bytes a = if is_dual a then dual_bytes a.dual else single_bytes a.single

unfoldable pub get_size : Address → ℕ
get_size a =
    if is_dual a
    then (if contains a.dual.features feature_payment_id
        then length (dual_bytes a.dual)
        else dual_address_internal_size)
    else single_address_internal_size

unfoldable pub get_memo_field_payment_id_bytes_of : Address → List ℕ
get_memo_field_payment_id_bytes_of a =
    if is_dual a then get_memo_field_payment_id_bytes a.dual else []

unfoldable pub with_memo_field_payment_id : Address → List ℕ → Result Error Address
with_memo_field_payment_id a memo =
    if not (is_dual a)
    then err payment_id_not_supported
    else (do d ← add_memo_field_payment_id a.dual memo; ok (of_dual d))

unfoldable pub calculate_checksum : Address → ℕ
calculate_checksum a = let b = bytes a in get_or b (length b - 1) 0

-- The arguments are code points.
unfoldable pub emoji_to_bytes : List ℕ → Result Error (List ℕ)
emoji_to_bytes emoji =
    if length emoji == single_address_internal_size
    then single_emoji_to_bytes emoji
    else dual_emoji_to_bytes emoji

unfoldable pub emoji_string : Address → List ℕ
emoji_string a = if is_dual a then dual_emoji_string a.dual else single_emoji_string a.single

unfoldable pub address_hex : Address → List ℕ
address_hex a = encode_to_string (bytes a)

unfoldable pub address_base58 : Base58 → Address → List ℕ
address_base58 c a = encode_parts c (bytes a)

abbrev pub or_else : Result Error Address → Result Error Address → Result Error Address
or_else (ok a) next = ok a
or_else (err e) next = next

module _ (is_canonical : List ℕ → Bool) where
  unfoldable pub from_bytes : List ℕ → Result Error Address
  from_bytes b =
      if not (
        length b == single_address_internal_size
        || leb dual_address_internal_size (length b)
          && leb (length b) (dual_address_internal_size + max_encrypted_data_size))
      then err invalid_size
      else if length b == single_address_internal_size
      then (do s ← single_address_from_bytes is_canonical b; ok (of_single s))
      else (do d ← dual_address_from_bytes is_canonical b; ok (of_dual d))

  unfoldable pub from_emoji_string : List ℕ → Result Error Address
  from_emoji_string emoji = do b ← emoji_to_bytes (runes emoji); from_bytes b

  unfoldable pub from_hex : List ℕ → Result Error Address
  from_hex s = do buf ← some_or_fail (decode_string s) cannot_recover_public_key; from_bytes buf

  unfoldable pub from_base58 : Base58 → List ℕ → Result Error Address
  from_base58 c s =
      if ltb (length s) internal_single_min_base58_size
      then err invalid_size
      else (do result ← decode_parts c s; from_bytes result)

  -- Each reader in its turn; the texts without the space around them and the bars go to the first only.
  unfoldable pub parse : Base58 → List ℕ → Result Error Address
  parse c s =
      let cleaned = remove b'|' (trim_space s) in
      or_else (from_emoji_string cleaned)
        (or_else (from_base58 c s) (or_else (from_hex s) (err invalid_address_string)))

-- The two tests and the comparison of view keys before anything is built.
combine_error : Address → Address → Option Error
combine_error one two =
    if not (public_spend_key one === public_spend_key two)
    then some (creation_error (codes "Public keys do not match"))
    else if not (network one == network two)
    then some (creation_error (codes "Networks do not match"))
    else if is_dual one
        && is_dual two
        && not (one.dual.public_view_key === two.dual.public_view_key)
    then some (creation_error (codes "View keys do not match"))
    else none

combined : Address → Address → Result Error Address
combined one two =
    let both = combine (features one) (features two) in
    if is_dual one
    then new_dual one.dual.public_view_key one.dual.public_spend_key (network one) both none
    else if is_dual two
    then new_dual two.dual.public_view_key (public_spend_key one) (network one) both none
    else ok (new_single (public_spend_key one) (network one) both)

unfoldable pub combine_addresses : Address → Address → Result Error Address
unfolding combine_error combined
combine_addresses one two = elim (combine_error one two) [
  | some e ↦ err e
  | none ↦ combined one two
]

-- Every address that the package's constructors and parsers make.
pub data IsAddress (is_canonical : List ℕ → Bool) : Address → Type 0 where
  dual_valid : (d : DualAddress) → IsValidDual is_canonical d → IsAddress is_canonical (of_dual d)
  single_valid :
      (s : SingleAddress) → IsValidSingle is_canonical s → IsAddress is_canonical (of_single s)
