-- ===== src/Address/Single/Codec.antt =====
-- `Bytes` and `SingleAddressFromBytes` are inverse on valid addresses, and nothing else is accepted.
use go_tari_lib.Common.{
  ℕ, ◌≤◌, ◌≡◌, refl, sym, ap, ◌∙◌, ◌↔◌, Bool, some, inl, inr, List, [], ◌∷◌, ◌++◌, arith, length,
  get_or, length-append, slice, take-append, All-append,
}
use mathlib.Core.Path.{subst}
use go_tari_lib.Common.Bits.{IsByte}
use go_tari_lib.Common.Result.{ok, Result-cases}
use go_tari_lib.Address.Network.{network_from_byte, network_from_byte_iff, IsNetwork-IsByte}
use go_tari_lib.Address.Features.{features_from_bits, features_from_bits_iff}
use go_tari_lib.Address.Pubkey.{
  public_key_from_canonical_bytes, public_key_from_canonical_bytes_iff,
}
use go_tari_lib.Address.Dammsum.{compute_checksum, validate_checksum}
use go_tari_lib.Address.Dammsum.Detect.{
  IsBytes, IsBytes-parts, validate-append_checksum, validate_checksum_iff, compute-IsByte,
}
use go_tari_lib.Address.Single.{
  SingleAddress, IsValidSingle, single_payload, single_bytes, single_address_from_bytes,
}

module _ (is_canonical : List ℕ → Bool) where
  single_payload-IsBytes :
      (a : SingleAddress) → IsValidSingle is_canonical a → IsBytes (single_payload a)
  single_payload-IsBytes a v =
      (IsNetwork-IsByte a.network v.network_known, (omega (arith, v.features_known), v.key.1))

  pub single_bytes-IsBytes :
      (a : SingleAddress) → IsValidSingle is_canonical a → IsBytes (single_bytes a)
  unfolding single_bytes
  single_bytes-IsBytes a v =
      All-append IsByte (single_payload a) _ (single_payload-IsBytes a v)
        (compute-IsByte _ (single_payload-IsBytes a v), tt)

  pub length-single_bytes :
      (a : SingleAddress) → IsValidSingle is_canonical a → length (single_bytes a) ≡ 35
  unfolding single_bytes
  length-single_bytes a v =
      omega (
        arith,
        length-append (single_payload a) (compute_checksum (single_payload a) ∷ []),
        v.key.0,
      )

  pub single_checksum_passes :
      (a : SingleAddress)
      → IsValidSingle is_canonical a
      → validate_checksum (single_bytes a) ≡ ok (single_payload a)
  unfolding single_bytes
  single_checksum_passes a v =
      validate-append_checksum (single_payload a) (single_payload-IsBytes a v) (omega arith)

  spend_key_slice :
      (a : SingleAddress)
      → IsValidSingle is_canonical a
      → slice 2 34 (single_bytes a) ≡ a.public_spend_key
  unfolding single_bytes
  spend_key_slice a v = take-append a.public_spend_key _ 32 v.key.0

  pub single_from-bytes :
      (a : SingleAddress)
      → IsValidSingle is_canonical a
      → single_address_from_bytes is_canonical (single_bytes a) ≡ ok a
  unfolding single_address_from_bytes single_bytes
  single_from-bytes a v = ground (
    arith,
    length-single_bytes a v,
    single_checksum_passes a v,
    spend_key_slice a v,
    (network_from_byte_iff a.network a.network).1 (refl, v.network_known),
    (features_from_bits_iff a.features a.features (omega (arith, v.features_known))).1
        (refl, v.features_known),
    (public_key_from_canonical_bytes_iff is_canonical a.public_spend_key a.public_spend_key).1
        (refl, v.key.0, v.key_canonical),
  )

  -- What each step of a successful `SingleAddressFromBytes` has found.
  record Accepted (b : List ℕ) (a : SingleAddress) : Type 0 where
    size : length b ≡ 35
    checked : (d : List ℕ) × (validate_checksum b ≡ ok d)
    network : network_from_byte (get_or b 0 0) ≡ ok a.network
    features : features_from_bits (get_or b 1 0) ≡ some a.features
    key : public_key_from_canonical_bytes is_canonical (slice 2 34 b) ≡ ok a.public_spend_key

  accepted :
      (b : List ℕ) (a : SingleAddress)
      → single_address_from_bytes is_canonical b ≡ ok a
      → Accepted b a
  unfolding single_address_from_bytes
  accepted b a e = record {
    size = ground arith;
    checked = elim (Result-cases (validate_checksum b)) [
      | inl (d, p) ↦ (d, p)
      | inr (x, p) ↦ absurd (ground (arith, p))
    ];
    network = ground arith;
    features = ground arith;
    key = ground arith;
  }

  parts_of_data :
      (b d : List ℕ) (a : SingleAddress)
      → IsBytes b
      → Accepted b a
      → (1 ≤ length d) × (b ≡ d ++ (compute_checksum d ∷ []))
      → (IsValidSingle is_canonical a × (single_payload a ≡ d))
  parts_of_data b [] a h x (long, e) = absurd (omega arith)
  parts_of_data b (n ∷ []) a h x (long, e) = absurd (omega (arith, ap length e, x.size))
  parts_of_data b (n ∷ f ∷ key) a h x (long, e) =
      let (hd, hc) =
        IsBytes-parts (n ∷ f ∷ key) (compute_checksum (n ∷ f ∷ key) ∷ []) (subst IsBytes e h) in
      let size : length key ≡ 32 =
        omega
          (arith, ap length e, length-append key (compute_checksum (n ∷ f ∷ key) ∷ []), x.size) in
      let cut : slice 2 34 b ≡ key = ap (slice 2 34) e ∙ take-append key _ 32 size in
      let network = (network_from_byte_iff n a.network).0 (rw e at x.network) in
      let features = (features_from_bits_iff f a.features hd.1.0).0 (rw e at x.features) in
      let spend =
        (public_key_from_canonical_bytes_iff is_canonical key a.public_spend_key).0
          (rw cut at x.key) in
      (
        record {
          network_known = rw network.0 network.1;
          features_known = rw features.0 features.1;
          key = rw spend.0 (size, hd.1.1);
          key_canonical = rw spend.0 spend.2;
        },
        rw (network.0, features.0, spend.0),
      )

  -- For a slice of bytes, `SingleAddressFromBytes` returns an address exactly when the address is valid and
  -- its `Bytes` are the slice.
  pub single_from_bytes_iff :
      (b : List ℕ) (a : SingleAddress)
      → IsBytes b
      → (single_address_from_bytes is_canonical b ≡ ok a)
        ↔ (IsValidSingle is_canonical a × (single_bytes a ≡ b))
  single_from_bytes_iff b a h = (
    λ e.
        let x = accepted b a e in
        let split = (validate_checksum_iff b x.checked.0 h).0 x.checked.1 in
        let (v, payload) = parts_of_data b x.checked.0 a h x split in
        (v, unfold single_bytes in ap (λ t. t ++ (compute_checksum t ∷ [])) payload ∙ sym split.1),
    λ (v, e). ap (single_address_from_bytes is_canonical) (sym e) ∙ single_from-bytes a v,
  )
