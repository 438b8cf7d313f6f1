-- ===== src/Address/Tari/Size.antt =====
-- `GetSize` and `CalculateChecksum` against the bytes of an address.
use go_tari_lib.Common.{ℕ, ◌+◌, ◌≡◌, ap, Bool, false, inl, inr, List, arith, length, Bool-cases}
use go_tari_lib.Common.Result.{ok}
use go_tari_lib.Address.Features.{feature_payment_id, contains}
use go_tari_lib.Address.Single.Codec.{length-single_bytes}
use go_tari_lib.Address.Dual.{DualAddress, IsValidDual}
use go_tari_lib.Address.Dual.Codec.{length-dual_bytes}
use go_tari_lib.Address.Dual.Memo.{IsAnnounced}
use go_tari_lib.Address.Tari.{
  Address, IsAddress, dual_valid, single_valid, of_dual, bytes, from_bytes, get_size,
}
use go_tari_lib.Address.Tari.Codec.{from-bytes}

module _ (is_canonical : List ℕ → Bool) where
  -- `GetSize` of a valid address is the number of its `Bytes`, if a payment id that is not empty is announced
  -- by its feature bit.
  pub get_size-bytes :
      (a : Address) → IsAddress is_canonical a → IsAnnounced a.dual → get_size a ≡ length (bytes a)
  unfolding get_size bytes
  get_size-bytes a (single_valid s v) said = ground (arith, length-single_bytes is_canonical s v)
  get_size-bytes a (dual_valid d v) said =
      elim (Bool-cases (contains d.features feature_payment_id)) [
        | inl on ↦ ground (arith, on)
        | inr off ↦ ground (arith, off, ap length (said off), length-dual_bytes is_canonical d v)
      ]

  -- A valid dual address with a payment id and without the feature bit is accepted by `FromBytes`, and its
  -- `GetSize` is too small by the length of the payment id.
  pub get_size_unannounced :
      (d : DualAddress)
      → IsValidDual is_canonical d
      → contains d.features feature_payment_id ≡ false
      → (from_bytes is_canonical (bytes (of_dual d)) ≡ ok (of_dual d))
        × (get_size (of_dual d) + length d.memo_field_payment_id ≡ length (bytes (of_dual d)))
  get_size_unannounced d v off = (
    from-bytes is_canonical (of_dual d) (dual_valid d v),
    unfold get_size bytes in ground (arith, off, length-dual_bytes is_canonical d v),
  )
