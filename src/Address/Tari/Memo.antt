-- ===== src/Address/Tari/Memo.antt =====
-- `WithMemoFieldPaymentID`, on every branch.
use go_tari_lib.Common.{ℕ, ◌<◌, ◌≤◌, ◌≡◌, refl, ap, Bool, List, arith, length}
use go_tari_lib.Common.Result.{ok, err, ◌>>=◌}
use go_tari_lib.Address.Errors.{payment_id_too_large, payment_id_not_supported}
use go_tari_lib.Address.Features.{combine, feature_payment_id}
use go_tari_lib.Address.Dammsum.Detect.{IsBytes}
use go_tari_lib.Address.Single.{SingleAddress}
use go_tari_lib.Address.Dual.{DualAddress, IsValidDual, add_memo_field_payment_id}
use go_tari_lib.Address.Dual.Memo.{add_memo-IsValidDual, add_memo-IsAnnounced, add_memo_fails_iff}
use go_tari_lib.Address.Tari.{
  Address, IsAddress, dual_valid, of_dual, of_single, bytes, get_size, with_memo_field_payment_id,
  get_memo_field_payment_id_bytes_of,
}
use go_tari_lib.Address.Tari.Size.{get_size-bytes}

-- An address that carries the payment id, and whose size counts it.
pub record Carries (is_canonical : List ℕ → Bool) (d : DualAddress) (memo : List ℕ) : Type 0 where
  pub address : Address
  pub made : with_memo_field_payment_id (of_dual d) memo ≡ ok address
  pub valid : IsAddress is_canonical address
  pub carried : get_memo_field_payment_id_bytes_of address ≡ memo
  pub sized : get_size address ≡ length (bytes address)

module _ (is_canonical : List ℕ → Bool) (d : DualAddress) (memo : List ℕ) where
  abbrev with_memo : DualAddress
  with_memo = record d {
    features = combine d.features feature_payment_id;
    memo_field_payment_id = memo;
  }

  added : length memo ≤ 256 → add_memo_field_payment_id d memo ≡ ok with_memo
  unfolding add_memo_field_payment_id
  added h = ground arith

  carries :
      IsValidDual is_canonical d → IsBytes memo → length memo ≤ 256 → Carries is_canonical d memo
  carries v hm h =
      let valid =
        dual_valid with_memo (add_memo-IsValidDual is_canonical d memo with_memo v hm (added h)) in
      record {
        address = of_dual with_memo;
        made = unfold with_memo_field_payment_id in ap (λ r. r >>= λ t. ok (of_dual t)) (added h);
        valid = valid;
        carried = unfold get_memo_field_payment_id_bytes_of in refl;
        sized =
            get_size-bytes is_canonical (of_dual with_memo) valid
              (add_memo-IsAnnounced d with_memo memo v.features_known (added h));
      }

  -- A single address refuses every payment id. A dual one refuses exactly what is longer than 256 bytes; with
  -- a shorter payment id, a valid one becomes a valid address that carries it and whose `GetSize` is the
  -- number of its bytes.
  pub with_memo_field_payment_id_lem :
      (s : SingleAddress)
      → IsValidDual is_canonical d
      → IsBytes memo
      → (with_memo_field_payment_id (of_single s) memo ≡ err payment_id_not_supported)
        × (256 < length memo
            → with_memo_field_payment_id (of_dual d) memo ≡ err payment_id_too_large)
        × (length memo ≤ 256 → Carries is_canonical d memo)
  with_memo_field_payment_id_lem s v hm = (
    unfold with_memo_field_payment_id in refl,
    λ long.
        unfold with_memo_field_payment_id in
        ap (λ r. r >>= λ t. ok (of_dual t)) ((add_memo_fails_iff d memo).1 long),
    carries v hm,
  )
