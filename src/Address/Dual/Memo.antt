-- ===== src/Address/Dual/Memo.antt =====
-- The payment id of a dual address.
use go_tari_lib.Common.{ℕ, ◌<◌, ◌≡◌, ◌↔◌, Bool, false, [], Option, none, some, List, arith, length}
use go_tari_lib.Common.Result.{ok, err}
use go_tari_lib.Address.Errors.{payment_id_too_large}
use go_tari_lib.Address.Features.{
  feature_payment_id, contains, combine, combine-lt, contains-combine_payment_id,
}
use go_tari_lib.Address.Dammsum.Detect.{IsBytes}
use go_tari_lib.Address.Dual.{DualAddress, IsValidDual, new_dual_address, add_memo_field_payment_id}

-- What the method changes: the payment id and the feature bit that announces it.
pub record MemoAdded (a : DualAddress) (bytes : List ℕ) (b : DualAddress) : Type 0 where
  pub memo : b.memo_field_payment_id ≡ bytes
  pub features : b.features ≡ combine a.features feature_payment_id
  pub network : b.network ≡ a.network
  pub view_key : b.public_view_key ≡ a.public_view_key
  pub spend_key : b.public_spend_key ≡ a.public_spend_key

pub add_memo_effect :
    (a b : DualAddress) (bytes : List ℕ)
    → add_memo_field_payment_id a bytes ≡ ok b
    → MemoAdded a bytes b
unfolding add_memo_field_payment_id
add_memo_effect a b bytes e = ground arith

-- It fails exactly for a payment id of more than 256 bytes.
pub add_memo_fails_iff :
    (a : DualAddress) (bytes : List ℕ)
    → (add_memo_field_payment_id a bytes ≡ err payment_id_too_large) ↔ (256 < length bytes)
unfolding add_memo_field_payment_id
add_memo_fails_iff a bytes = ground arith

module _ (is_canonical : List ℕ → Bool) where
  pub add_memo-IsValidDual :
      (a : DualAddress) (bytes : List ℕ) (b : DualAddress)
      → IsValidDual is_canonical a
      → IsBytes bytes
      → add_memo_field_payment_id a bytes ≡ ok b
      → IsValidDual is_canonical b
  add_memo-IsValidDual a bytes b v h e =
      let m = add_memo_effect a b bytes e in
      record {
        network_known = rw m.network v.network_known;
        features_known = rw m.features (combine-lt a.features 4 v.features_known (omega arith));
        view_key = rw m.view_key v.view_key;
        view_canonical = rw m.view_key v.view_canonical;
        spend_key = rw m.spend_key v.spend_key;
        spend_canonical = rw m.spend_key v.spend_canonical;
        memo_fits = rw m.memo (unfold add_memo_field_payment_id in ground (arith, e));
        memo_bytes = rw m.memo h;
      }

-- What both constructors and the method promise: a payment id is announced by its feature bit.
abbrev pub IsAnnounced : DualAddress → Type 0
IsAnnounced a = contains a.features feature_payment_id ≡ false → a.memo_field_payment_id ≡ []

pub new_dual-IsAnnounced :
    (view spend : List ℕ) (n f : ℕ) (memo : Option (List ℕ)) (b : DualAddress)
    → f < 8
    → new_dual_address view spend n f memo ≡ ok b
    → IsAnnounced b
unfolding new_dual_address
new_dual-IsAnnounced view spend n f none b h e = ground arith
new_dual-IsAnnounced view spend n f (some memo) b h e =
    ground (arith, contains-combine_payment_id f h)

pub add_memo-IsAnnounced :
    (a b : DualAddress) (bytes : List ℕ)
    → a.features < 8
    → add_memo_field_payment_id a bytes ≡ ok b
    → IsAnnounced b
unfolding add_memo_field_payment_id
add_memo-IsAnnounced a b bytes h e = ground (arith, contains-combine_payment_id a.features h)
