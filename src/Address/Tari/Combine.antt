-- ===== src/Address/Tari/Combine.antt =====
-- `CombineAddresses`: the order of its arguments does not matter, and what it returns is valid.
use mathlib.Core.Path.{subst}
use go_tari_lib.Common.{ℕ, ◌<◌, ◌≡◌, Bool, ◌||◌, List, [], arith}
use go_tari_lib.Common.Result.{ok}
use go_tari_lib.Stdlib.Text.{===_sound, ===_comm}
use go_tari_lib.Address.Features.{combine, combine_comm, combine-lt}
use go_tari_lib.Address.Single.{SingleAddress, IsValidSingle}
use go_tari_lib.Address.Dual.{DualAddress, IsValidDual, new_dual_address}
use go_tari_lib.Address.Tari.{
  Address, IsAddress, dual_valid, single_valid, combine_addresses, new_dual, new_single, network,
  features, public_spend_key, as_dual,
}

module _ (is_canonical : List ℕ → Bool) where
  -- Two valid addresses combine to the same address, or fail with the same error, in either order.
  pub combine_addresses_comm :
      (one two : Address)
      → IsAddress is_canonical one
      → IsAddress is_canonical two
      → combine_addresses one two ≡ combine_addresses two one
  unfolding combine_addresses new_dual new_single new_dual_address
  combine_addresses_comm one two (dual_valid d v) (dual_valid e w) = ground (
    arith,
    ===_sound d.public_spend_key e.public_spend_key,
    ===_comm d.public_spend_key e.public_spend_key,
    ===_sound d.public_view_key e.public_view_key,
    ===_comm d.public_view_key e.public_view_key,
    combine_comm d.features e.features v.features_known w.features_known,
  )
  combine_addresses_comm one two (dual_valid d v) (single_valid s w) = ground (
    arith,
    ===_sound d.public_spend_key s.public_spend_key,
    ===_comm d.public_spend_key s.public_spend_key,
    combine_comm d.features s.features v.features_known w.features_known,
  )
  combine_addresses_comm one two (single_valid s v) (dual_valid d w) = ground (
    arith,
    ===_sound s.public_spend_key d.public_spend_key,
    ===_comm s.public_spend_key d.public_spend_key,
    combine_comm s.features d.features v.features_known w.features_known,
  )
  combine_addresses_comm one two (single_valid s v) (single_valid t w) = ground (
    arith,
    ===_sound s.public_spend_key t.public_spend_key,
    ===_comm s.public_spend_key t.public_spend_key,
    combine_comm s.features t.features v.features_known w.features_known,
  )

-- A valid dual address with other features and no payment id.
refit-IsValidDual :
    (is_canonical : List ℕ → Bool) (d : DualAddress) (f : ℕ)
    → IsValidDual is_canonical d
    → f < 8
    → IsValidDual is_canonical (record d { features = f; memo_field_payment_id = [] })
refit-IsValidDual is_canonical d f v h = record {
  network_known = v.network_known;
  features_known = h;
  view_key = v.view_key;
  view_canonical = v.view_canonical;
  spend_key = v.spend_key;
  spend_canonical = v.spend_canonical;
  memo_fits = omega arith;
  memo_bytes = tt;
}

refit-IsValidSingle :
    (is_canonical : List ℕ → Bool) (s : SingleAddress) (f : ℕ)
    → IsValidSingle is_canonical s
    → f < 8
    → IsValidSingle is_canonical (record s { features = f })
refit-IsValidSingle is_canonical s f v h = record {
  network_known = v.network_known;
  features_known = h;
  key = v.key;
  key_canonical = v.key_canonical;
}

-- What a combined address has from the two that it is made of.
pub record MadeOf (one two a : Address) : Type 0 where
  pub spend_one : public_spend_key a ≡ public_spend_key one
  pub spend_two : public_spend_key a ≡ public_spend_key two
  pub network_one : network a ≡ network one
  pub network_two : network a ≡ network two
  pub features_both : features a ≡ combine (features one) (features two)
  pub dual_if : (as_dual a).1 ≡ ((as_dual one).1 || (as_dual two).1)
  pub no_memo : a.dual.memo_field_payment_id ≡ []

pub combined_parts : (one two a : Address) → combine_addresses one two ≡ ok a → MadeOf one two a
unfolding combine_addresses new_dual new_single new_dual_address
combined_parts one two a e =
    let same_keys = ===_sound (public_spend_key one) (public_spend_key two) in
    record {
      spend_one = ground arith;
      spend_two = ground (arith, same_keys);
      network_one = ground arith;
      network_two = ground arith;
      features_both = ground arith;
      dual_if = ground arith;
      no_memo = ground arith;
    }

module _ (is_canonical : List ℕ → Bool) where
  combine-IsAddress :
      (one two a : Address)
      → IsAddress is_canonical one
      → IsAddress is_canonical two
      → combine_addresses one two ≡ ok a
      → IsAddress is_canonical a
  unfolding combine_addresses new_dual new_single new_dual_address
  combine-IsAddress one two a (dual_valid d v) (dual_valid e w) h =
      let f = combine d.features e.features in
      subst (IsAddress is_canonical) (ground arith) (
        dual_valid (record d { features = f; memo_field_payment_id = [] })
          (refit-IsValidDual is_canonical d f v (combine-lt _ _ v.features_known w.features_known)))
  combine-IsAddress one two a (dual_valid d v) (single_valid s w) h =
      let f = combine d.features s.features in
      subst (IsAddress is_canonical) (ground arith) (
        dual_valid (record d { features = f; memo_field_payment_id = [] })
          (refit-IsValidDual is_canonical d f v (combine-lt _ _ v.features_known w.features_known)))
  combine-IsAddress one two a (single_valid s v) (dual_valid d w) h =
      let f = combine s.features d.features in
      subst (IsAddress is_canonical)
        (ground (arith, ===_sound s.public_spend_key d.public_spend_key))
        (dual_valid (record d { features = f; memo_field_payment_id = [] })
          (refit-IsValidDual is_canonical d f w (combine-lt _ _ v.features_known w.features_known)))
  combine-IsAddress one two a (single_valid s v) (single_valid t w) h =
      let f = combine s.features t.features in
      subst (IsAddress is_canonical) (ground arith) (
        single_valid (record s { features = f })
          (refit-IsValidSingle is_canonical s f v
            (combine-lt _ _ v.features_known w.features_known)))

  -- A combination of two valid addresses that succeeds is a valid address with the key and the network of
  -- both and the features of either, without a payment id; it is dual exactly if one of the two is.
  pub combine_addresses_made :
      (one two a : Address)
      → IsAddress is_canonical one
      → IsAddress is_canonical two
      → combine_addresses one two ≡ ok a
      → IsAddress is_canonical a × MadeOf one two a
  combine_addresses_made one two a v w e =
      (combine-IsAddress one two a v w e, combined_parts one two a e)
