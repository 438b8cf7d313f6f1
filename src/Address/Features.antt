-- ===== src/Address/Features.antt =====
-- address/features.go: the feature bits of an address, a uint8.
use go_tari_lib.Common.{
  ℕ, ◌<◌, ◌≡◌, refl, ◌↔◌, Bool, true, false, Option, none, some, List, [], ◌++◌, ◌&&◌, bit_and,
  bit_or, bit_xor, arith, ltb, ◌==◌, ltb→lt, if◌then◌else◌,
}
use go_tari_lib.Common.Bits.{IsByte, all_below, all_pairs, all_below_sound, all_pairs_sound}
use go_tari_lib.Stdlib.Text.{codes}

abbrev pub feature_payment_id : ℕ
feature_payment_id = 4

abbrev pub feature_interactive : ℕ
feature_interactive = 2

abbrev pub feature_one_sided : ℕ
feature_one_sided = 1

abbrev pub valid_feature_bits : ℕ
valid_feature_bits = bit_or (bit_or feature_payment_id feature_interactive) feature_one_sided

abbrev pub features_interactive_only : ℕ
features_interactive_only = feature_interactive

abbrev pub features_one_sided_only : ℕ
features_one_sided_only = feature_one_sided

abbrev pub features_interactive_and_one_sided : ℕ
features_interactive_and_one_sided = bit_or feature_interactive feature_one_sided

abbrev pub default_features : ℕ
default_features = bit_or feature_interactive feature_one_sided

abbrev pub as_u8 : ℕ → ℕ
as_u8 f = f

unfoldable pub contains : ℕ → ℕ → Bool
contains f other = bit_and f other == other

unfoldable pub combine : ℕ → ℕ → ℕ
combine f other = bit_or f other

-- Go's `x &^ y` on a byte.
abbrev and_not : ℕ → ℕ → ℕ
and_not x y = bit_and x (bit_xor y 255)

unfoldable pub features_from_bits : ℕ → Option ℕ
features_from_bits v = if and_not v valid_feature_bits == 0 then some v else none

unfoldable pub features_string : ℕ → List ℕ
unfolding contains
features_string f =
    (if contains f feature_interactive then codes "Interactive," else [])
    ++ ((if contains f feature_one_sided then codes "One-sided," else [])
        ++ (if contains f feature_payment_id then codes "Payment-id," else []))

bits_table :
    all_below 256
      (λ v. if ltb v 8 then and_not v 7 == 0 else if and_not v 7 == 0 then false else true)
    ≡ true
unfolding all_below
bits_table = refl

-- A byte is read as features exactly if it has none but the three known bits, and stays as it is.
pub features_from_bits_iff :
    (v f : ℕ) → IsByte v → (features_from_bits v ≡ some f) ↔ ((f ≡ v) × (v < 8))
unfolding features_from_bits
features_from_bits_iff v f h = ground (arith, all_below_sound 256 v _ h bits_table)

combine_table : all_pairs 8 (λ f g. ltb (combine f g) 8 && combine f g == combine g f) ≡ true
unfolding all_pairs combine
combine_table = refl

pub combine-lt : (f g : ℕ) → f < 8 → g < 8 → combine f g < 8
combine-lt f g hf hg = ltb→lt _ _ (ground (arith, all_pairs_sound 8 f g _ hf hg combine_table))

pub combine_comm : (f g : ℕ) → f < 8 → g < 8 → combine f g ≡ combine g f
combine_comm f g hf hg = ground (arith, all_pairs_sound 8 f g _ hf hg combine_table)

payment_id_table :
    all_below 8 (λ f. contains (combine f feature_payment_id) feature_payment_id) ≡ true
unfolding all_below combine contains
payment_id_table = refl

pub contains-combine_payment_id :
    (f : ℕ) → f < 8 → contains (combine f feature_payment_id) feature_payment_id ≡ true
contains-combine_payment_id f h = all_below_sound 8 f _ h payment_id_table
