-- ===== src/Address/Dammsum/Linear.antt =====
-- The doubling of a checksum round is a linear bijection on bytes with 0 as its only fixed point.
use go_tari_lib.Common.{
  ℕ, ◌+◌, ◌/◌, ◌%◌, ◌≡◌, refl, sym, ap, ◌∙◌, true, bit_xor, ltb, ◌==◌, ==_iff, ltb→lt,
  if◌then◌else◌, arith,
}
use go_tari_lib.Common.Bits.{IsByte, all_below, all_pairs, all_below_sound, all_pairs_sound}
use go_tari_lib.Address.Dammsum.{double}

halve : ℕ → ℕ
halve r = if r % 2 == 0 then r / 2 else bit_xor r 27 / 2 + 128

halve_table : all_below 256 (λ r. halve (double r) == r) ≡ true
unfolding all_below halve double
halve_table = refl

halve-double : (r : ℕ) → IsByte r → halve (double r) ≡ r
halve-double r h = (==_iff _ _).0 (all_below_sound 256 r _ h halve_table)

pub double-injective : (r s : ℕ) → IsByte r → IsByte s → double r ≡ double s → r ≡ s
double-injective r s hr hs e = sym (halve-double r hr) ∙ ap halve e ∙ halve-double s hs

double_byte_table : all_below 256 (λ r. ltb (double r) 256) ≡ true
unfolding all_below double
double_byte_table = refl

pub double-IsByte : (r : ℕ) → IsByte r → IsByte (double r)
double-IsByte r h = ltb→lt _ _ (all_below_sound 256 r _ h double_byte_table)

double_xor_table :
    all_pairs 256 (λ r s. double (bit_xor r s) == bit_xor (double r) (double s)) ≡ true
unfolding all_pairs double
double_xor_table = refl

pub double-xor :
    (r s : ℕ) → IsByte r → IsByte s → double (bit_xor r s) ≡ bit_xor (double r) (double s)
double-xor r s hr hs = (==_iff _ _).0 (all_pairs_sound 256 r s _ hr hs double_xor_table)

fixed_table : all_below 256 (λ r. if double r == r then r == 0 else true) ≡ true
unfolding all_below double
fixed_table = refl

pub double_fixed : (r : ℕ) → IsByte r → double r ≡ r → r ≡ 0
double_fixed r h e = ground (arith, all_below_sound 256 r _ h fixed_table)

pub double_zero : double 0 ≡ 0
unfolding double
double_zero = refl
