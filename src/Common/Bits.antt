-- ===== src/Common/Bits.antt =====
-- Bytes, and the operations `^`, `&` and `|` on them.
mod Table
mod Xor
unfoldable pub use Table.{all_below, all_pairs}
pub use Table.{all_below_sound, all_pairs_sound}
pub use Xor.{zero-xor, xor-zero, xor_comm, xor_assoc, xor_self, xor_cancel}
pub use Xor.{xor-injective, eq_of_xor_zero, xor_exchange}
use Prim.Native.Nat.{ℕ, ◌<◌, bit_xor}
use mathlib.Core.Path.{◌≡◌, refl}
use mathlib.Core.Bool.{true}
use go_tari_lib.Common.Tests.{ltb, ltb→lt}

abbrev pub IsByte : ℕ → Type 0
IsByte b = b < 256

xor_byte_table : all_pairs 256 (λ a b. ltb (bit_xor a b) 256) ≡ true
unfolding all_pairs
xor_byte_table = refl

pub xor-IsByte : (a b : ℕ) → IsByte a → IsByte b → IsByte (bit_xor a b)
xor-IsByte a b ha hb = ltb→lt _ _ (all_pairs_sound 256 a b _ ha hb xor_byte_table)
