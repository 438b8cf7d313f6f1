-- ===== src/Stdlib/Endian.antt =====
-- encoding/binary: numbers as bytes in either order.
use go_tari_lib.Common.{ℕ, ◌+◌, ◌*◌, ◌/◌, ◌%◌, ◌≡◌, List, [], ◌∷◌, ◌++◌, arith, get_or}
use go_tari_lib.Common.Bits.{IsByte}

-- `binary.BigEndian.PutUint16`, `PutUint32`; the argument is in range.
unfoldable pub put_uint16_be : ℕ → List ℕ
put_uint16_be v = (v / 256) ∷ (v % 256) ∷ []

unfoldable pub put_uint32_be : ℕ → List ℕ
put_uint32_be v = (v / 16777216) ∷ (v / 65536 % 256) ∷ (v / 256 % 256) ∷ (v % 256) ∷ []

-- `binary.BigEndian.Uint16`, `Uint32` of the first bytes of a slice that has them.
unfoldable pub uint16_be : List ℕ → ℕ
uint16_be b = get_or b 0 0 * 256 + get_or b 1 0

unfoldable pub uint32_be : List ℕ → ℕ
uint32_be b = get_or b 0 0 * 16777216 + get_or b 1 0 * 65536 + get_or b 2 0 * 256 + get_or b 3 0

unfoldable pub put_uint16_le : ℕ → List ℕ
put_uint16_le v = (v % 256) ∷ (v / 256) ∷ []

unfoldable pub uint16_le : List ℕ → ℕ
uint16_le b = get_or b 0 0 + get_or b 1 0 * 256

pub uint16_be-put : (v : ℕ) (rest : List ℕ) → uint16_be (put_uint16_be v ++ rest) ≡ v
unfolding uint16_be put_uint16_be
uint16_be-put v rest = omega arith

pub uint32_be-put : (v : ℕ) (rest : List ℕ) → uint32_be (put_uint32_be v ++ rest) ≡ v
unfolding uint32_be put_uint32_be
uint32_be-put v rest = omega arith

pub uint16_le-put : (v : ℕ) (rest : List ℕ) → uint16_le (put_uint16_le v ++ rest) ≡ v
unfolding uint16_le put_uint16_le
uint16_le-put v rest = omega arith

-- Four bytes are what their number is written as.
pub put-uint32_be :
    (a b c d : ℕ)
    → IsByte a
    → IsByte b
    → IsByte c
    → IsByte d
    → put_uint32_be (a * 16777216 + b * 65536 + c * 256 + d) ≡ a ∷ b ∷ c ∷ d ∷ []
unfolding put_uint32_be
put-uint32_be a b c d ha hb hc hd = ground arith

-- `binary.LittleEndian.PutUint32`, `PutUint64`; the argument is in range.
unfoldable pub put_uint32_le : ℕ → List ℕ
put_uint32_le v = (v % 256) ∷ (v / 256 % 256) ∷ (v / 65536 % 256) ∷ (v / 16777216) ∷ []

unfoldable pub put_uint64_le : ℕ → List ℕ
put_uint64_le v =
    (v % 256)
    ∷ (v / 256 % 256)
    ∷ (v / 65536 % 256)
    ∷ (v / 16777216 % 256)
    ∷ put_uint32_le (v / 4294967296)

pub put_uint32_le_injective : (v w : ℕ) → put_uint32_le v ≡ put_uint32_le w → v ≡ w
unfolding put_uint32_le
put_uint32_le_injective v w h = ground arith

pub put_uint64_le_injective : (v w : ℕ) → put_uint64_le v ≡ put_uint64_le w → v ≡ w
unfolding put_uint64_le
put_uint64_le_injective v w h =
    ground (arith, put_uint32_le_injective (v / 4294967296) (w / 4294967296))
