-- ===== src/Address/Dammsum.antt =====
-- address/dammsum.go: the checksum of an address. A byte slice is a list of numbers.
pub mod Linear
pub mod Detect
use go_tari_lib.Common.{
  ℕ, ◌+◌, ◌-◌, ◌*◌, ◌%◌, List, [], ◌∷◌, bit_xor, bit_and, ltb, ◌==◌, if◌then◌else◌, length, take,
}
use go_tari_lib.Common.Result.{Result, ok, err}
use go_tari_lib.Address.Errors.{Error, invalid_checksum}

abbrev pub checksum_mask : ℕ
checksum_mask = 27

-- The shift and the reduction of one round; `result <<= 1` drops the bit above the byte.
unfoldable pub double : ℕ → ℕ
double result =
    let shifted = result * 2 % 256 in
    if bit_and result 128 == 0 then shifted else bit_xor shifted checksum_mask

unfoldable pub checksum_loop : ℕ → List ℕ → ℕ
checksum_loop result [] = result
checksum_loop result (digit ∷ data_left) = checksum_loop (double (bit_xor result digit)) data_left

unfoldable pub compute_checksum : List ℕ → ℕ
compute_checksum bytes = checksum_loop 0 bytes

unfoldable pub validate_checksum : List ℕ → Result Error (List ℕ)
validate_checksum bytes =
    if ltb (length bytes) 2
    then err invalid_checksum
    else if compute_checksum bytes == 0
    then ok (take (length bytes - 1) bytes)
    else err invalid_checksum
