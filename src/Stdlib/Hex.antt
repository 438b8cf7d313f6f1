-- ===== src/Stdlib/Hex.antt =====
-- `hex.EncodeToString` and `hex.DecodeString` of encoding/hex. A string is the list of its bytes.
use mathlib.Core.Path.{subst}
use mathlib.Core.Option.{some-injective}
use go_tari_lib.Common.{
  ℕ, ◌+◌, ◌-◌, ◌*◌, ◌/◌, ◌%◌, ◌<◌, ◌≡◌, refl, Option, none, some, List, [], ◌∷◌, ◌&&◌, arith, leb,
  ltb, if◌then◌else◌, length, All,
}
use go_tari_lib.Common.Bits.{IsByte}

-- The lower-case digit of a number below 16.
hex_digit : ℕ → ℕ
hex_digit d = if ltb d 10 then b'0' + d else b'a' + (d - 10)

-- The value of a digit of either case.
hex_value : ℕ → Option ℕ
hex_value c =
    if leb b'0' c && leb c b'9'
    then some (c - b'0')
    else if leb b'a' c && leb c b'f'
    then some (c - b'a' + 10)
    else if leb b'A' c && leb c b'F'
    then some (c - b'A' + 10)
    else none

unfoldable pub encode_to_string : List ℕ → List ℕ
unfolding hex_digit
encode_to_string [] = []
encode_to_string (b ∷ bs) = hex_digit (b / 16) ∷ hex_digit (b % 16) ∷ encode_to_string bs

byte_of : Option ℕ → Option ℕ → Option (List ℕ) → Option (List ℕ)
byte_of (some hi) (some lo) (some bs) = some ((hi * 16 + lo) ∷ bs)
byte_of _ _ _ = none

-- `none` for a character that is no digit, and for an odd number of characters.
unfoldable pub decode_string : List ℕ → Option (List ℕ)
unfolding hex_value byte_of
decode_string [] = some []
decode_string (c ∷ []) = none
decode_string (c ∷ d ∷ cs) = byte_of (hex_value c) (hex_value d) (decode_string cs)

hex_value-hex_digit : (d : ℕ) → d < 16 → hex_value (hex_digit d) ≡ some d
unfolding hex_value hex_digit
hex_value-hex_digit d h = ground arith

-- `DecodeString` reads back the bytes that `EncodeToString` wrote.
pub decode-encode : (bs : List ℕ) → All IsByte bs → decode_string (encode_to_string bs) ≡ some bs
unfolding decode_string encode_to_string
decode-encode [] h = refl
decode-encode (b ∷ bs) (hb, h) = ground (
  arith,
  hex_value-hex_digit (b / 16) (omega arith),
  hex_value-hex_digit (b % 16) (omega arith),
  decode-encode bs h,
)

pub length-encode : (bs : List ℕ) → length (encode_to_string bs) ≡ 2 * length bs
unfolding encode_to_string
length-encode [] = refl
length-encode (b ∷ bs) = omega (arith, length-encode bs)

hex_value-lt : (c v : ℕ) → hex_value c ≡ some v → v < 16
unfolding hex_value
hex_value-lt c v h = ground arith

byte_of-IsByte :
    (hi lo : Option ℕ) (rest : Option (List ℕ)) (bs : List ℕ)
    → ((v : ℕ) → hi ≡ some v → v < 16)
    → ((v : ℕ) → lo ≡ some v → v < 16)
    → ((ds : List ℕ) → rest ≡ some ds → All IsByte ds)
    → byte_of hi lo rest ≡ some bs
    → All IsByte bs
unfolding byte_of
byte_of-IsByte (some h) (some l) (some ds) bs small_h small_l all e =
    subst (All IsByte) (some-injective _ _ e)
      (omega (arith, small_h h refl, small_l l refl), all ds refl)
byte_of-IsByte _ _ _ bs small_h small_l all e = cc

-- `DecodeString` makes bytes.
pub decode_string-IsByte : (s bs : List ℕ) → decode_string s ≡ some bs → All IsByte bs
unfolding decode_string
decode_string-IsByte [] bs e = subst (All IsByte) (some-injective _ _ e) tt
decode_string-IsByte (c ∷ []) bs e = cc
decode_string-IsByte (c ∷ d ∷ cs) bs e =
    byte_of-IsByte (hex_value c) (hex_value d) (decode_string cs) bs (hex_value-lt c)
      (hex_value-lt d) (decode_string-IsByte cs) e
