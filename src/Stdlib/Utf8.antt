-- ===== src/Stdlib/Utf8.antt =====
-- Go's conversions `[]rune(s)` and `string(runes)`: UTF-8 as in unicode/utf8. A string is the list of
-- its bytes; a malformed byte decodes to the replacement character, one byte at a time.
use go_tari_lib.Common.{
  ℕ, zero, suc, ◌+◌, ◌-◌, ◌*◌, ◌/◌, ◌%◌, ◌≤◌, ◌<◌, ◌≡◌, refl, ap, ◌∙◌, ◌⊎◌, inl, inr, Bool, ◌&&◌,
  List, [], ◌∷◌, ◌++◌, arith, leb, ltb, if◌then◌else◌, Bool-cases, length, length-append, drop,
  drop-append, All, get_or,
}

abbrev pub rune_error : ℕ
rune_error = 0xfffd

-- A code point that UTF-8 encodes: no surrogate, and at most 0x10ffff.
abbrev pub IsRune : ℕ → Type 0
IsRune r = (r < 0xd800) ⊎ ((0xdfff < r) × (r < 0x110000))

abbrev pub in_range : ℕ → ℕ → ℕ → Bool
in_range lo hi b = leb lo b && leb b hi

abbrev pub is_continuation : ℕ → Bool
is_continuation b = in_range 0x80 0xbf b

-- The bytes of a code point that is in range, and of one that is not.
unfoldable pub three_bytes : ℕ → List ℕ
three_bytes r = (0xe0 + r / 4096) ∷ (0x80 + r / 64 % 64) ∷ (0x80 + r % 64) ∷ []

unfoldable pub encode_rune : ℕ → List ℕ
unfolding three_bytes
encode_rune r =
    if ltb r 0x80
    then r ∷ []
    else if ltb r 0x800
    then (0xc0 + r / 64) ∷ (0x80 + r % 64) ∷ []
    else if in_range 0xd800 0xdfff r
    then three_bytes rune_error
    else if ltb r 0x10000
    then three_bytes r
    else if ltb r 0x110000
    then (0xf0 + r / 262144) ∷ (0x80 + r / 4096 % 64) ∷ (0x80 + r / 64 % 64) ∷ (0x80 + r % 64) ∷ []
    else three_bytes rune_error

-- `string(runes)`
unfoldable pub string_of_runes : List ℕ → List ℕ
unfolding encode_rune
string_of_runes [] = []
string_of_runes (r ∷ rs) = encode_rune r ++ string_of_runes rs

-- The lowest and highest second byte that a first byte allows.
unfoldable pub second_lo : ℕ → ℕ
second_lo b =
    if leb b 0xe0 && leb 0xe0 b then 0xa0 else if leb b 0xf0 && leb 0xf0 b then 0x90 else 0x80

unfoldable pub second_hi : ℕ → ℕ
second_hi b =
    if leb b 0xed && leb 0xed b then 0x9f else if leb b 0xf4 && leb 0xf4 b then 0x8f else 0xbf

-- The first code point and its width, given the first four bytes; what is past the end is 0, which
-- continues nothing.
unfoldable pub decode_four : ℕ → ℕ → ℕ → ℕ → ℕ × ℕ
unfolding second_lo second_hi
decode_four b c d e =
    if ltb b 0x80
    then (b, 1)
    else if in_range 0xc2 0xdf b && is_continuation c
    then ((b - 0xc0) * 64 + (c - 0x80), 2)
    else if in_range 0xe0 0xef b && in_range (second_lo b) (second_hi b) c && is_continuation d
    then ((b - 0xe0) * 4096 + (c - 0x80) * 64 + (d - 0x80), 3)
    else if in_range 0xf0 0xf4 b
        && in_range (second_lo b) (second_hi b) c
        && is_continuation d
        && is_continuation e
    then ((b - 0xf0) * 262144 + (c - 0x80) * 4096 + (d - 0x80) * 64 + (e - 0x80), 4)
    else (rune_error, 1)

unfoldable pub decode_rune : List ℕ → ℕ × ℕ
unfolding decode_four
decode_rune s = decode_four (get_or s 0 0) (get_or s 1 0) (get_or s 2 0) (get_or s 3 0)

runes_loop : ℕ → List ℕ → List ℕ
runes_loop zero s = []
runes_loop (suc fuel) [] = []
runes_loop (suc fuel) (b ∷ bs) =
    let (r, width) = decode_rune (b ∷ bs) in r ∷ runes_loop fuel (drop width (b ∷ bs))

-- `[]rune(s)`: every round takes a byte at least, so as many rounds as bytes are enough.
unfoldable pub runes : List ℕ → List ℕ
unfolding runes_loop decode_rune
runes s = runes_loop (length s) s

pub decode_one : (r c d e : ℕ) → r < 0x80 → decode_four r c d e ≡ (r, 1)
unfolding decode_four
decode_one r c d e h = ground arith

pub decode_two :
    (r d e : ℕ) → 0x80 ≤ r → r < 0x800 → decode_four (0xc0 + r / 64) (0x80 + r % 64) d e ≡ (r, 2)
unfolding decode_four
decode_two r d e lo hi = ground arith

pub decode_three :
    (r e : ℕ)
    → 0x800 ≤ r
    → r < 0x10000
    → IsRune r
    → decode_four (0xe0 + r / 4096) (0x80 + r / 64 % 64) (0x80 + r % 64) e ≡ (r, 3)
unfolding decode_four
decode_three r e lo hi h = ground arith

pub decode_last :
    (r : ℕ)
    → 0x10000 ≤ r
    → r < 0x110000
    → decode_four (0xf0 + r / 262144) (0x80 + r / 4096 % 64) (0x80 + r / 64 % 64) (0x80 + r % 64)
      ≡ (r, 4)
unfolding decode_four
decode_last r lo hi = ground arith

-- A code point as a case of `encode_rune`, with what `decode_rune` makes of it.
pub record Reads (r : ℕ) (rest : List ℕ) : Type 0 where
  pub head : ℕ
  pub tail : List ℕ
  pub written : encode_rune r ≡ head ∷ tail
  pub read : decode_rune (head ∷ (tail ++ rest)) ≡ (r, suc (length tail))

pub reads : (r : ℕ) (rest : List ℕ) → IsRune r → Reads r rest
unfolding encode_rune decode_rune
reads r rest h = elim (Bool-cases (ltb r 0x80)) [
  | inl one ↦ record {
    head = r;
    tail = [];
    written = ground arith;
    read = decode_one r (get_or rest 0 0) (get_or rest 1 0) (get_or rest 2 0) (ground arith);
  }
  | inr more ↦ elim (Bool-cases (ltb r 0x800)) [
    | inl two ↦ record {
      head = 0xc0 + r / 64;
      tail = (0x80 + r % 64) ∷ [];
      written = ground arith;
      read = decode_two r (get_or rest 0 0) (get_or rest 1 0) (ground arith) (ground arith);
    }
    | inr more' ↦ elim (Bool-cases (ltb r 0x10000)) [
      | inl three ↦ record {
        head = 0xe0 + r / 4096;
        tail = (0x80 + r / 64 % 64) ∷ (0x80 + r % 64) ∷ [];
        written = ground arith;
        read = decode_three r (get_or rest 0 0) (ground arith) (ground arith) h;
      }
      | inr four ↦ record {
        head = 0xf0 + r / 262144;
        tail = (0x80 + r / 4096 % 64) ∷ (0x80 + r / 64 % 64) ∷ (0x80 + r % 64) ∷ [];
        written = ground arith;
        read = decode_last r (ground arith) (ground arith);
      }
    ]
  ]
]

runes_loop_step :
    (fuel b r : ℕ) (bs rest : List ℕ) {width : ℕ}
    → decode_rune (b ∷ (bs ++ rest)) ≡ (r, width)
    → suc (length bs) ≡ width
    → runes_loop (suc fuel) (b ∷ (bs ++ rest)) ≡ r ∷ runes_loop fuel rest
unfolding runes_loop
runes_loop_step fuel b r bs rest e w =
    rw e (ap (λ t. r ∷ runes_loop fuel t) (drop-append (b ∷ bs) rest _ w))

runes_loop-string :
    (fuel : ℕ) (rs : List ℕ)
    → All IsRune rs
    → length (string_of_runes rs) ≤ fuel
    → runes_loop fuel (string_of_runes rs) ≡ rs
unfolding string_of_runes
runes_loop-string zero [] h hf = unfold runes_loop in refl
runes_loop-string (suc fuel) [] h hf = unfold runes_loop in refl
runes_loop-string zero (r ∷ rs) h hf =
    let x = reads r [] h.0 in
    absurd (omega (arith, ap length x.written, length-append (encode_rune r) (string_of_runes rs)))
runes_loop-string (suc fuel) (r ∷ rs) h hf =
    let s = string_of_runes rs in
    let x = reads r s h.0 in
    ap (λ t. runes_loop (suc fuel) (t ++ s)) x.written
    ∙ runes_loop_step fuel x.head r x.tail s x.read refl
    ∙ ap (λ t. r ∷ t)
        (runes_loop-string fuel rs h.1
          (omega (arith, ap length x.written, length-append (encode_rune r) s)))

-- `[]rune` reads back the code points that `string` wrote.
pub runes-string : (rs : List ℕ) → All IsRune rs → runes (string_of_runes rs) ≡ rs
unfolding runes
runes-string rs h = runes_loop-string _ rs h (omega arith)
