-- ===== src/Stdlib/Trim.antt =====
-- What `address.Parse` uses of package strings: `TrimSpace`, and `ReplaceAll` that takes out a byte.
pub mod Runes
use go_tari_lib.Common.{
  ℕ, zero, suc, ◌+◌, ◌-◌, ◌*◌, ◌/◌, ◌%◌, ◌≤◌, ◌<◌, ◌≡◌, refl, sym, ap, ◌∙◌, Bool, true, false, not,
  ◌||◌, List, [], ◌∷◌, ◌++◌, arith, ltb, ◌==◌, if◌then◌else◌, length, length-append, drop, All,
  append_assoc,
}
use go_tari_lib.Stdlib.Utf8.{
  IsRune, in_range, is_continuation, rune_error, decode_rune, string_of_runes,
}

-- `strings.ReplaceAll(s, c, "")` for one byte
unfoldable pub remove : ℕ → List ℕ → List ℕ
remove c [] = []
remove c (b ∷ s) = let rest = remove c s in if b == c then rest else b ∷ rest

abbrev pub reverse : List ℕ → List ℕ
reverse [] = []
reverse (x ∷ xs) = reverse xs ++ (x ∷ [])

-- `unicode.IsSpace`
unfoldable pub is_space : ℕ → Bool
is_space r =
    in_range 9 13 r
    || r == 0x20
    || r == 0x85
    || r == 0xa0
    || r == 0x1680
    || in_range 0x2000 0x200a r
    || in_range 0x2028 0x2029 r
    || r == 0x202f
    || r == 0x205f
    || r == 0x3000

whole : ℕ → ℕ × ℕ → ℕ × ℕ
whole n (r, width) = if width == n then (r, n) else (rune_error, 1)

-- `utf8.DecodeLastRune`, over the bytes from the last to the first: the last rune starts at the last
-- byte that continues nothing, if it has four bytes at most.
unfoldable pub decode_last_rune : List ℕ → ℕ × ℕ
unfolding whole
decode_last_rune [] = (rune_error, 0)
decode_last_rune (z ∷ []) = if ltb z 0x80 then (z, 1) else (rune_error, 1)
decode_last_rune (z ∷ y ∷ []) = if ltb z 0x80 then (z, 1) else whole 2 (decode_rune (y ∷ z ∷ []))
decode_last_rune (z ∷ y ∷ x ∷ []) =
    if ltb z 0x80
    then (z, 1)
    else if not (is_continuation y)
    then whole 2 (decode_rune (y ∷ z ∷ []))
    else whole 3 (decode_rune (x ∷ y ∷ z ∷ []))
decode_last_rune (z ∷ y ∷ x ∷ w ∷ rest) =
    if ltb z 0x80
    then (z, 1)
    else if not (is_continuation y)
    then whole 2 (decode_rune (y ∷ z ∷ []))
    else if not (is_continuation x)
    then whole 3 (decode_rune (x ∷ y ∷ z ∷ []))
    else whole 4 (decode_rune (w ∷ x ∷ y ∷ z ∷ []))

-- Runes are dropped as long as they are white space; each has one byte at least.
abbrev trim_loop : (List ℕ → ℕ × ℕ) → ℕ → List ℕ → List ℕ
trim_loop decode zero s = s
trim_loop decode (suc fuel) [] = []
trim_loop decode (suc fuel) (b ∷ s) =
    let (r, width) = decode (b ∷ s) in
    let rest = trim_loop decode fuel (drop width (b ∷ s)) in if is_space r then rest else b ∷ s

unfoldable pub trim_left : List ℕ → List ℕ
trim_left s = trim_loop decode_rune (length s) s

unfoldable pub trim_right : List ℕ → List ℕ
trim_right s = reverse (trim_loop decode_last_rune (length s) (reverse s))

-- `strings.TrimSpace(s)`
unfoldable pub trim_space : List ℕ → List ℕ
trim_space s = trim_right (trim_left s)
