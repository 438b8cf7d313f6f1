-- ===== src/Stdlib/Text.antt =====
-- Go strings as lists of bytes: literals, `==`, and `strings.ToLower`.
use Prim.Native.Char.{code}
use Prim.Native.String.{String}
use go_tari_lib.Common.{
  ℕ, ◌+◌, ◌≡◌, refl, Bool, true, false, ◌&&◌, List, [], ◌∷◌, map, arith, leb, ◌==◌, if◌then◌else◌,
}
use go_tari_lib.Stdlib.Utf8.{runes, string_of_runes}

-- The code points of a literal: its bytes, if it is ASCII.
abbrev pub codes : String → List ℕ
codes String.[] = []
codes (String.◌∷◌ c s) = code c ∷ codes s

infix 50 ◌===◌
unfoldable pub ◌===◌ : List ℕ → List ℕ → Bool
[] === [] = true
[] === (y ∷ ys) = false
(x ∷ xs) === [] = false
(x ∷ xs) === (y ∷ ys) = x == y && xs === ys

pub ===_sound : (xs ys : List ℕ) → (xs === ys) ≡ true → xs ≡ ys
unfolding ◌===◌
===_sound [] [] h = refl
===_sound [] (y ∷ ys) h = cc
===_sound (x ∷ xs) [] h = cc
===_sound (x ∷ xs) (y ∷ ys) h = ground (arith, ===_sound xs ys)

pub ===_refl : (xs : List ℕ) → (xs === xs) ≡ true
unfolding ◌===◌
===_refl [] = refl
===_refl (x ∷ xs) = ground (arith, ===_refl xs)

-- `unicode.ToLower` up to the letters that have no ASCII letter on either side: those go to letters that
-- have none, so a comparison with an ASCII text does not see them. U+0130 and U+212A do.
lower_rune : ℕ → ℕ
lower_rune r =
    if leb b'A' r && leb r b'Z'
    then r + 32
    else if r == 0x130
    then b'i'
    else if r == 0x212a
    then b'k'
    else r

unfoldable pub to_lower : List ℕ → List ℕ
unfolding lower_rune
to_lower s = string_of_runes (map lower_rune (runes s))

pub ===_comm : (xs ys : List ℕ) → (xs === ys) ≡ (ys === xs)
unfolding ◌===◌
===_comm [] [] = refl
===_comm [] (y ∷ ys) = refl
===_comm (x ∷ xs) [] = refl
===_comm (x ∷ xs) (y ∷ ys) = ground (arith, ===_comm xs ys)
