-- ===== src/Stdlib/Strings.antt =====
-- What the code uses of packages strings, strconv and encoding/binary on bytes of texts.
pub mod Decimal
pub mod Cut
use go_tari_lib.Common.{
  ℕ, zero, suc, ◌+◌, ◌-◌, ◌*◌, ◌/◌, ◌%◌, ◌≤◌, ◌<◌, ◌≡◌, ◌≢◌, refl, sym, ap, ◌∙◌, Bool, true, false,
  ◌||◌, ltb, ◌==◌, if◌then◌else◌, arith, Option, some, none, List, [], ◌∷◌, ◌++◌, drop, length, All,
}

-- `strings.HasPrefix(s, prefix)`
abbrev pub has_prefix : List ℕ → List ℕ → Bool
has_prefix s [] = true
has_prefix [] (p ∷ prefix) = false
has_prefix (c ∷ s) (p ∷ prefix) = let rest = has_prefix s prefix in if c == p then rest else false

-- `strings.TrimPrefix(s, prefix)`
unfoldable pub trim_prefix : List ℕ → List ℕ → List ℕ
trim_prefix s prefix = if has_prefix s prefix then drop (length prefix) s else s

-- `strings.Contains(s, c)` for one byte
abbrev pub contains_byte : ℕ → List ℕ → Bool
contains_byte sep [] = false
contains_byte sep (c ∷ s) = let rest = contains_byte sep s in if c == sep then true else rest

abbrev before : ℕ → List (List ℕ) → List (List ℕ)
before c [] = (c ∷ []) ∷ []
before c (part ∷ parts) = (c ∷ part) ∷ parts

-- `strings.Split(s, sep)` for one byte
abbrev pub split : ℕ → List ℕ → List (List ℕ)
split sep [] = [] ∷ []
split sep (c ∷ s) = let parts = split sep s in if c == sep then [] ∷ parts else before c parts

-- The texts before and behind the last such byte, which `strings.LastIndex` finds.
abbrev pub cut_last : ℕ → List ℕ → Option (List ℕ × List ℕ)
cut_last sep [] = none
cut_last sep (c ∷ s) = elim (cut_last sep s) [
  | some (front, back) ↦ some (c ∷ front, back)
  | none ↦ if c == sep then some ([], s) else none
]

-- `strconv.ParseUint(s, 10, 16)`: digits only, one at least, and no more than 16 bits.
abbrev pub parse_uint16_loop : ℕ → List ℕ → Option ℕ
parse_uint16_loop n [] = some n
parse_uint16_loop n (c ∷ s) =
    let next = n * 10 + (c - 48) in
    let rest = parse_uint16_loop next s in
    if ltb c 48 || ltb 57 c then none else if ltb 65535 next then none else rest

unfoldable pub parse_uint16 : List ℕ → Option ℕ
parse_uint16 [] = none
parse_uint16 (c ∷ s) = parse_uint16_loop 0 (c ∷ s)

-- `binary.AppendUvarint`; a number of 64 bits has ten groups of seven bits at most.
abbrev pub uvarint_loop : ℕ → ℕ → List ℕ
uvarint_loop zero x = x % 256 ∷ []
uvarint_loop (suc left) x =
    let rest = uvarint_loop left (x / 128) in if ltb x 128 then x ∷ [] else (x % 128 + 128) ∷ rest

unfoldable pub append_uvarint : List ℕ → ℕ → List ℕ
append_uvarint buf x = buf ++ uvarint_loop 9 x

some_injective : (a b : ℕ) → ◌≡◌ {A = Option ℕ} (some a) (some b) → a ≡ b
some_injective a b h = cc

none_is_some : (a : ℕ) → ◌≡◌ {A = Option ℕ} none (some a) → ⊥
none_is_some a h = cc

guard_some :
    (b : Bool) (m : Option ℕ) (v : ℕ)
    → (if b then none else m) ≡ some v
    → (b ≡ false) × (m ≡ some v)
guard_some true m v e = absurd (none_is_some v e)
guard_some false m v e = (refl, e)

parse_uint16_loop_bounded :
    (n : ℕ) (s : List ℕ) (v : ℕ) → n ≤ 65535 → parse_uint16_loop n s ≡ some v → v ≤ 65535
parse_uint16_loop_bounded n [] v h e = omega (arith, h, some_injective n v e)
parse_uint16_loop_bounded n (c ∷ s) v h e =
    let next = n * 10 + (c - 48) in
    let rest = parse_uint16_loop next s in
    let (_, digit) =
      guard_some (ltb c 48 || ltb 57 c) (if ltb 65535 next then none else rest) v e in
    let (fits, read) = guard_some (ltb 65535 next) rest v digit in
    parse_uint16_loop_bounded next s v (ground arith) read

-- What is read fits in 16 bits.
pub parse_uint16_bounded : (s : List ℕ) (v : ℕ) → parse_uint16 s ≡ some v → v ≤ 65535
unfolding parse_uint16
parse_uint16_bounded [] v e = absurd (none_is_some v e)
parse_uint16_bounded (c ∷ s) v e = parse_uint16_loop_bounded 0 (c ∷ s) v (omega arith) e
