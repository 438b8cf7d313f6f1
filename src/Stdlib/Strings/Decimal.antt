-- ===== src/Stdlib/Strings/Decimal.antt =====
-- A number that is printed in decimal is read back.
use go_tari_lib.Common.{
  ℕ, zero, suc, ◌+◌, ◌-◌, ◌*◌, ◌/◌, ◌%◌, ◌≤◌, ◌<◌, ◌≡◌, ◌≢◌, refl, ap, ◌∙◌, Bool, true, false, ◌||◌,
  ltb, ◌==◌, if◌then◌else◌, arith, Option, some, none, List, [], ◌∷◌, ◌++◌, All, All-append,
}
use go_tari_lib.Stdlib.Strings.{parse_uint16_loop, parse_uint16, contains_byte}
use go_tari_lib.P2p.Hashing.{decimal_loop, decimal}

-- One more digit.
abbrev next_digit : ℕ → ℕ → Option ℕ
next_digit c n =
    if ltb c 48 || ltb 57 c
    then none
    else if ltb 65535 (n * 10 + (c - 48))
    then none
    else some (n * 10 + (c - 48))

abbrev then_digit : ℕ → Option ℕ → Option ℕ
then_digit c none = none
then_digit c (some n) = next_digit c n

parse_uint16_loop-append :
    (n : ℕ) (s : List ℕ) (c : ℕ)
    → parse_uint16_loop n (s ++ (c ∷ [])) ≡ then_digit c (parse_uint16_loop n s)
parse_uint16_loop-append n [] c = refl
parse_uint16_loop-append n (d ∷ s) c =
    through (ltb d 48 || ltb 57 d) (ltb 65535 (n * 10 + (d - 48)))
      (parse_uint16_loop (n * 10 + (d - 48)) (s ++ (c ∷ [])))
      (parse_uint16_loop (n * 10 + (d - 48)) s) (parse_uint16_loop-append (n * 10 + (d - 48)) s c)
  where
    through :
        (a b : Bool) (more less : Option ℕ)
        → more ≡ then_digit c less
        → (if a then none else if b then none else more)
          ≡ then_digit c (if a then none else if b then none else less)
    through true b more less h = refl
    through false true more less h = refl
    through false false more less h = h

abbrev limit : ℕ → ℕ
limit zero = 10
limit (suc left) = 10 * limit left

last_digit : (p : ℕ) → p ≤ 65535 → next_digit (48 + p % 10) (p / 10) ≡ some p
last_digit p h = ground arith

one_digit : (p : ℕ) → p < 10 → next_digit (48 + p) 0 ≡ some p
one_digit p h = ground arith

parse_uint16_loop-decimal_loop :
    (left p : ℕ) → p ≤ 65535 → p < limit left → parse_uint16_loop 0 (decimal_loop left p) ≡ some p
parse_uint16_loop-decimal_loop zero p h k =
    parse_uint16_loop-append 0 [] (48 + p % 10)
    ∙ ap (λ q. next_digit (48 + q) 0) small
    ∙ one_digit p k
  where
    small : p % 10 ≡ p
    small = omega arith
parse_uint16_loop-decimal_loop (suc left) p h k =
    by_size (ltb p 10) refl
      (λ q. parse_uint16_loop-decimal_loop left (p / 10) (omega arith) (omega arith))
  where
    higher : List ℕ
    higher = decimal_loop left (p / 10)

    by_size :
        (b : Bool)
        → ltb p 10 ≡ b
        → (Unit {0} → parse_uint16_loop 0 higher ≡ some (p / 10))
        → parse_uint16_loop 0 (if b then (48 + p) ∷ [] else higher ++ ((48 + p % 10) ∷ [])) ≡ some p
    by_size true e ih = parse_uint16_loop-append 0 [] (48 + p) ∙ one_digit p (ground arith)
    by_size false e ih =
        parse_uint16_loop-append 0 higher (48 + p % 10)
        ∙ ap (then_digit (48 + p % 10)) (ih tt)
        ∙ last_digit p h

abbrev IsDigit : ℕ → Type 0
IsDigit c = (48 ≤ c) × (c ≤ 57)

decimal_loop_digits : (left p : ℕ) → All IsDigit (decimal_loop left p)
decimal_loop_digits zero p = ((omega arith, omega arith), tt)
decimal_loop_digits (suc left) p = by_size (ltb p 10) refl (decimal_loop_digits left (p / 10))
  where
    by_size :
        (b : Bool)
        → ltb p 10 ≡ b
        → All IsDigit (decimal_loop left (p / 10))
        → All IsDigit
            (if b then (48 + p) ∷ [] else decimal_loop left (p / 10) ++ ((48 + p % 10) ∷ []))
    by_size true e ih = ((omega arith, ground arith), tt)
    by_size false e ih =
        All-append IsDigit (decimal_loop left (p / 10)) ((48 + p % 10) ∷ []) ih
          ((omega arith, omega arith), tt)

digits_without :
    (sep : ℕ) (s : List ℕ)
    → ((c : ℕ) → IsDigit c → (c == sep) ≡ false)
    → All IsDigit s
    → contains_byte sep s ≡ false
digits_without sep [] h k = refl
digits_without sep (c ∷ s) h (d, k) = rw (h c d) (digits_without sep s h k)

-- Neither a slash nor a colon.
pub decimal_without_slash : (p : ℕ) → contains_byte 47 (decimal p) ≡ false
unfolding decimal
decimal_without_slash p =
    digits_without 47 (decimal_loop 20 p) (λ c (l, u). ground arith) (decimal_loop_digits 20 p)

pub decimal_without_colon : (p : ℕ) → contains_byte 58 (decimal p) ≡ false
unfolding decimal
decimal_without_colon p =
    digits_without 58 (decimal_loop 20 p) (λ c (l, u). ground arith) (decimal_loop_digits 20 p)

not_empty :
    (s : List ℕ) (p : ℕ) → (s ≢ []) → parse_uint16_loop 0 s ≡ some p → parse_uint16 s ≡ some p
unfolding parse_uint16
not_empty [] p n h = absurd (n refl)
not_empty (c ∷ s) p n h = h

decimal_not_empty : (p : ℕ) → decimal p ≢ []
unfolding decimal
decimal_not_empty p = by_size (ltb p 10) (decimal_loop 19 (p / 10))
  where
    snoc : (s : List ℕ) (c : ℕ) → s ++ (c ∷ []) ≢ []
    snoc [] c = λ h. ground arith
    snoc (d ∷ s) c = λ h. ground arith

    by_size :
        (b : Bool) (higher : List ℕ)
        → (if b then (48 + p) ∷ [] else higher ++ ((48 + p % 10) ∷ [])) ≢ []
    by_size true higher = snoc [] (48 + p)
    by_size false higher = snoc higher (48 + p % 10)

-- A number of 16 bits is read from its decimal digits.
pub parse_uint16-decimal : (p : ℕ) → p ≤ 65535 → parse_uint16 (decimal p) ≡ some p
unfolding decimal
parse_uint16-decimal p h =
    not_empty (decimal p) p (decimal_not_empty p)
      (parse_uint16_loop-decimal_loop 20 p h (omega arith))
