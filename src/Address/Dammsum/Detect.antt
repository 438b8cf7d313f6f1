-- ===== src/Address/Dammsum/Detect.antt =====
-- What the checksum of an address detects, and what a valid checksum byte is.
use go_tari_lib.Common.{
  ℕ, zero, suc, ◌-◌, ◌≤◌, ◌≡◌, ◌≢◌, refl, sym, ap, ◌∙◌, List, [], ◌∷◌, ◌++◌, bit_xor, arith, length,
  length-append, take, take-append, All, ◌↔◌,
}
use go_tari_lib.Common.Bits.{IsByte, xor-IsByte, xor_comm, xor_assoc, xor_self, xor-injective}
use go_tari_lib.Common.Bits.{eq_of_xor_zero, xor_exchange}
use go_tari_lib.Common.Result.{ok, err}
use mathlib.Core.Path.{subst}
use go_tari_lib.Address.Errors.{invalid_checksum}
use go_tari_lib.Address.Dammsum.{double, checksum_loop, compute_checksum, validate_checksum}
use go_tari_lib.Address.Dammsum.Linear.{
  double-injective, double-IsByte, double-xor, double_fixed, double_zero,
}

abbrev pub IsBytes : List ℕ → Type 0
IsBytes = All IsByte

round-IsByte : (r d : ℕ) → IsByte r → IsByte d → IsByte (double (bit_xor r d))
round-IsByte r d hr hd = double-IsByte _ (xor-IsByte r d hr hd)

pub checksum_loop-IsByte :
    (r : ℕ) (ds : List ℕ) → IsByte r → IsBytes ds → IsByte (checksum_loop r ds)
unfolding checksum_loop
checksum_loop-IsByte r [] hr h = hr
checksum_loop-IsByte r (d ∷ ds) hr (hd, h) =
    checksum_loop-IsByte (double (bit_xor r d)) ds (round-IsByte r d hr hd) h

pub checksum_loop-append :
    (r : ℕ) (ds es : List ℕ) → checksum_loop r (ds ++ es) ≡ checksum_loop (checksum_loop r ds) es
unfolding checksum_loop
checksum_loop-append r [] es = refl
checksum_loop-append r (d ∷ ds) es = checksum_loop-append (double (bit_xor r d)) ds es

-- The digits that follow never make two states meet.
checksum_loop-injective :
    (r s : ℕ) (ds : List ℕ)
    → IsByte r
    → IsByte s
    → IsBytes ds
    → checksum_loop r ds ≡ checksum_loop s ds
    → r ≡ s
unfolding checksum_loop
checksum_loop-injective r s [] hr hs h e = e
checksum_loop-injective r s (d ∷ ds) hr hs (hd, h) e =
    let rounds =
      checksum_loop-injective (double (bit_xor r d)) (double (bit_xor s d)) ds
        (round-IsByte r d hr hd) (round-IsByte s d hs hd) h e in
    let sums =
      double-injective (bit_xor r d) (bit_xor s d) (xor-IsByte r d hr hd) (xor-IsByte s d hs hd)
        rounds in
    xor-injective d r s (xor_comm d r ∙ sums ∙ xor_comm s d)

-- Two rounds in either order of their digits.
two_rounds :
    (r x y : ℕ)
    → IsByte r
    → IsByte x
    → IsByte y
    → double (bit_xor (double (bit_xor r x)) y) ≡ double (bit_xor (double (bit_xor r y)) x)
    → x ≡ y
two_rounds r x y hr hx hy e = eq_of_xor_zero x y (double_fixed _ (xor-IsByte x y hx hy) fixed)
  where
    opened : bit_xor (double (bit_xor r x)) y ≡ bit_xor (double (bit_xor r y)) x
    opened =
        double-injective _ _ (xor-IsByte _ y (round-IsByte r x hr hx) hy)
          (xor-IsByte _ x (round-IsByte r y hr hy) hx) e

    linear : bit_xor (double r) (bit_xor (double x) y) ≡ bit_xor (double r) (bit_xor (double y) x)
    linear =
        sym (xor_assoc (double r) (double x) y)
        ∙ ap (λ t. bit_xor t y) (sym (double-xor r x hr hx))
        ∙ opened
        ∙ ap (λ t. bit_xor t x) (double-xor r y hr hy)
        ∙ xor_assoc (double r) (double y) x

    crossed : bit_xor (double x) y ≡ bit_xor (double y) x
    crossed = xor-injective (double r) _ _ linear

    fixed : double (bit_xor x y) ≡ bit_xor x y
    fixed = double-xor x y hx hy ∙ xor_exchange (double x) (double y) x y crossed

pub IsBytes-parts : (xs ys : List ℕ) → IsBytes (xs ++ ys) → IsBytes xs × IsBytes ys
IsBytes-parts [] ys h = (tt, h)
IsBytes-parts (x ∷ xs) ys (p, h) = let (hx, hy) = IsBytes-parts xs ys h in ((p, hx), hy)

module _ (front back : List ℕ) (x y : ℕ) (hf : IsBytes front) (hb : IsBytes back) where
  abbrev start : ℕ
  start = checksum_loop 0 front

  start-IsByte : IsByte start
  start-IsByte = checksum_loop-IsByte 0 front (omega arith) hf

  substitution_changes :
      IsByte x
      → IsByte y
      → compute_checksum (front ++ (x ∷ back)) ≡ compute_checksum (front ++ (y ∷ back))
      → x ≡ y
  unfolding compute_checksum
  substitution_changes hx hy e = xor-injective start x y sums
    where
      loops :
          checksum_loop (double (bit_xor start x)) back
          ≡ checksum_loop (double (bit_xor start y)) back
      loops =
          unfold checksum_loop in
          sym (checksum_loop-append 0 front (x ∷ back))
          ∙ e
          ∙ checksum_loop-append 0 front (y ∷ back)

      sums : bit_xor start x ≡ bit_xor start y
      sums =
          double-injective _ _ (xor-IsByte start x start-IsByte hx)
            (xor-IsByte start y start-IsByte hy)
            (checksum_loop-injective _ _ back (round-IsByte start x start-IsByte hx)
              (round-IsByte start y start-IsByte hy) hb loops)

  transposition_changes :
      IsByte x
      → IsByte y
      → compute_checksum (front ++ (x ∷ y ∷ back)) ≡ compute_checksum (front ++ (y ∷ x ∷ back))
      → x ≡ y
  unfolding compute_checksum
  transposition_changes hx hy e = two_rounds start x y start-IsByte hx hy rounds
    where
      rounds :
          double (bit_xor (double (bit_xor start x)) y)
          ≡ double (bit_xor (double (bit_xor start y)) x)
      rounds =
          checksum_loop-injective _ _ back
            (round-IsByte _ y (round-IsByte start x start-IsByte hx) hy)
            (round-IsByte _ x (round-IsByte start y start-IsByte hy) hx) hb
            (unfold checksum_loop in
              sym (checksum_loop-append 0 front (x ∷ y ∷ back))
              ∙ e
              ∙ checksum_loop-append 0 front (y ∷ x ∷ back))

-- A slice is accepted exactly when it is long enough and its checksum is 0.
validate_zero :
    (bytes : List ℕ) {d : List ℕ} → validate_checksum bytes ≡ ok d → compute_checksum bytes ≡ 0
unfolding validate_checksum
validate_zero bytes e = ground arith

validate_nonzero :
    (bytes : List ℕ) → compute_checksum bytes ≢ 0 → validate_checksum bytes ≡ err invalid_checksum
unfolding validate_checksum
validate_nonzero bytes h = ground arith

-- A slice of bytes that passes `validate_checksum` fails with `invalid_checksum` once any one of its
-- bytes, the checksum byte included, is replaced by another byte.
pub validate_checksum_substitution :
    (front back : List ℕ) (x y : ℕ) {d : List ℕ}
    → IsBytes front
    → IsBytes back
    → IsByte x
    → IsByte y
    → x ≢ y
    → validate_checksum (front ++ (x ∷ back)) ≡ ok d
    → validate_checksum (front ++ (y ∷ back)) ≡ err invalid_checksum
validate_checksum_substitution front back x y hf hb hx hy ne e = validate_nonzero _ (λ zero_y.
    ne (substitution_changes front back x y hf hb hx hy (validate_zero _ e ∙ sym zero_y)))

-- A slice of bytes that passes `validate_checksum` fails with `invalid_checksum` once two neighbouring
-- bytes that differ are exchanged, wherever they stand.
pub validate_checksum_transposition :
    (front back : List ℕ) (x y : ℕ) {d : List ℕ}
    → IsBytes front
    → IsBytes back
    → IsByte x
    → IsByte y
    → x ≢ y
    → validate_checksum (front ++ (x ∷ y ∷ back)) ≡ ok d
    → validate_checksum (front ++ (y ∷ x ∷ back)) ≡ err invalid_checksum
validate_checksum_transposition front back x y hf hb hx hy ne e = validate_nonzero _ (λ zero_y.
    ne (transposition_changes front back x y hf hb hx hy (validate_zero _ e ∙ sym zero_y)))

-- The checksum of data followed by one byte is 0 only for the data's own checksum.
compute-append_byte :
    (bytes : List ℕ) (c : ℕ)
    → IsBytes bytes
    → IsByte c
    → (compute_checksum (bytes ++ (c ∷ [])) ≡ 0) ↔ (c ≡ compute_checksum bytes)
unfolding compute_checksum
compute-append_byte bytes c h hc = (forth, back)
  where
    state : ℕ
    state = checksum_loop 0 bytes

    last : checksum_loop 0 (bytes ++ (c ∷ [])) ≡ double (bit_xor state c)
    last = unfold checksum_loop in checksum_loop-append 0 bytes (c ∷ [])

    forth : checksum_loop 0 (bytes ++ (c ∷ [])) ≡ 0 → c ≡ state
    forth e = sym (
        eq_of_xor_zero state c (
          double-injective _ 0
            (xor-IsByte state c (checksum_loop-IsByte 0 bytes (omega arith) h) hc) (omega arith)
            (sym last ∙ e ∙ sym double_zero)))

    back : c ≡ state → checksum_loop 0 (bytes ++ (c ∷ [])) ≡ 0
    back e = last ∙ ap (λ t. double (bit_xor state t)) e ∙ ap double (xor_self state) ∙ double_zero

take-append_byte : (xs : List ℕ) (c : ℕ) → take (length (xs ++ (c ∷ [])) - 1) (xs ++ (c ∷ [])) ≡ xs
take-append_byte xs c = take-append xs (c ∷ []) _ (omega (arith, length-append xs (c ∷ [])))

last_of : (n : ℕ) (xs : List ℕ) → length xs ≡ suc n → (c : ℕ) × (xs ≡ take n xs ++ (c ∷ []))
last_of n [] h = absurd (omega arith)
last_of zero (x ∷ []) h = (x, refl)
last_of zero (x ∷ y ∷ xs) h = absurd (omega arith)
last_of (suc n) (x ∷ xs) h = let (c, e) = last_of n xs (omega arith) in (c, ap (λ t. x ∷ t) e)

pub compute-IsByte : (bytes : List ℕ) → IsBytes bytes → IsByte (compute_checksum bytes)
unfolding compute_checksum
compute-IsByte bytes h = checksum_loop-IsByte 0 bytes (omega arith) h

validated_parts :
    (bytes d : List ℕ)
    → validate_checksum bytes ≡ ok d
    → (2 ≤ length bytes) × (d ≡ take (length bytes - 1) bytes)
unfolding validate_checksum
validated_parts bytes d e = ground arith

validated_split :
    (bytes d : List ℕ)
    → IsBytes bytes
    → validate_checksum bytes ≡ ok d
    → (1 ≤ length d) × (bytes ≡ d ++ (compute_checksum d ∷ []))
validated_split bytes d h e =
    let (long, cut) = validated_parts bytes d e in
    let (c, split) = last_of (length bytes - 1) bytes (omega arith) in
    let whole : bytes ≡ d ++ (c ∷ []) = split ∙ ap (λ t. t ++ (c ∷ [])) (sym cut) in
    let (hd, hc) = IsBytes-parts d (c ∷ []) (subst IsBytes whole h) in
    let sum =
      (compute-append_byte d c hd hc.0).0
        (ap compute_checksum (sym whole) ∙ validate_zero bytes e) in
    (omega (arith, ap length whole, length-append d (c ∷ [])), whole ∙ ap (λ t. d ++ (t ∷ [])) sum)

pub validate-append_checksum :
    (d : List ℕ)
    → IsBytes d
    → 1 ≤ length d
    → validate_checksum (d ++ (compute_checksum d ∷ [])) ≡ ok d
validate-append_checksum d h long =
    let c = compute_checksum d in
    unfold validate_checksum in
    ground (
      arith,
      (compute-append_byte d c h (compute-IsByte d h)).1 refl,
      length-append d (c ∷ []),
      take-append_byte d c,
    )

-- A slice of bytes passes `validate_checksum` and gives back the data `d` exactly when `d` has a byte at
-- least and the slice is `d` followed by the checksum of `d`.
pub validate_checksum_iff :
    (bytes d : List ℕ)
    → IsBytes bytes
    → (validate_checksum bytes ≡ ok d) ↔ ((1 ≤ length d) × (bytes ≡ d ++ (compute_checksum d ∷ [])))
validate_checksum_iff bytes d h = (
  validated_split bytes d h,
  λ (long, e).
      let (hd, hc) = IsBytes-parts d (compute_checksum d ∷ []) (subst IsBytes e h) in
      ap validate_checksum e ∙ validate-append_checksum d hd long,
)
