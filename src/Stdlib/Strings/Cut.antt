-- ===== src/Stdlib/Strings/Cut.antt =====
-- Cutting a text at a byte.
use go_tari_lib.Common.{
  ℕ, ◌≡◌, refl, ap, Bool, true, false, ◌==◌, if◌then◌else◌, arith, some, none, List, [], ◌∷◌, ◌++◌,
}
use go_tari_lib.Stdlib.Strings.{contains_byte, split, cut_last, before}

contains_none :
    (sep c : ℕ) (s : List ℕ)
    → contains_byte sep (c ∷ s) ≡ false
    → ((c == sep) ≡ false) × (contains_byte sep s ≡ false)
contains_none sep c s h = by_test (c == sep) h
  where
    by_test :
        (b : Bool)
        → (if b then true else contains_byte sep s) ≡ false
        → (b ≡ false) × (contains_byte sep s ≡ false)
    by_test true k = cc
    by_test false k = (refl, k)

-- A text without the byte is one part.
pub split_one : (sep : ℕ) (s : List ℕ) → contains_byte sep s ≡ false → split sep s ≡ s ∷ []
split_one sep [] h = refl
split_one sep (c ∷ s) h =
    let (other, rest) = contains_none sep c s h in rw other (ap (before c) (split_one sep s rest))

-- The first part ends at the first such byte.
pub split-append :
    (sep : ℕ) (s t : List ℕ)
    → contains_byte sep s ≡ false
    → split sep (s ++ (sep ∷ t)) ≡ s ∷ split sep t
split-append sep [] t h = rw same refl
  where
    same : (sep == sep) ≡ true
    same = ground arith
split-append sep (c ∷ s) t h =
    let (other, rest) = contains_none sep c s h in
    rw other (ap (before c) (split-append sep s t rest))

cut_last-none : (sep : ℕ) (s : List ℕ) → contains_byte sep s ≡ false → cut_last sep s ≡ none
cut_last-none sep [] h = refl
cut_last-none sep (c ∷ s) h =
    let (other, rest) = contains_none sep c s h in rw (cut_last-none sep s rest) (rw other refl)

-- The cut is before the rest that has no such byte.
pub cut_last-append :
    (sep : ℕ) (s t : List ℕ)
    → contains_byte sep t ≡ false
    → cut_last sep (s ++ (sep ∷ t)) ≡ some (s, t)
cut_last-append sep [] t h = rw (cut_last-none sep t h) (rw same refl)
  where
    same : (sep == sep) ≡ true
    same = ground arith
cut_last-append sep (c ∷ s) t h = rw (cut_last-append sep s t h) refl

-- Where the first text has no such byte, it is looked for in the second.
pub contains_byte-append :
    (sep : ℕ) (s t : List ℕ)
    → contains_byte sep s ≡ false
    → contains_byte sep (s ++ t) ≡ contains_byte sep t
contains_byte-append sep [] t h = refl
contains_byte-append sep (c ∷ s) t h =
    let (other, rest) = contains_none sep c s h in rw other (contains_byte-append sep s t rest)
