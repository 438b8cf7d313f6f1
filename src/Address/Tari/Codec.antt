-- ===== src/Address/Tari/Codec.antt =====
-- `Bytes` and `FromBytes` of an address: inverse on valid addresses, with every other slice refused,
-- among them every slice with one byte changed.
use mathlib.Core.Path.{subst}
use go_tari_lib.Common.{
  ℕ, ◌+◌, ◌≤◌, ◌≡◌, ◌≢◌, sym, ap, ◌∙◌, ◌↔◌, Bool, true, inl, inr, ◌&&◌, ◌||◌, List, ◌∷◌, ◌++◌,
  arith, length, leb, ◌==◌, length-append, Bool-cases,
}
use go_tari_lib.Common.Bits.{IsByte}
use go_tari_lib.Common.Result.{ok, err, ◌>>=◌, bind-eq-ok, ok-injective}
use go_tari_lib.Address.Errors.{invalid_checksum}
use go_tari_lib.Address.Dammsum.{validate_checksum}
use go_tari_lib.Address.Dammsum.Detect.{
  IsBytes, IsBytes-parts, validate_checksum_substitution, validate_checksum_transposition,
}
use go_tari_lib.Address.Single.{single_payload, single_bytes, single_address_from_bytes}
use go_tari_lib.Address.Single.Codec.{
  single_checksum_passes, single_bytes-IsBytes, length-single_bytes, single_from-bytes,
  single_from_bytes_iff,
}
use go_tari_lib.Address.Dual.{dual_payload, dual_bytes, dual_address_from_bytes}
use go_tari_lib.Address.Dual.Codec.{
  dual_checksum_passes, dual_bytes-IsBytes, length-dual_bytes, dual_from-bytes, dual_from_bytes_iff,
}
use go_tari_lib.Address.Tari.{
  Address, IsAddress, dual_valid, single_valid, of_dual, of_single, bytes, from_bytes,
}

-- The sizes that `FromBytes` lets through.
abbrev fits : List ℕ → Bool
fits b = length b == 35 || leb 67 (length b) && leb (length b) (67 + 256)

module _ (is_canonical : List ℕ → Bool) where
  pub bytes-IsBytes : (a : Address) → IsAddress is_canonical a → IsBytes (bytes a)
  unfolding bytes
  bytes-IsBytes a (dual_valid d v) = dual_bytes-IsBytes is_canonical d v
  bytes-IsBytes a (single_valid s v) = single_bytes-IsBytes is_canonical s v

  dispatch_single :
      (b : List ℕ)
      → length b ≡ 35
      → from_bytes is_canonical b
        ≡ (single_address_from_bytes is_canonical b >>= λ s. ok (of_single s))
  unfolding from_bytes
  dispatch_single b h = ground arith

  dispatch_dual :
      (b : List ℕ)
      → 67 ≤ length b
      → length b ≤ 323
      → from_bytes is_canonical b ≡ (dual_address_from_bytes is_canonical b >>= λ d. ok (of_dual d))
  unfolding from_bytes
  dispatch_dual b lo hi = ground arith

  from_bytes_size : (b : List ℕ) {a : Address} → from_bytes is_canonical b ≡ ok a → fits b ≡ true
  unfolding from_bytes
  from_bytes_size b e = ground arith

  -- Reading back what was written.
  pub from-bytes :
      (a : Address) → IsAddress is_canonical a → from_bytes is_canonical (bytes a) ≡ ok a
  unfolding bytes
  from-bytes a (single_valid s v) =
      dispatch_single (single_bytes s) (length-single_bytes is_canonical s v)
      ∙ ap (λ r. r >>= λ t. ok (of_single t)) (single_from-bytes is_canonical s v)
  from-bytes a (dual_valid d v) =
      let n = length-dual_bytes is_canonical d v in
      dispatch_dual (dual_bytes d) (omega (arith, n)) (omega (arith, n, v.memo_fits))
      ∙ ap (λ r. r >>= λ t. ok (of_dual t)) (dual_from-bytes is_canonical d v)

  read_single :
      (b : List ℕ) (a : Address)
      → IsBytes b
      → (single_address_from_bytes is_canonical b >>= λ s. ok (of_single s)) ≡ ok a
      → IsAddress is_canonical a × (bytes a ≡ b)
  read_single b a h e =
      let (s, read, whole) = bind-eq-ok _ _ _ e in
      let (v, same) = (single_from_bytes_iff is_canonical b s h).0 read in
      subst (λ t. IsAddress is_canonical t × (bytes t ≡ b)) (ok-injective _ a whole)
        (single_valid s v, unfold bytes in same)

  read_dual :
      (b : List ℕ) (a : Address)
      → IsBytes b
      → (dual_address_from_bytes is_canonical b >>= λ d. ok (of_dual d)) ≡ ok a
      → IsAddress is_canonical a × (bytes a ≡ b)
  read_dual b a h e =
      let (d, read, whole) = bind-eq-ok _ _ _ e in
      let (v, same) = (dual_from_bytes_iff is_canonical b d h).0 read in
      subst (λ t. IsAddress is_canonical t × (bytes t ≡ b)) (ok-injective _ a whole)
        (dual_valid d v, unfold bytes in same)

  pub read :
      (b : List ℕ) (a : Address)
      → IsBytes b
      → from_bytes is_canonical b ≡ ok a
      → IsAddress is_canonical a × (bytes a ≡ b)
  read b a h e =
      let size = from_bytes_size b e in
      elim (Bool-cases (length b == 35)) [
        | inl short ↦ read_single b a h (sym (dispatch_single b (ground (arith, short))) ∙ e)
        | inr long ↦
            read_dual b a h
              (sym (dispatch_dual b (ground (arith, long, size)) (ground (arith, long, size))) ∙ e)
      ]

  -- For a slice of bytes, `FromBytes` returns an address exactly when the address is a valid one and its
  -- `Bytes` are the slice. So an address has one encoding, and the decoder accepts nothing else.
  pub from_bytes_iff :
      (b : List ℕ) (a : Address)
      → IsBytes b
      → (from_bytes is_canonical b ≡ ok a) ↔ (IsAddress is_canonical a × (bytes a ≡ b))
  from_bytes_iff b a h =
      (read b a h, λ (v, e). ap (from_bytes is_canonical) (sym e) ∙ from-bytes a v)

  -- Whatever has the size of an address and a wrong checksum.
  bad_checksum :
      (b : List ℕ)
      → fits b ≡ true
      → validate_checksum b ≡ err invalid_checksum
      → from_bytes is_canonical b ≡ err invalid_checksum
  unfolding from_bytes single_address_from_bytes dual_address_from_bytes
  bad_checksum b size e = ground (arith, size, e)

  -- Bytes of the same number, of a valid address.
  size_of_other :
      (a : Address) (b : List ℕ)
      → IsAddress is_canonical a
      → length b ≡ length (bytes a)
      → fits b ≡ true
  unfolding bytes
  size_of_other a b (single_valid s v) e = ground (arith, e, length-single_bytes is_canonical s v)
  size_of_other a b (dual_valid d v) e =
      ground (arith, e, length-dual_bytes is_canonical d v, v.memo_fits)

  passes :
      (a : Address) → IsAddress is_canonical a → (d : List ℕ) × (validate_checksum (bytes a) ≡ ok d)
  unfolding bytes
  passes a (single_valid s v) = (single_payload s, single_checksum_passes is_canonical s v)
  passes a (dual_valid d v) = (dual_payload d, dual_checksum_passes is_canonical d v)

  module _ (a : Address) (front : List ℕ) (v : IsAddress is_canonical a) where
    -- One byte of a valid address's `Bytes` replaced by another byte, wherever it stands: `FromBytes` fails,
    -- and with `ErrInvalidChecksum`.
    pub from_bytes_substitution :
        (x y : ℕ) (back : List ℕ)
        → bytes a ≡ front ++ (x ∷ back)
        → IsByte y
        → x ≢ y
        → from_bytes is_canonical (front ++ (y ∷ back)) ≡ err invalid_checksum
    from_bytes_substitution x y back e hy ne =
        let (hf, hr) = IsBytes-parts front (x ∷ back) (subst IsBytes e (bytes-IsBytes a v)) in
        let size : length _ ≡ length (bytes a) =
          omega
            (arith, ap length e, length-append front (x ∷ back), length-append front (y ∷ back)) in
        bad_checksum _ (size_of_other a (front ++ (y ∷ back)) v size) (
          validate_checksum_substitution front back x y hf hr.1 hr.0 hy ne
            (ap validate_checksum (sym e) ∙ (passes a v).1))

    -- Two neighbouring bytes of a valid address's `Bytes` that differ, exchanged, wherever they stand:
    -- `FromBytes` fails, and with `ErrInvalidChecksum`.
    pub from_bytes_transposition :
        (x y : ℕ) (back : List ℕ)
        → bytes a ≡ front ++ (x ∷ y ∷ back)
        → x ≢ y
        → from_bytes is_canonical (front ++ (y ∷ x ∷ back)) ≡ err invalid_checksum
    from_bytes_transposition x y back e ne =
        let (hf, hr) = IsBytes-parts front (x ∷ y ∷ back) (subst IsBytes e (bytes-IsBytes a v)) in
        let size : length _ ≡ length (bytes a) = omega (
          arith,
          ap length e,
          length-append front (x ∷ y ∷ back),
          length-append front (y ∷ x ∷ back),
        ) in
        bad_checksum _ (size_of_other a (front ++ (y ∷ x ∷ back)) v size) (
          validate_checksum_transposition front back x y hf hr.1.1 hr.0 hr.1.0 ne
            (ap validate_checksum (sym e) ∙ (passes a v).1))
