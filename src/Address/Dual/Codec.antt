-- ===== src/Address/Dual/Codec.antt =====
-- `Bytes` and `DualAddressFromBytes` are inverse on valid addresses, and nothing else is accepted.
use mathlib.Core.Path.{subst}
use go_tari_lib.Common.{
  ℕ, ◌+◌, ◌-◌, ◌≤◌, ◌≡◌, refl, sym, ap, ◌∙◌, ◌↔◌, Bool, some, List, [], ◌∷◌, ◌++◌, append_assoc,
  arith, length, get_or, length-append, take, drop, slice, slice-append, ltb, ◌||◌,
  take-append-drop, length-take, length-drop, All-append,
}
use go_tari_lib.Common.Bits.{IsByte}
use go_tari_lib.Common.Result.{
  ok, bind-eq-ok, or_fail-eq-ok, some_or_fail-eq-ok, guard-eq-ok, ok-injective,
}
use go_tari_lib.Address.Network.{network_from_byte, network_from_byte_iff, IsNetwork-IsByte}
use go_tari_lib.Address.Features.{features_from_bits, features_from_bits_iff}
use go_tari_lib.Address.Pubkey.{
  public_key_from_canonical_bytes, public_key_from_canonical_bytes_iff,
}
use go_tari_lib.Address.Dammsum.{compute_checksum, validate_checksum}
use go_tari_lib.Address.Dammsum.Detect.{
  IsBytes, IsBytes-parts, validate-append_checksum, validate_checksum_iff, compute-IsByte,
}
use go_tari_lib.Address.Dual.{
  DualAddress, IsValidDual, dual_payload, dual_bytes, dual_address_from_bytes,
}

module _ (is_canonical : List ℕ → Bool) where
  dual_payload-IsBytes : (a : DualAddress) → IsValidDual is_canonical a → IsBytes (dual_payload a)
  dual_payload-IsBytes a v = (
    IsNetwork-IsByte a.network v.network_known,
    (
      omega (arith, v.features_known),
      All-append IsByte a.public_view_key _ v.view_key.1
          (All-append IsByte a.public_spend_key _ v.spend_key.1 v.memo_bytes),
    ),
  )

  pub dual_bytes-IsBytes : (a : DualAddress) → IsValidDual is_canonical a → IsBytes (dual_bytes a)
  unfolding dual_bytes
  dual_bytes-IsBytes a v =
      All-append IsByte (dual_payload a) _ (dual_payload-IsBytes a v)
        (compute-IsByte _ (dual_payload-IsBytes a v), tt)

  length-dual_payload :
      (a : DualAddress)
      → IsValidDual is_canonical a
      → length (dual_payload a) ≡ 66 + length a.memo_field_payment_id
  length-dual_payload a v = omega (
    arith,
    length-append a.public_view_key (a.public_spend_key ++ a.memo_field_payment_id),
    length-append a.public_spend_key a.memo_field_payment_id,
    v.view_key.0,
    v.spend_key.0,
  )

  pub length-dual_bytes :
      (a : DualAddress)
      → IsValidDual is_canonical a
      → length (dual_bytes a) ≡ 67 + length a.memo_field_payment_id
  unfolding dual_bytes
  length-dual_bytes a v = omega (
    arith,
    length-append (dual_payload a) (compute_checksum (dual_payload a) ∷ []),
    length-dual_payload a v,
  )

  -- The keys and the payment id in bytes laid out as those of a dual address.
  keys_of_layout :
      (n f : ℕ) (view spend memo checksum : List ℕ)
      → length view ≡ 32
      → length spend ≡ 32
      → (slice 2 34 ((n ∷ f ∷ (view ++ (spend ++ memo))) ++ checksum) ≡ view)
        × (slice 34 66 ((n ∷ f ∷ (view ++ (spend ++ memo))) ++ checksum) ≡ spend)
        × (slice 66 (66 + length memo) ((n ∷ f ∷ (view ++ (spend ++ memo))) ++ checksum) ≡ memo)
  keys_of_layout n f view spend memo checksum hv hs = (
    ap (slice 2 34) whole ∙ slice-append (n ∷ f ∷ []) view rest 2 34 refl (omega arith),
    ap (slice 34 66) whole
        ∙ slice-append (n ∷ f ∷ view) spend (memo ++ checksum) 34 66 (omega arith) (omega arith),
    ap (slice 66 (66 + length memo))
          (whole ∙ sym (append_assoc (n ∷ f ∷ view) spend (memo ++ checksum)))
        ∙ slice-append (n ∷ f ∷ (view ++ spend)) memo checksum 66 (66 + length memo)
            (omega (arith, length-append view spend)) (omega (arith, length-append view spend)),
  )
    where
      rest : List ℕ
      rest = spend ++ (memo ++ checksum)

      whole : n ∷ f ∷ ((view ++ (spend ++ memo)) ++ checksum) ≡ n ∷ f ∷ (view ++ rest)
      whole =
          ap (λ t. n ∷ f ∷ t)
            (append_assoc view (spend ++ memo) checksum
              ∙ ap (λ t. view ++ t) (append_assoc spend memo checksum))

  module _ (a : DualAddress) (v : IsValidDual is_canonical a) where
    slices :
        (slice 2 34 (dual_bytes a) ≡ a.public_view_key)
        × (slice 34 66 (dual_bytes a) ≡ a.public_spend_key)
        × (slice 66 (66 + length a.memo_field_payment_id) (dual_bytes a) ≡ a.memo_field_payment_id)
    unfolding dual_bytes
    slices =
        keys_of_layout a.network a.features a.public_view_key a.public_spend_key
          a.memo_field_payment_id (compute_checksum (dual_payload a) ∷ []) v.view_key.0
          v.spend_key.0

    memo_slice : slice 66 (length (dual_bytes a) - 1) (dual_bytes a) ≡ a.memo_field_payment_id
    memo_slice =
        ap (λ (j : ℕ). slice 66 j (dual_bytes a)) (omega (arith, length-dual_bytes a v)) ∙ slices.2

    pub dual_checksum_passes : validate_checksum (dual_bytes a) ≡ ok (dual_payload a)
    unfolding dual_bytes
    dual_checksum_passes =
        validate-append_checksum (dual_payload a) (dual_payload-IsBytes a v) (omega arith)

    first_bytes : (get_or (dual_bytes a) 0 0 ≡ a.network) × (get_or (dual_bytes a) 1 0 ≡ a.features)
    unfolding dual_bytes
    first_bytes = (refl, refl)

    pub dual_from-bytes : dual_address_from_bytes is_canonical (dual_bytes a) ≡ ok a
    unfolding dual_address_from_bytes
    dual_from-bytes = ground (
      arith,
      length-dual_bytes a v,
      v.memo_fits,
      dual_checksum_passes,
      slices.0,
      slices.1,
      memo_slice,
      first_bytes.0,
      first_bytes.1,
      (network_from_byte_iff a.network a.network).1 (refl, v.network_known),
      (features_from_bits_iff a.features a.features (omega (arith, v.features_known))).1
          (refl, v.features_known),
      (public_key_from_canonical_bytes_iff is_canonical a.public_view_key a.public_view_key).1
          (refl, v.view_key.0, v.view_canonical),
      (public_key_from_canonical_bytes_iff is_canonical a.public_spend_key a.public_spend_key).1
          (refl, v.spend_key.0, v.spend_canonical),
    )

  record Layout (r : List ℕ) : Type 0 where
    view : List ℕ
    spend : List ℕ
    memo : List ℕ
    laid_out : r ≡ view ++ (spend ++ memo)
    view_size : length view ≡ 32
    spend_size : length spend ≡ 32

  layout : (r : List ℕ) → 64 ≤ length r → Layout r
  layout r h =
      let r' = drop 32 r in
      record {
        view = take 32 r;
        spend = take 32 r';
        memo = drop 32 r';
        laid_out = sym (ap (λ t. take 32 r ++ t) (take-append-drop 32 r') ∙ take-append-drop 32 r);
        view_size = omega (arith, length-take 32 r);
        spend_size = omega (arith, length-take 32 r', length-drop 32 r);
      }

  -- What each step of a successful `DualAddressFromBytes` has found.
  record Accepted (b : List ℕ) (a : DualAddress) : Type 0 where
    size_lo : 67 ≤ length b
    size_hi : length b ≤ 323
    checked : (d : List ℕ) × (validate_checksum b ≡ ok d)
    network : network_from_byte (get_or b 0 0) ≡ ok a.network
    features : features_from_bits (get_or b 1 0) ≡ some a.features
    view : public_key_from_canonical_bytes is_canonical (slice 2 34 b) ≡ ok a.public_view_key
    spend : public_key_from_canonical_bytes is_canonical (slice 34 66 b) ≡ ok a.public_spend_key
    memo : a.memo_field_payment_id ≡ slice 66 (length b - 1) b

  accepted :
      (b : List ℕ) (a : DualAddress) → dual_address_from_bytes is_canonical b ≡ ok a → Accepted b a
  unfolding dual_address_from_bytes
  accepted b a e =
      let (sized, after_size) = guard-eq-ok (ltb (length b) 67 || ltb 323 (length b)) _ _ e in
      let (d, checked, after_checksum) = bind-eq-ok _ _ _ after_size in
      let (n, network, after_network) = bind-eq-ok _ _ _ after_checksum in
      let (f, features, after_features) = bind-eq-ok _ _ _ after_network in
      let (p, view, after_view) = bind-eq-ok _ _ _ after_features in
      let (q, spend, done) = bind-eq-ok _ _ _ after_view in
      let whole = ok-injective _ a done in
      record {
        size_lo = ground (arith, sized);
        size_hi = ground (arith, sized);
        checked = (d, or_fail-eq-ok _ _ checked);
        network = or_fail-eq-ok _ _ network ∙ ap (λ t. ok t.network) whole;
        features = some_or_fail-eq-ok _ _ features ∙ ap (λ t. some t.features) whole;
        view = or_fail-eq-ok _ _ view ∙ ap (λ t. ok t.public_view_key) whole;
        spend = or_fail-eq-ok _ _ spend ∙ ap (λ t. ok t.public_spend_key) whole;
        memo = sym (ap (λ t. t.memo_field_payment_id) whole);
      }

  module _ (b : List ℕ) (a : DualAddress) (h : IsBytes b) (x : Accepted b a) where
    parts_in_order :
        (n f : ℕ) (r : List ℕ)
        → Layout r
        → b ≡ (n ∷ f ∷ r) ++ (compute_checksum (n ∷ f ∷ r) ∷ [])
        → IsValidDual is_canonical a × (dual_payload a ≡ n ∷ f ∷ r)
    parts_in_order n f r l e =
        let c : List ℕ = compute_checksum (n ∷ f ∷ r) ∷ [] in
        let (hd, hc) = IsBytes-parts (n ∷ f ∷ r) c (subst IsBytes e h) in
        let (hv, hr) = IsBytes-parts l.view (l.spend ++ l.memo) (subst IsBytes l.laid_out hd.1.1) in
        let (hs, hm) = IsBytes-parts l.spend l.memo hr in
        let size : length b ≡ 67 + length l.memo = omega (
          arith,
          ap length e,
          length-append r c,
          ap length l.laid_out,
          length-append l.view (l.spend ++ l.memo),
          length-append l.spend l.memo,
          l.view_size,
          l.spend_size,
        ) in
        let whole : b ≡ (n ∷ f ∷ (l.view ++ (l.spend ++ l.memo))) ++ c =
          e ∙ ap (λ t. (n ∷ f ∷ t) ++ c) l.laid_out in
        let cuts = keys_of_layout n f l.view l.spend l.memo c l.view_size l.spend_size in
        let network = (network_from_byte_iff n a.network).0 (rw e at x.network) in
        let features = (features_from_bits_iff f a.features hd.1.0).0 (rw e at x.features) in
        let view =
          (public_key_from_canonical_bytes_iff is_canonical l.view a.public_view_key).0
            (rw (ap (slice 2 34) whole ∙ cuts.0) at x.view) in
        let spend =
          (public_key_from_canonical_bytes_iff is_canonical l.spend a.public_spend_key).0
            (rw (ap (slice 34 66) whole ∙ cuts.1) at x.spend) in
        let memo : a.memo_field_payment_id ≡ l.memo =
          x.memo
          ∙ ap (λ (j : ℕ). slice 66 j b) (omega (arith, size))
          ∙ ap (slice 66 (66 + length l.memo)) whole
          ∙ cuts.2 in
        (
          record {
            network_known = rw network.0 network.1;
            features_known = rw features.0 features.1;
            view_key = rw view.0 (view.1, hv);
            view_canonical = rw view.0 view.2;
            spend_key = rw spend.0 (spend.1, hs);
            spend_canonical = rw spend.0 spend.2;
            memo_fits = rw memo (omega (arith, size, x.size_hi));
            memo_bytes = rw memo hm;
          },
          rw (network.0, features.0, view.0, spend.0, memo) (ap (λ t. n ∷ f ∷ t) (sym l.laid_out)),
        )

    parts_of_data :
        (d : List ℕ)
        → (1 ≤ length d) × (b ≡ d ++ (compute_checksum d ∷ []))
        → IsValidDual is_canonical a × (dual_payload a ≡ d)
    parts_of_data [] (long, e) = absurd (omega arith)
    parts_of_data (n ∷ []) (long, e) = absurd (omega (arith, ap length e, x.size_lo))
    parts_of_data (n ∷ f ∷ r) (long, e) =
        let c : List ℕ = compute_checksum (n ∷ f ∷ r) ∷ [] in
        parts_in_order n f r (layout r (omega (arith, ap length e, length-append r c, x.size_lo))) e

  -- For a slice of bytes, `DualAddressFromBytes` returns an address exactly when the address is valid and its
  -- `Bytes` are the slice.
  pub dual_from_bytes_iff :
      (b : List ℕ) (a : DualAddress)
      → IsBytes b
      → (dual_address_from_bytes is_canonical b ≡ ok a)
        ↔ (IsValidDual is_canonical a × (dual_bytes a ≡ b))
  dual_from_bytes_iff b a h = (
    λ e.
        let x = accepted b a e in
        let split = (validate_checksum_iff b x.checked.0 h).0 x.checked.1 in
        let (v, payload) = parts_of_data b a h x x.checked.0 split in
        (v, unfold dual_bytes in ap (λ t. t ++ (compute_checksum t ∷ [])) payload ∙ sym split.1),
    λ (v, e). ap (dual_address_from_bytes is_canonical) (sym e) ∙ dual_from-bytes a v,
  )
