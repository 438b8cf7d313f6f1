-- ===== src/Address/Base58/Parts.antt =====
-- The three parts of a base58 address are found again.
use go_tari_lib.Common.{ℕ, ◌<◌, ◌≡◌, refl, List, [], ◌∷◌, arith, length}
use go_tari_lib.Common.Result.{ok}
use go_tari_lib.Address.Dammsum.Detect.{IsBytes}
use go_tari_lib.Address.Base58.{Base58, IsBase58, decode_parts, encode_parts}

one_of_length : (xs : List ℕ) → length xs ≡ 1 → (x : ℕ) × (xs ≡ x ∷ [])
one_of_length [] h = absurd (omega arith)
one_of_length (x ∷ []) h = (x, refl)
one_of_length (x ∷ y ∷ xs) h = absurd (omega arith)

-- Each of the two leading bytes below 58 takes one character, so the split at the first two
-- characters gives the parts that were encoded.
pub decode-encode_parts :
    (c : Base58) (n f : ℕ) (rest : List ℕ)
    → IsBase58 c
    → n < 58
    → f < 58
    → IsBytes rest
    → decode_parts c (encode_parts c (n ∷ f ∷ rest)) ≡ ok (n ∷ f ∷ rest)
unfolding decode_parts encode_parts
decode-encode_parts c n f rest laws hn hf hr =
    let (x, ex) = one_of_length _ (laws.one_digit n hn) in
    let (y, ey) = one_of_length _ (laws.one_digit f hf) in
    let dn = laws.decode_encode (n ∷ []) (omega arith) in
    let df = laws.decode_encode (f ∷ []) (omega arith) in
    let dr = laws.decode_encode rest hr in ground (arith, ex, ey, dn, df, dr)
