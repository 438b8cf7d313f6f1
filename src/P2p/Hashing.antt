-- ===== src/P2p/Hashing.antt =====
-- p2p/hashing.go. BLAKE2b (golang.org/x/crypto) is a parameter, a function of all the bytes written to it;
-- a hasher is the list of these bytes.
use go_tari_lib.Common.{
  ℕ, zero, suc, ◌/◌, ◌%◌, ◌^◌, ◌<◌, ◌≡◌, refl, sym, ap, ◌∙◌, List, [], ◌∷◌, ◌++◌, arith, ltb,
  if◌then◌else◌, length, All, append_cancel, append-nil, append_assoc, ◌+◌,
}
use go_tari_lib.Stdlib.Endian.{put_uint32_le, put_uint64_le, put_uint64_le_injective}

-- `strconv.FormatUint(n, 10)`; a number below 2^64 has twenty digits at most, one for each turn.
abbrev pub decimal_loop : ℕ → ℕ → List ℕ
decimal_loop zero n = (48 + n % 10) ∷ []
decimal_loop (suc left) n =
    let higher = decimal_loop left (n / 10) in
    if ltb n 10 then (48 + n) ∷ [] else higher ++ ((48 + n % 10) ∷ [])

unfoldable pub decimal : ℕ → List ℕ
decimal n = decimal_loop 20 n

-- "{domain}.v{version}.{label}", or "{domain}.v{version}" for an empty label
unfoldable pub domain_separation_tag : List ℕ → ℕ → List ℕ → List ℕ
domain_separation_tag domain version [] = domain ++ (46 ∷ 118 ∷ decimal version)
domain_separation_tag domain version (c ∷ label) =
    domain ++ (46 ∷ 118 ∷ (decimal version ++ (46 ∷ c ∷ label)))

-- `writeLengthPrefixedTo`, and `Chain` of both hashers
unfoldable pub write_length_prefixed_to : List ℕ → List ℕ → List ℕ
write_length_prefixed_to digest chunk = (digest ++ put_uint64_le (length chunk % 2 ^ 64)) ++ chunk

-- `NewDomainSeparatedHasher` and `NewDomainSeparatedHasher512`
unfoldable pub new_domain_separated_hasher : List ℕ → ℕ → List ℕ → List ℕ
new_domain_separated_hasher domain version label =
    write_length_prefixed_to [] (domain_separation_tag domain version label)

abbrev pub chain_all : List ℕ → List (List ℕ) → List ℕ
chain_all hasher [] = hasher
chain_all hasher (chunk ∷ chunks) = chain_all (write_length_prefixed_to hasher chunk) chunks

-- The length of a slice in Go.
abbrev pub IsSlice : List ℕ → Type 0
IsSlice chunk = length chunk < 2 ^ 64

-- What is written for chunks, one after the other.
abbrev pub transcript : List (List ℕ) → List ℕ
transcript [] = []
transcript (chunk ∷ chunks) = (put_uint64_le (length chunk % 2 ^ 64) ++ chunk) ++ transcript chunks

pub chain_all_lem :
    (hasher : List ℕ) (chunks : List (List ℕ))
    → chain_all hasher chunks ≡ hasher ++ transcript chunks
unfolding write_length_prefixed_to
chain_all_lem hasher [] = sym (append-nil hasher)
chain_all_lem hasher (chunk ∷ chunks) =
    chain_all_lem ((hasher ++ put_uint64_le (length chunk % 2 ^ 64)) ++ chunk) chunks
    ∙ ap (λ l. l ++ transcript chunks)
        (append_assoc hasher (put_uint64_le (length chunk % 2 ^ 64)) chunk)
    ∙ append_assoc hasher (put_uint64_le (length chunk % 2 ^ 64) ++ chunk) (transcript chunks)

eight : (n : ℕ) → length (put_uint64_le n) ≡ 8
unfolding put_uint64_le put_uint32_le
eight n = refl

-- Different sequences of slices are written differently: no two of them collide before the hash function,
-- however their bytes are cut into chunks.
pub transcript_injective :
    (xs ys : List (List ℕ))
    → All IsSlice xs
    → All IsSlice ys
    → transcript xs ≡ transcript ys
    → xs ≡ ys
unfolding put_uint64_le put_uint32_le
transcript_injective [] [] h k e = refl
transcript_injective [] (y ∷ ys) h k e = absurd (ground arith)
transcript_injective (x ∷ xs) [] h k e = absurd (ground arith)
transcript_injective (x ∷ xs) (y ∷ ys) (h, hs) (k, ks) e =
    let (chunk, rest) =
      append_cancel (put_uint64_le (length x % 2 ^ 64)) (put_uint64_le (length y % 2 ^ 64))
        (x ++ transcript xs) (y ++ transcript ys)
        (eight (length x % 2 ^ 64) ∙ sym (eight (length y % 2 ^ 64))) e in
    let lengths = put_uint64_le_injective (length x % 2 ^ 64) (length y % 2 ^ 64) chunk in
    let (same, others) = append_cancel x y (transcript xs) (transcript ys) (omega arith) rest in
    rw same (rw (transcript_injective xs ys hs ks others) refl)
