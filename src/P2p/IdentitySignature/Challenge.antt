-- ===== src/P2p/IdentitySignature/Challenge.antt =====
-- p2p/identity_signature.go: what the challenge attests to.
use go_tari_lib.Common.{ℕ, ◌≡◌, refl, sym, ◌∙◌, List, arith, All, append_cancel}
use go_tari_lib.Stdlib.Endian.{
  put_uint32_le, put_uint64_le, put_uint32_le_injective, put_uint64_le_injective,
}
use go_tari_lib.P2p.Hashing.{chain_all_lem, transcript, transcript_injective, IsSlice}
use go_tari_lib.P2p.IdentitySignature.{
  challenge_chunks, challenge_bytes, new_comms_core_peer_manager_hasher, identity_signature_label,
}

chunks-IsSlice :
    (pk nonce : List ℕ) (version updated_at features : ℕ) (addresses : List (List ℕ))
    → IsSlice pk
    → IsSlice nonce
    → All IsSlice addresses
    → All IsSlice (challenge_chunks pk nonce version updated_at features addresses)
unfolding put_uint32_le put_uint64_le
chunks-IsSlice pk nonce version updated_at features addresses h k l =
    (h, (k, (omega arith, (omega arith, (omega arith, l)))))

apart :
    (pk nonce pk' nonce' : List ℕ) (version updated_at features version' updated_at' features' : ℕ)
    (addresses addresses' : List (List ℕ))
    → challenge_chunks pk nonce version updated_at features addresses
      ≡ challenge_chunks pk' nonce' version' updated_at' features' addresses'
    → (pk ≡ pk')
      × (nonce ≡ nonce')
      × (version ≡ version')
      × (updated_at ≡ updated_at')
      × (features ≡ features')
      × (addresses ≡ addresses')
apart pk nonce pk' nonce' version updated_at features version' updated_at' features' addresses
      addresses' e =
    ground (
      arith,
      put_uint32_le_injective features features',
      put_uint64_le_injective updated_at updated_at',
    )

-- For slices of any lengths that Go allows: two challenges are hashed from the same bytes only if they agree in the
-- public key, the nonce, the version, the time, the features and every address in its place.
pub challenge_bytes_injective :
    (pk nonce pk' nonce' : List ℕ) (version updated_at features version' updated_at' features' : ℕ)
    (addresses addresses' : List (List ℕ))
    → IsSlice pk
    → IsSlice nonce
    → All IsSlice addresses
    → IsSlice pk'
    → IsSlice nonce'
    → All IsSlice addresses'
    → challenge_bytes pk nonce version updated_at features addresses
      ≡ challenge_bytes pk' nonce' version' updated_at' features' addresses'
    → (pk ≡ pk')
      × (nonce ≡ nonce')
      × (version ≡ version')
      × (updated_at ≡ updated_at')
      × (features ≡ features')
      × (addresses ≡ addresses')
unfolding challenge_bytes
challenge_bytes_injective pk nonce pk' nonce' version updated_at features version' updated_at'
      features' addresses addresses' h k l h' k' l' e =
    let hasher = new_comms_core_peer_manager_hasher identity_signature_label in
    let chunks = challenge_chunks pk nonce version updated_at features addresses in
    let chunks' = challenge_chunks pk' nonce' version' updated_at' features' addresses' in
    let written = sym (chain_all_lem hasher chunks) ∙ e ∙ chain_all_lem hasher chunks' in
    let (same, tails) =
      append_cancel hasher hasher (transcript chunks) (transcript chunks') refl written in
    apart pk nonce pk' nonce' version updated_at features version' updated_at' features' addresses
      addresses'
      (transcript_injective chunks chunks'
        (chunks-IsSlice pk nonce version updated_at features addresses h k l)
        (chunks-IsSlice pk' nonce' version' updated_at' features' addresses' h' k' l') tails)
