-- ===== src/P2p/IdentitySignature.antt =====
-- p2p/identity_signature.go. The scalars and points are those of github.com/gtank/ristretto255 and the hash
-- that of golang.org/x/crypto/blake2b, parameters.
pub mod Challenge
pub mod Schnorr
use go_tari_lib.Common.{
  ℕ, ◌%◌, ◌^◌, ◌<◌, ◌≡◌, refl, sym, ap, ◌∙◌, Bool, true, Option, some, none, List, [], ◌∷◌, ◌++◌,
  arith, length, All, append_cancel,
}
use go_tari_lib.Common.Result.{Result, ok, err, ◌>>=◌, some_or_fail}
use go_tari_lib.Common.Bits.{IsByte}
use go_tari_lib.Stdlib.Endian.{
  put_uint32_le, put_uint64_le, put_uint32_le_injective, put_uint64_le_injective,
}
use go_tari_lib.P2p.Errors.{Error, scalar_undecodable, point_undecodable, no_signature}
use go_tari_lib.P2p.Hashing.{
  new_domain_separated_hasher, chain_all, chain_all_lem, transcript, transcript_injective, IsSlice,
}
use go_tari_lib.P2p.Ristretto.{Ristretto, KeyPair}
use go_tari_lib.P2p.Rpc.Messages.{IdentitySignature}
use go_tari_lib.P2p.Rpc.Negotiation.{bytes_equal, bytes_equal_iff}

-- "com.tari.comms.core.peer_manager"
abbrev pub comms_core_peer_manager_domain_name : List ℕ
comms_core_peer_manager_domain_name =
    99 ∷ 111 ∷ 109 ∷ 46 ∷ 116 ∷ 97 ∷ 114 ∷ 105 ∷ 46 ∷ 99 ∷ 111 ∷ 109 ∷ 109 ∷ 115 ∷ 46 ∷ 99 ∷ 111
    ∷ 114 ∷ 101 ∷ 46 ∷ 112 ∷ 101 ∷ 101 ∷ 114 ∷ 95 ∷ 109 ∷ 97 ∷ 110 ∷ 97 ∷ 103 ∷ 101 ∷ 114 ∷ []

abbrev pub comms_core_peer_manager_domain_version : ℕ
comms_core_peer_manager_domain_version = 1

-- "identity_signature"
abbrev pub identity_signature_label : List ℕ
identity_signature_label =
    105 ∷ 100 ∷ 101 ∷ 110 ∷ 116 ∷ 105 ∷ 116 ∷ 121 ∷ 95 ∷ 115 ∷ 105 ∷ 103 ∷ 110 ∷ 97 ∷ 116 ∷ 117
    ∷ 114 ∷ 101 ∷ []

abbrev pub identity_signature_version : ℕ
identity_signature_version = 0

unfoldable pub new_comms_core_peer_manager_hasher : List ℕ → List ℕ
new_comms_core_peer_manager_hasher label =
    new_domain_separated_hasher comms_core_peer_manager_domain_name
      comms_core_peer_manager_domain_version label

-- The chunks that are chained. The time is given by the 64 bits of the signed number.
abbrev pub challenge_chunks : List ℕ → List ℕ → ℕ → ℕ → ℕ → List (List ℕ) → List (List ℕ)
challenge_chunks static_public_key public_nonce version updated_at features addresses =
    static_public_key
    ∷ public_nonce
    ∷ (version ∷ [])
    ∷ put_uint64_le updated_at
    ∷ put_uint32_le features
    ∷ addresses

-- What is written to the hash.
unfoldable pub challenge_bytes : List ℕ → List ℕ → ℕ → ℕ → ℕ → List (List ℕ) → List ℕ
challenge_bytes static_public_key public_nonce version updated_at features addresses =
    chain_all (new_comms_core_peer_manager_hasher identity_signature_label)
      (challenge_chunks static_public_key public_nonce version updated_at features addresses)

module _ {Scalar Point : Type 0} (group : Ristretto Scalar Point)
    (blake2b_512 : List ℕ → List ℕ) where
  unfoldable pub construct_identity_signature_challenge :
      List ℕ → List ℕ → ℕ → ℕ → ℕ → List (List ℕ) → List ℕ
  construct_identity_signature_challenge static_public_key public_nonce version updated_at features
        addresses =
      blake2b_512
        (challenge_bytes static_public_key public_nonce version updated_at features addresses)

  -- The nonce's keys and the time are what `GenerateRistrettoKeypair` and the clock gave.
  unfoldable pub build_our_identity_signature :
      KeyPair → KeyPair → ℕ → ℕ → List (List ℕ) → Result Error IdentitySignature
  build_our_identity_signature static_keypair nonce_keypair updated_at features addresses = do
    secret_key ← some_or_fail (group.scalar_of_bytes static_keypair.private_key) scalar_undecodable
    secret_nonce ← some_or_fail (group.scalar_of_bytes nonce_keypair.private_key) scalar_undecodable
    let challenge =
        construct_identity_signature_challenge static_keypair.public_key nonce_keypair.public_key
          identity_signature_version updated_at features addresses
    e ← some_or_fail (group.uniform_scalar challenge) scalar_undecodable
    let s = group.add (group.multiply e secret_key) secret_nonce
    ok (record {
      version = identity_signature_version;
      signature = group.scalar_bytes s;
      public_nonce = nonce_keypair.public_key;
      updated_at = updated_at;
    })

  unfoldable pub verify_identity_signature :
      List ℕ → ℕ → List (List ℕ) → Option IdentitySignature → Result Error Bool
  verify_identity_signature static_public_key features addresses none = err no_signature
  verify_identity_signature static_public_key features addresses (some sig) = do
    let challenge =
        construct_identity_signature_challenge static_public_key sig.public_nonce
          (sig.version % 2 ^ 8) sig.updated_at features addresses
    e ← some_or_fail (group.uniform_scalar challenge) scalar_undecodable
    s ← some_or_fail (group.scalar_of_bytes sig.signature) scalar_undecodable
    r ← some_or_fail (group.point_of_bytes sig.public_nonce) point_undecodable
    p ← some_or_fail (group.point_of_bytes static_public_key) point_undecodable
    let lhs = group.scalar_base_mult s
    let rhs = group.add_points r (group.scalar_mult e p)
    ok (bytes_equal (group.point_bytes lhs) (group.point_bytes rhs))
