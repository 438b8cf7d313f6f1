-- ===== src/P2p/IdentitySignature/Schnorr.antt =====
-- p2p/identity_signature.go: a signature that was built verifies.
use go_tari_lib.Common.{ℕ, ◌≡◌, refl, ap, ◌∙◌, true, some, List, length}
use go_tari_lib.Common.Result.{ok}
use go_tari_lib.P2p.Rpc.Messages.{IdentitySignature}
use go_tari_lib.P2p.Rpc.Negotiation.{bytes_equal_iff}
use go_tari_lib.P2p.Ristretto.{Ristretto, IsGroup, key_pair}
use go_tari_lib.P2p.IdentitySignature.{
  challenge_bytes, construct_identity_signature_challenge, build_our_identity_signature,
  verify_identity_signature,
}

module _ {Scalar Point : Type 0} (group : Ristretto Scalar Point) (law : IsGroup group)
    (blake2b_512 : List ℕ → List ℕ) where
  -- s·B = R + e·P for s = e·k + r
  equation :
      (e k r : Scalar)
      → group.scalar_base_mult (group.add (group.multiply e k) r)
        ≡ group.add_points
            (group.scalar_base_mult r)
            (group.scalar_mult e (group.scalar_base_mult k))
  equation e k r =
      law.base_add (group.multiply e k) r
      ∙ ap (λ p. group.add_points p (group.scalar_base_mult r)) (law.base_multiply e k)
      ∙ law.add_comm (group.scalar_mult e (group.scalar_base_mult k)) (group.scalar_base_mult r)

  -- Given the laws of the group and a hash of 64 bytes: for every key, nonce, time, features and addresses,
  -- a signature is built, and it verifies against the public key with the same features and addresses.
  pub verify-build_identity_signature :
      ((b : List ℕ) → length (blake2b_512 b) ≡ 64)
      → (k r : Scalar) (updated_at features : ℕ) (addresses : List (List ℕ))
      → (sig : IdentitySignature) × (build_our_identity_signature group blake2b_512
            (key_pair group k)
            (key_pair group r)
            updated_at
            features
            addresses
          ≡ ok sig)
        × (verify_identity_signature group blake2b_512
              (key_pair group k).public_key
              features
              addresses
              (some sig)
            ≡ ok true)
  unfolding build_our_identity_signature verify_identity_signature
      construct_identity_signature_challenge
  verify-build_identity_signature sized k r updated_at features addresses =
      let (e, u) = law.uniform challenge (
        sized (
          challenge_bytes (key_pair group k).public_key (key_pair group r).public_key 0 updated_at
            features addresses)) in
      let sig : IdentitySignature = record {
        version = 0;
        signature = group.scalar_bytes (group.add (group.multiply e k) r);
        public_nonce = (key_pair group r).public_key;
        updated_at = updated_at;
      } in
      (
        sig,
        rw (law.canonical_scalar k) (rw (law.canonical_scalar r) (rw u refl)),
        rw u (
            rw (law.canonical_scalar (group.add (group.multiply e k) r)) (
              rw (law.canonical_point (group.scalar_base_mult r)) (
                rw (law.canonical_point (group.scalar_base_mult k)) (
                  ap ok (
                    (bytes_equal_iff
                        (group.point_bytes
                          (group.scalar_base_mult (group.add (group.multiply e k) r)))
                        (group.point_bytes (
                          group.add_points (group.scalar_base_mult r)
                            (group.scalar_mult e (group.scalar_base_mult k))))).1
                      (ap group.point_bytes (equation e k r))))))),
      )
    where
      challenge : List ℕ
      challenge = blake2b_512 (
          challenge_bytes (key_pair group k).public_key (key_pair group r).public_key 0 updated_at
            features addresses)
