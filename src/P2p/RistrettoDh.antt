-- ===== src/P2p/RistrettoDh.antt =====
-- p2p/ristretto_dh.go, and the derivation of its keys at the end of p2p/hashing.go. BLAKE2b-256 and the group
-- are parameters.
use go_tari_lib.Common.{
  ℕ, ◌≤◌, ◌≡◌, refl, sym, ap, ◌∙◌, false, not, Option, some, none, List, [], ◌∷◌, arith, ltb, ◌==◌,
  if◌then◌else◌, length, take, length-take,
}
use go_tari_lib.Common.Result.{Result, ok, err, ◌>>=◌, some_or_fail, guard-eq-ok, ok-injective}
use go_tari_lib.P2p.Errors.{
  Error, no_randomness, private_key_length, public_key_length, scalar_undecodable,
  point_undecodable,
}
use go_tari_lib.P2p.Hashing.{new_domain_separated_hasher, write_length_prefixed_to}
use go_tari_lib.P2p.Ristretto.{Ristretto, IsGroup, KeyPair, key_pair}

-- "com.tari.comms.core"
abbrev pub comms_core_hash_domain_name : List ℕ
comms_core_hash_domain_name =
    99 ∷ 111 ∷ 109 ∷ 46 ∷ 116 ∷ 97 ∷ 114 ∷ 105 ∷ 46 ∷ 99 ∷ 111 ∷ 109 ∷ 109 ∷ 115 ∷ 46 ∷ 99 ∷ 111
    ∷ 114 ∷ 101 ∷ []

abbrev pub comms_core_hash_domain_version : ℕ
comms_core_hash_domain_version = 0

-- "noise.dh"
abbrev pub noise_dh_kdf_label : List ℕ
noise_dh_kdf_label = 110 ∷ 111 ∷ 105 ∷ 115 ∷ 101 ∷ 46 ∷ 100 ∷ 104 ∷ []

unfoldable pub new_comms_core_hasher : List ℕ → List ℕ
new_comms_core_hasher label =
    new_domain_separated_hasher comms_core_hash_domain_name comms_core_hash_domain_version label

unfoldable pub noise_dh_kdf : (List ℕ → List ℕ) → List ℕ → List ℕ
noise_dh_kdf blake2b_256 shared_secret =
    blake2b_256 (write_length_prefixed_to (new_comms_core_hasher noise_dh_kdf_label) shared_secret)

abbrev reader_or : Option (List ℕ) → List ℕ → List ℕ
reader_or (some random) system = random
reader_or none system = system

abbrev pub dh_len : ℕ
dh_len = 32

module _ {Scalar Point : Type 0} (group : Ristretto Scalar Point) where
  -- `random` is what the reader holds; without a reader, what the system's generator gives.
  unfoldable pub generate_keypair : Option (List ℕ) → List ℕ → Result Error KeyPair
  generate_keypair random system =
      let source = reader_or random system in
      if ltb (length source) 64 then err no_randomness else (do
        scalar ← some_or_fail (group.uniform_scalar (take 64 source)) scalar_undecodable
        let public = group.scalar_base_mult scalar
        ok (record {
          private_key = group.scalar_bytes scalar;
          public_key = group.point_bytes public;
        }))

  unfoldable pub generate_ristretto_keypair : List ℕ → Result Error KeyPair
  generate_ristretto_keypair system = generate_keypair none system

  unfoldable pub dh : (List ℕ → List ℕ) → List ℕ → List ℕ → Result Error (List ℕ)
  dh blake2b_256 privkey pubkey =
      if not (length privkey == 32)
      then err private_key_length
      else if not (length pubkey == 32)
      then err public_key_length
      else (do
        scalar ← some_or_fail (group.scalar_of_bytes privkey) scalar_undecodable
        point ← some_or_fail (group.point_of_bytes pubkey) point_undecodable
        let shared = group.scalar_mult scalar point
        ok (noise_dh_kdf blake2b_256 (group.point_bytes shared)))

-- A key pair that was generated is the one of some scalar.
pub generate_keypair-key_pair :
    {Scalar Point : Type 0} (group : Ristretto Scalar Point) (random : Option (List ℕ))
    (system : List ℕ) (keys : KeyPair)
    → generate_keypair group random system ≡ ok keys
    → (a : Scalar) × (key_pair group a ≡ keys)
unfolding generate_keypair
generate_keypair-key_pair {Scalar = Scalar} group random system keys e =
    by_scalar (group.uniform_scalar (take 64 (reader_or random system))) (guard-eq-ok _ _ _ e).1
  where
    by_scalar :
        (o : Option Scalar)
        → (some_or_fail o scalar_undecodable >>= λ a. ok (key_pair group a)) ≡ ok keys
        → (a : Scalar) × (key_pair group a ≡ keys)
    by_scalar none h = cc
    by_scalar (some a) h = (a, ok-injective (key_pair group a) keys h)

module _ {Scalar Point : Type 0} (group : Ristretto Scalar Point) (law : IsGroup group) where
  pub generate_keypair_lem :
      (random system : List ℕ)
      → 64 ≤ length random
      → (a : Scalar) × (generate_keypair group (some random) system ≡ ok (key_pair group a))
  unfolding generate_keypair
  generate_keypair_lem random system h =
      let (a, e) = law.uniform (take 64 random) (ground (arith, length-take 64 random)) in
      (a, rw enough (rw e refl))
    where
      enough : ltb (length random) 64 ≡ false
      enough = ground arith

module _ {Scalar Point : Type 0} (group : Ristretto Scalar Point) (law : IsGroup group)
    (blake2b_256 : List ℕ → List ℕ) where
  abbrev pub shared_key : Scalar → Scalar → List ℕ
  shared_key a b =
      noise_dh_kdf blake2b_256 (group.point_bytes (group.scalar_mult a (group.scalar_base_mult b)))

  pub shared_key_comm : (a b : Scalar) → shared_key a b ≡ shared_key b a
  shared_key_comm a b =
      ap (λ p. noise_dh_kdf blake2b_256 (group.point_bytes p))
        (sym (law.base_multiply a b)
          ∙ ap group.scalar_base_mult (law.multiply_comm a b)
          ∙ law.base_multiply b a)

  pub dh_lem :
      (a b : Scalar)
      → dh group blake2b_256 (group.scalar_bytes a) (group.point_bytes (group.scalar_base_mult b))
        ≡ ok (shared_key a b)
  unfolding dh
  dh_lem a b = rw (law.scalar_size a) (
      rw (law.point_size (group.scalar_base_mult b))
        (rw (law.canonical_scalar a) (rw (law.canonical_point (group.scalar_base_mult b)) refl)))

  -- Given the laws of the group: two key pairs are generated from any two sources of 64 random bytes at
  -- least, and the exchange gives both sides one and the same key, each from its own private key and the
  -- public key of the other.
  pub dh-generate_keypair :
      (random other system : List ℕ)
      → 64 ≤ length random
      → 64 ≤ length other
      → (ours : KeyPair) × (theirs : KeyPair) × (shared : List ℕ) × (generate_keypair group
            (some random)
            system
          ≡ ok ours)
        × (generate_keypair group (some other) system ≡ ok theirs)
        × (dh group blake2b_256 ours.private_key theirs.public_key ≡ ok shared)
        × (dh group blake2b_256 theirs.private_key ours.public_key ≡ ok shared)
  dh-generate_keypair random other system h k =
      let (a, made) = generate_keypair_lem group law random system h in
      let (b, made') = generate_keypair_lem group law other system k in
      (
        key_pair group a,
        key_pair group b,
        shared_key a b,
        made,
        made',
        dh_lem a b,
        dh_lem b a ∙ ap ok (shared_key_comm b a),
      )
