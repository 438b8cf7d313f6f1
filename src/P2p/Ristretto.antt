-- ===== src/P2p/Ristretto.antt =====
-- The scalars and points of github.com/gtank/ristretto255, a parameter of the files that use them, and the
-- key pairs of github.com/flynn/noise.
use go_tari_lib.Common.{ℕ, ◌≡◌, Option, some, List, length}

pub record Ristretto (Scalar Point : Type 0) : Type 0 where
  -- `Scalar.SetUniformBytes`, `Scalar.SetCanonicalBytes`, `Scalar.Bytes`
  pub uniform_scalar : List ℕ → Option Scalar
  pub scalar_of_bytes : List ℕ → Option Scalar
  pub scalar_bytes : Scalar → List ℕ
  pub multiply : Scalar → Scalar → Scalar
  pub add : Scalar → Scalar → Scalar
  -- `Element.SetCanonicalBytes`, `Element.Bytes`
  pub point_of_bytes : List ℕ → Option Point
  pub point_bytes : Point → List ℕ
  pub scalar_base_mult : Scalar → Point
  pub scalar_mult : Scalar → Point → Point
  pub add_points : Point → Point → Point

pub record KeyPair : Type 0 where
  pub private_key : List ℕ
  pub public_key : List ℕ

-- What the package documents of the prime-order group it implements.
pub record IsGroup {Scalar Point : Type 0} (group : Ristretto Scalar Point) : Type 0 where
  pub uniform : (b : List ℕ) → length b ≡ 64 → (s : Scalar) × (group.uniform_scalar b ≡ some s)
  pub canonical_scalar : (s : Scalar) → group.scalar_of_bytes (group.scalar_bytes s) ≡ some s
  pub canonical_point : (p : Point) → group.point_of_bytes (group.point_bytes p) ≡ some p
  pub base_add :
      (s r : Scalar)
      → group.scalar_base_mult (group.add s r)
        ≡ group.add_points (group.scalar_base_mult s) (group.scalar_base_mult r)
  pub base_multiply :
      (s r : Scalar)
      → group.scalar_base_mult (group.multiply s r) ≡ group.scalar_mult s (group.scalar_base_mult r)
  pub multiply_comm : (s r : Scalar) → group.multiply s r ≡ group.multiply r s
  pub scalar_size : (s : Scalar) → length (group.scalar_bytes s) ≡ 32
  pub point_size : (p : Point) → length (group.point_bytes p) ≡ 32
  pub add_comm : (p q : Point) → group.add_points p q ≡ group.add_points q p

module _ {Scalar Point : Type 0} (group : Ristretto Scalar Point) where
  -- The key pair of a scalar.
  abbrev pub key_pair : Scalar → KeyPair
  key_pair k = record {
    private_key = group.scalar_bytes k;
    public_key = group.point_bytes (group.scalar_base_mult k);
  }
