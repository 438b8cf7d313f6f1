-- ===== src/Address/Pubkey.antt =====
-- address/pubkey.go. A `CompressedPublicKey` is a list of 32 bytes. Whether such a list is the canonical
-- encoding of a group element is the question that ristretto255's `SetCanonicalBytes` answers.
use go_tari_lib.Common.{ℕ, ◌≡◌, ◌↔◌, Bool, true, not, List, arith, ◌==◌, if◌then◌else◌, length}
use go_tari_lib.Common.Result.{Result, ok, err}
use go_tari_lib.Address.Errors.{Error, cannot_recover_public_key}
use go_tari_lib.Address.Dammsum.Detect.{IsBytes}

abbrev pub public_key_size : ℕ
public_key_size = 32

-- Every value of the type.
abbrev pub IsKey : List ℕ → Type 0
IsKey k = (length k ≡ public_key_size) × IsBytes k

module _ (is_canonical : List ℕ → Bool) where
  unfoldable pub public_key_from_canonical_bytes : List ℕ → Result Error (List ℕ)
  public_key_from_canonical_bytes b =
      if not (length b == public_key_size)
      then err cannot_recover_public_key
      else if not (is_canonical b)
      then err cannot_recover_public_key
      else ok b

  -- What is accepted is 32 bytes long, canonical, and stays as it is.
  pub public_key_from_canonical_bytes_iff :
      (b k : List ℕ)
      → (public_key_from_canonical_bytes b ≡ ok k)
        ↔ ((k ≡ b) × (length b ≡ public_key_size) × (is_canonical b ≡ true))
  unfolding public_key_from_canonical_bytes
  public_key_from_canonical_bytes_iff b k = ground arith
