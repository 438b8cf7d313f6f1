-- ===== src/ResponderSpike/KeyFile.antt =====
-- cmd/p2p-responder-spike/main.go: the key file.
use go_tari_lib.Common.{
  ℕ, ◌≤◌, ◌≡◌, refl, Bool, true, not, ◌==◌, if◌then◌else◌, arith, List, [], ◌∷◌, ◌++◌, length, take,
  drop, length-append, take-append, drop-append,
}
use go_tari_lib.Common.Result.{Result, ok, err, or_fail}
use go_tari_lib.Common.Action.{Action, give, pure, raise, ◌>>=◌, ◌>>◌}
use go_tari_lib.P2p.Ristretto.{Ristretto, IsGroup, KeyPair, key_pair}
use go_tari_lib.P2p.RistrettoDh.{generate_ristretto_keypair, generate_keypair, generate_keypair_lem}
use go_tari_lib.ResponderSpike.Errors.{
  StartupError, key_file_size_wrong, key_file_unreadable, key_file_not_saved, no_fresh_keypair,
}

abbrev pub key_file_size : ℕ
key_file_size = 64

-- What is at the path of the key file, and whether it can be written.
pub data KeyFile : Type 0 where
  missing unreadable : KeyFile
  holds : List ℕ → KeyFile

pub record Disk : Type 0 where
  pub key_file : KeyFile
  pub can_write : Bool

unfoldable pub write_file : List ℕ → Action Disk StartupError Unit
write_file raw disk =
    if not disk.can_write
    then (err key_file_not_saved, disk)
    else (ok tt, record disk { key_file = holds raw })

abbrev pub keypair_of_file : List ℕ → Result StartupError KeyPair
keypair_of_file raw =
    if not (length raw == key_file_size)
    then err key_file_size_wrong
    else ok (record { private_key = take 32 raw; public_key = drop 32 raw })

module _ {Scalar Point : Type 0} (group : Ristretto Scalar Point) where
  abbrev pub fresh_keypair : List ℕ → Result StartupError KeyPair
  fresh_keypair system = or_fail (generate_ristretto_keypair group system) no_fresh_keypair

  -- With a path that is not empty.
  abbrev pub load_or_save : KeyFile → List ℕ → Action Disk StartupError KeyPair
  load_or_save (holds raw) system = give (keypair_of_file raw)
  load_or_save unreadable system = raise key_file_unreadable
  load_or_save missing system = do
    keypair ← give (fresh_keypair system)
    write_file (keypair.private_key ++ keypair.public_key)
    pure keypair

  -- `system` is what the system's random generator gives.
  unfoldable pub load_or_generate_keypair : List ℕ → List ℕ → Action Disk StartupError KeyPair
  load_or_generate_keypair [] system disk = (fresh_keypair system, disk)
  load_or_generate_keypair (c ∷ path) system disk = load_or_save disk.key_file system disk

module _ {Scalar Point : Type 0} (group : Ristretto Scalar Point) (law : IsGroup group) where
  generated :
      (system : List ℕ)
      → 64 ≤ length system
      → (a : Scalar) × (generate_ristretto_keypair group system ≡ ok (key_pair group a))
  unfolding generate_ristretto_keypair generate_keypair
  generated system h = generate_keypair_lem group law system [] h

  read_back :
      (private public : List ℕ) (disk : Disk)
      → length private ≡ 32
      → length public ≡ 32
      → ◌≡◌ {A = Result StartupError KeyPair × Disk}
          (give (keypair_of_file (private ++ public)) disk)
          (ok (record { private_key = private; public_key = public }), disk)
  read_back private public disk h k =
      rw size (rw (take-append private public 32 h) (rw (drop-append private public 32 h) refl))
    where
      size : (length (private ++ public) == 64) ≡ true
      size = ground (arith, length-append private public)

  -- Given the laws of the group, a path, no file at it yet, and 64 random bytes: a first start makes a key pair
  -- and saves it, and every later start, whatever is random then, loads this key pair and changes nothing.
  pub load_or_generate_keypair_again :
      (c : ℕ) (path system later : List ℕ) (disk : Disk)
      → 64 ≤ length system
      → disk.key_file ≡ missing
      → disk.can_write ≡ true
      → (keys : KeyPair) × (disk' : Disk) × (load_or_generate_keypair group (c ∷ path) system disk
          ≡ (ok keys, disk'))
        × (load_or_generate_keypair group (c ∷ path) later disk' ≡ (ok keys, disk'))
  unfolding load_or_generate_keypair write_file
  load_or_generate_keypair_again c path system later disk h empty w =
      let (a, made) = generated system h in
      let keys = key_pair group a in
      let raw = keys.private_key ++ keys.public_key in
      (
        keys,
        record disk { key_file = holds raw },
        rw empty (rw made (rw w refl)),
        read_back keys.private_key keys.public_key (record disk { key_file = holds raw })
            (law.scalar_size a) (law.point_size (group.scalar_base_mult a)),
      )
