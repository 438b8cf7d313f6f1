-- ===== src/ResponderSpike/Tests.antt =====
-- Concrete runs of cmd/p2p-responder-spike.
use mathlib.Core.List.{Permᴰ}
use mathlib.Core.List.Permᴰ
use go_tari_lib.Common.{
  ℕ, ◌≡◌, ◌↔◌, refl, true, some, none, List, [], ◌∷◌, ◌++◌, map, length, min, arith, replicate,
}
use go_tari_lib.Common.Result.{ok}
use go_tari_lib.P2p.Identity
use go_tari_lib.P2p.Ristretto.{Ristretto, IsGroup, KeyPair}
use go_tari_lib.P2p.Rpc.Messages.{PeerInfo}
use go_tari_lib.ResponderSpike.PeerStore.{Order, list, lookup, SeenPeer}
use go_tari_lib.ResponderSpike.PeerStore.Entries.{IsDistinct}
use go_tari_lib.ResponderSpike.PeerStore.Recent.{
  Event, recorded, listed, store_after, last_seen, IsOfLastHour, list-last_seen,
}
use go_tari_lib.ResponderSpike.PeerStore.Served.{info_of, IsSplit, list_served}
use go_tari_lib.ResponderSpike.KeyFile.{
  Disk, missing, load_or_generate_keypair, load_or_generate_keypair_again,
}

abbrev as_it_is : Order
as_it_is = record { visit = λ entries. entries; visit_all = λ entries. Permᴰ.refl entries }

abbrev nobody : Identity.PeerInfo
nobody = record {
  reachable = true;
  remote_static_pub_key = [];
  addresses = [];
  features = 3;
  supported_protocols = [];
  user_agent = [];
  identity_signature = none;
}

-- One peer that is forgotten, and one that is seen again.
abbrev history : List Event
history =
    recorded (2 ∷ []) nobody 3600000000002
    ∷ listed 9
    ∷ recorded (2 ∷ []) nobody 5
    ∷ recorded (1 ∷ []) nobody 0
    ∷ []

list-last_seen_example :
    ((p : SeenPeer)
      → (lookup (48 ∷ 49 ∷ []) (list as_it_is 3600000000003 (store_after as_it_is history)).1.peers
          ≡ some p)
        ↔ ((last_seen (48 ∷ 49 ∷ []) history ≡ some p) × IsOfLastHour 3600000000003 p))
    × IsDistinct (list as_it_is 3600000000003 (store_after as_it_is history)).1.peers
list-last_seen_example =
    list-last_seen as_it_is history 3600000000003 (48 ∷ 49 ∷ [])
      (omega arith, (omega arith, (omega arith, (omega arith, tt))))

list_served_example :
    let (served, kept) = list as_it_is 3600000000003 (store_after as_it_is history) in
    ((left_out : List PeerInfo) × Permᴰ (served ++ left_out) (map info_of kept.peers))
    × (length served ≡ min 200 (length kept.peers))
    × IsSplit 3600000000003 kept.peers (store_after as_it_is history).peers
list_served_example = list_served as_it_is 3600000000003 (store_after as_it_is history)

-- The group of one element.
abbrev one_bytes : Unit {0} → List ℕ
one_bytes u = replicate 32 0

abbrev one : Ristretto Unit Unit
one = record {
  uniform_scalar = λ b. some tt;
  scalar_of_bytes = λ b. some tt;
  scalar_bytes = one_bytes;
  multiply = λ s r. tt;
  add = λ s r. tt;
  point_of_bytes = λ b. some tt;
  point_bytes = one_bytes;
  scalar_base_mult = λ s. tt;
  scalar_mult = λ s p. tt;
  add_points = λ p q. tt;
}

one-IsGroup : IsGroup one
one-IsGroup = record {
  uniform = λ b h. (tt, refl);
  canonical_scalar = λ s. refl;
  canonical_point = λ p. refl;
  base_add = λ s r. refl;
  base_multiply = λ s r. refl;
  multiply_comm = λ s r. refl;
  scalar_size = λ s. refl;
  point_size = λ p. refl;
  add_comm = λ p q. refl;
}

abbrev empty_disk : Disk
empty_disk = record { key_file = missing; can_write = true }

load_or_generate_keypair_again_example :
    (keys : KeyPair) × (disk' : Disk) × (load_or_generate_keypair one
        (107 ∷ [])
        (replicate 64 5)
        empty_disk
      ≡ (ok keys, disk'))
    × (load_or_generate_keypair one (107 ∷ []) [] disk' ≡ (ok keys, disk'))
load_or_generate_keypair_again_example =
    load_or_generate_keypair_again one one-IsGroup 107 [] (replicate 64 5) [] empty_disk
      (omega arith) refl refl
