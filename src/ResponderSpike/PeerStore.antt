-- ===== src/ResponderSpike/PeerStore.antt =====
-- cmd/p2p-responder-spike/main.go: the store of the peers that were seen. The map is a list of entries with
-- distinct keys; the order in which Go goes over it is a parameter. Times are readings of the monotonic
-- clock, in nanoseconds.
pub mod Entries
pub mod Recent
pub mod Served
use mathlib.Core.List.{Permᴰ}
use go_tari_lib.Common.{
  ℕ, ◌+◌, ◌*◌, ◌≡◌, Bool, true, false, Option, some, none, List, [], ◌∷◌, ◌++◌, length, ltb, leb,
  if◌then◌else◌,
}
use go_tari_lib.Stdlib.Hex.{encode_to_string}
use go_tari_lib.P2p.Identity
use go_tari_lib.P2p.Rpc.Messages.{PeerInfo, PeerIdentityClaim}
use go_tari_lib.P2p.Rpc.Negotiation.{bytes_equal}

-- `time.Hour`
abbrev pub seen_peer_window : ℕ
seen_peer_window = 60 * 60 * 1000000000

abbrev pub max_served_peers : ℕ
max_served_peers = 200

pub record SeenPeer : Type 0 where
  pub info : PeerInfo
  pub seen_at : ℕ

abbrev pub Entry : Type 0
Entry = List ℕ × SeenPeer

pub record PeerStore : Type 0 where
  pub peers : List Entry

abbrev pub new_peer_store : PeerStore
new_peer_store = record { peers = [] }

-- `s.peers[key] = p`
abbrev pub assign : List ℕ → SeenPeer → List Entry → List Entry
assign key p [] = (key, p) ∷ []
assign key p ((k, q) ∷ entries) =
    let rest = assign key p entries in
    if bytes_equal k key then (key, p) ∷ entries else (k, q) ∷ rest

-- `s.peers[key]`
abbrev pub lookup : List ℕ → List Entry → Option SeenPeer
lookup key [] = none
lookup key ((k, q) ∷ entries) =
    let rest = lookup key entries in if bytes_equal k key then some q else rest

abbrev pub seen_info : List ℕ → Identity.PeerInfo → PeerInfo
seen_info peer_static_key identity = record {
  public_key = peer_static_key;
  claims =
      some (record {
        addresses = identity.addresses;
        peer_features = identity.features;
        identity_signature = none;
      })
      ∷ [];
}

unfoldable pub record_peer : List ℕ → Identity.PeerInfo → ℕ → PeerStore → PeerStore
record_peer peer_static_key identity now s = record {
  peers =
      assign (encode_to_string peer_static_key)
        (record { info = seen_info peer_static_key identity; seen_at = now }) s.peers;
}

-- `now.Sub(p.seenAt) > seenPeerWindow`
abbrev pub is_stale : ℕ → SeenPeer → Bool
is_stale now p = ltb (p.seen_at + seen_peer_window) now

abbrev pub prune : ℕ → List Entry → List Entry
prune now [] = []
prune now ((k, p) ∷ entries) =
    let rest = prune now entries in if is_stale now p then rest else (k, p) ∷ rest

abbrev pub list_loop : List PeerInfo → List Entry → List PeerInfo
list_loop out [] = out
list_loop out ((k, p) ∷ entries) =
    let out' = out ++ (p.info ∷ []) in
    let more = list_loop out' entries in if leb max_served_peers (length out') then out' else more

-- An order in which the second loop goes over the entries that are left.
pub record Order : Type 0 where
  pub visit : List Entry → List Entry
  pub visit_all : (entries : List Entry) → Permᴰ (visit entries) entries

unfoldable pub list : Order → ℕ → PeerStore → List PeerInfo × PeerStore
list order now s =
    let kept = prune now s.peers in (list_loop [] (order.visit kept), record { peers = kept })
