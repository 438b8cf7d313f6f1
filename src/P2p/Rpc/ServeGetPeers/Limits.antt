-- ===== src/P2p/Rpc/ServeGetPeers/Limits.antt =====
-- p2p/rpc/dht_getpeers_responder.go: what the three bounding functions promise.
use go_tari_lib.Common.{
  ℕ, ◌^◌, ◌<◌, ◌≤◌, ◌≡◌, refl, ap, ◌∙◌, ◌⊎◌, Option, some, none, List, map, take, if◌then◌else◌,
  length, All, min, length-take, length-map, take_all, All-take, All-map, map_self, ◌==◌, arith,
}
use go_tari_lib.P2p.Rpc.Messages.{GetPeersRequest, PeerInfo, PeerIdentityClaim}
use go_tari_lib.P2p.Rpc.ServeGetPeers.{
  bounded_count, bound_claim_addresses, bound_peer_claims, bound_peers_for_request,
}

-- Zero stands for no limit.
abbrev pub IsWithin : ℕ → ℕ → Type 0
IsWithin max n = (max ≡ 0) ⊎ (n ≤ max)

-- A length that fits in 32 bits, as `uint32(len(...))` takes for granted.
abbrev pub IsShort {ℓ} : {A : Type ℓ} → List A → Type 0
IsShort xs = length xs < 2 ^ 32

abbrev pub IsShortClaim : Option PeerIdentityClaim → Type 0
IsShortClaim none = Unit
IsShortClaim (some claim) = IsShort claim.addresses

abbrev pub IsShortPeer : Option PeerInfo → Type 0
IsShortPeer none = Unit
IsShortPeer (some peer) = IsShort peer.claims × All IsShortClaim peer.claims

abbrev pub IsBoundedClaim : ℕ → Option PeerIdentityClaim → Type 0
IsBoundedClaim max_addresses none = Unit
IsBoundedClaim max_addresses (some claim) = IsWithin max_addresses (length claim.addresses)

abbrev pub IsBoundedPeer : ℕ → ℕ → Option PeerInfo → Type 0
IsBoundedPeer max_claims max_addresses none = Unit
IsBoundedPeer max_claims max_addresses (some peer) =
    IsWithin max_claims (length peer.claims) × All (IsBoundedClaim max_addresses) peer.claims

-- A list of peers that a request allows.
abbrev pub IsBounded : GetPeersRequest → List (Option PeerInfo) → Type 0
IsBounded req peers =
    IsWithin req.n (length peers)
    × All (IsBoundedPeer req.max_claims req.max_addresses_per_claim) peers

module _ {ℓ} {A : Type ℓ} where
  count-IsWithin :
      (max : ℕ) (xs : List A)
      → IsShort xs
      → IsWithin max (length (take (bounded_count max (length xs)) xs))
  count-IsWithin max xs h = ground (arith, length-take (bounded_count max (length xs)) xs)

  count_all :
      (max : ℕ) (xs : List A)
      → IsWithin max (length xs)
      → take (bounded_count max (length xs)) xs ≡ xs
  count_all max xs h = take_all xs (bounded_count max (length xs)) (ground arith)

module _ (max_claims max_addresses : ℕ) where
  bound_claim_addresses-IsBoundedClaim :
      (c : Option PeerIdentityClaim)
      → IsShortClaim c
      → IsBoundedClaim max_addresses (bound_claim_addresses max_addresses c)
  unfolding bound_claim_addresses
  bound_claim_addresses-IsBoundedClaim none h = tt
  bound_claim_addresses-IsBoundedClaim (some claim) h =
      count-IsWithin max_addresses claim.addresses h

  bound_peer_claims-IsBoundedPeer :
      (p : Option PeerInfo)
      → IsShortPeer p
      → IsBoundedPeer max_claims max_addresses (bound_peer_claims max_claims max_addresses p)
  unfolding bound_peer_claims
  bound_peer_claims-IsBoundedPeer none h = tt
  bound_peer_claims-IsBoundedPeer (some peer) (h, hs) = (
    rw (length-map (bound_claim_addresses max_addresses) (take count peer.claims))
        (count-IsWithin max_claims peer.claims h),
    All-map IsShortClaim (IsBoundedClaim max_addresses) (bound_claim_addresses max_addresses)
        bound_claim_addresses-IsBoundedClaim (take count peer.claims)
        (All-take IsShortClaim count peer.claims hs),
  )
    where
      count : ℕ
      count = bounded_count max_claims (length peer.claims)

  bound_claim_addresses_self :
      (c : Option PeerIdentityClaim)
      → IsBoundedClaim max_addresses c
      → bound_claim_addresses max_addresses c ≡ c
  unfolding bound_claim_addresses
  bound_claim_addresses_self none h = refl
  bound_claim_addresses_self (some claim) h =
      ap (λ l. some (record claim { addresses = l })) (count_all max_addresses claim.addresses h)

  bound_peer_claims_self :
      (p : Option PeerInfo)
      → IsBoundedPeer max_claims max_addresses p
      → bound_peer_claims max_claims max_addresses p ≡ p
  unfolding bound_peer_claims
  bound_peer_claims_self none h = refl
  bound_peer_claims_self (some peer) (h, hs) =
      ap (λ l. some (record peer { claims = l }))
        (ap (map (bound_claim_addresses max_addresses)) (count_all max_claims peer.claims h)
          ∙ map_self (bound_claim_addresses max_addresses) bound_claim_addresses_self peer.claims
              hs)

module _ (req : GetPeersRequest) where
  -- Where the caller's lists are shorter than 2^32, what is handed out keeps every limit of the request:
  -- the number of peers, of claims of each, and of addresses of each claim.
  pub bound_peers_for_request-IsBounded :
      (peers : List (Option PeerInfo))
      → IsShort peers
      → All IsShortPeer peers
      → IsBounded req (bound_peers_for_request peers req)
  unfolding bound_peers_for_request
  bound_peers_for_request-IsBounded peers h hs = (
    rw (length-map bound (take count peers)) (count-IsWithin req.n peers h),
    All-map IsShortPeer (IsBoundedPeer req.max_claims req.max_addresses_per_claim) bound
        (bound_peer_claims-IsBoundedPeer req.max_claims req.max_addresses_per_claim)
        (take count peers) (All-take IsShortPeer count peers hs),
  )
    where
      count : ℕ
      count = bounded_count req.n (length peers)

      bound : Option PeerInfo → Option PeerInfo
      bound = bound_peer_claims req.max_claims req.max_addresses_per_claim

  -- A list that keeps the limits is handed out as it is.
  pub bound_peers_for_request_self :
      (peers : List (Option PeerInfo))
      → IsBounded req peers
      → bound_peers_for_request peers req ≡ peers
  unfolding bound_peers_for_request
  bound_peers_for_request_self peers (h, hs) =
      ap (map bound) (count_all req.n peers h)
      ∙ map_self bound (bound_peer_claims_self req.max_claims req.max_addresses_per_claim) peers hs
    where
      bound : Option PeerInfo → Option PeerInfo
      bound = bound_peer_claims req.max_claims req.max_addresses_per_claim

  -- Where the caller's list is shorter than 2^32, the bounded list is the beginning of it of as many peers as
  -- the request allows, all of them where the request says 0, each peer bounded in its turn.
  pub bound_peers_for_request-take :
      (peers : List (Option PeerInfo))
      → IsShort peers
      → bound_peers_for_request peers req
        ≡ map
            (bound_peer_claims req.max_claims req.max_addresses_per_claim)
            (take (if req.n == 0 then length peers else min req.n (length peers)) peers)
  unfolding bound_peers_for_request
  bound_peers_for_request-take peers h =
      ap (λ k. map (bound_peer_claims req.max_claims req.max_addresses_per_claim) (take k peers))
        (ground arith)
