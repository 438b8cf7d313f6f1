-- ===== src/P2p/Rpc/ServeGetPeers.antt =====
-- p2p/rpc/dht_getpeers_responder.go: the responder of get_peers.
pub mod Limits
use go_tari_lib.Common.{
  ℕ, ◌%◌, ◌^◌, Bool, true, false, ◌&&◌, Option, some, none, List, [], ◌∷◌, ltb, map, take,
  if◌then◌else◌, length,
}
use go_tari_lib.Common.Result.{Result, ok, err, some_or_fail}
use go_tari_lib.Common.Action.{Action, ◌>>=◌, ◌>>◌, pure, give}
use go_tari_lib.P2p.Rpc.Errors.{Error, marshal_failed, unmarshal_failed}
use go_tari_lib.P2p.Rpc.StreamTransport.{Transport}
use go_tari_lib.P2p.Rpc.Negotiation.{negotiate_protocol_inbound}
use go_tari_lib.P2p.Rpc.Messages.{
  Protobuf, RpcRequest, RpcResponse, GetPeersRequest, GetPeersResponse, PeerInfo, PeerIdentityClaim,
}
use go_tari_lib.P2p.Rpc.Handshake.{
  send_message, receive_message, perform_session_handshake_responder,
}
use go_tari_lib.P2p.Rpc.GetPeers.{dht_protocol_id, rpc_response_flag_fin}

-- `n := len(l); if max > 0 && uint32(n) > max { n = int(max) }`
abbrev pub bounded_count : ℕ → ℕ → ℕ
bounded_count max n = if ltb 0 max && ltb max (n % 2 ^ 32) then max else n

unfoldable pub bound_claim_addresses : ℕ → Option PeerIdentityClaim → Option PeerIdentityClaim
bound_claim_addresses max_addresses none = none
bound_claim_addresses max_addresses (some claim) = some (record claim {
  addresses = take (bounded_count max_addresses (length claim.addresses)) claim.addresses;
})

unfoldable pub bound_peer_claims : ℕ → ℕ → Option PeerInfo → Option PeerInfo
bound_peer_claims max_claims max_addresses none = none
bound_peer_claims max_claims max_addresses (some peer) = some (record peer {
  claims =
      map (bound_claim_addresses max_addresses)
        (take (bounded_count max_claims (length peer.claims)) peer.claims);
})

unfoldable pub bound_peers_for_request :
    List (Option PeerInfo) → GetPeersRequest → List (Option PeerInfo)
bound_peers_for_request peers req =
    map (bound_peer_claims req.max_claims req.max_addresses_per_claim)
      (take (bounded_count req.n (length peers)) peers)

abbrev pub empty_request : GetPeersRequest
empty_request = record {
  n = 0;
  include_clients = false;
  max_claims = 0;
  max_addresses_per_claim = 0;
}

module _ (proto : Protobuf) where
  -- The request that the payload of the RPC request holds; an empty payload leaves the zero value.
  unfoldable pub request_of_payload : List ℕ → Result Error GetPeersRequest
  request_of_payload payload =
      if ltb 0 (length payload)
      then some_or_fail (proto.get_peers_request.unmarshal payload) unmarshal_failed
      else ok empty_request

module _ {S : Type 0} (proto : Protobuf) (session : Transport S) where
  -- One turn of the loop.
  unfoldable pub send_peer : ℕ → ℕ → Option PeerInfo → Action S Error Unit
  send_peer request_id flags peer = do
    payload ←
        give
          (some_or_fail (proto.get_peers_response.marshal (record { peer = peer })) marshal_failed)
    send_message session proto.rpc_response
        (record { request_id = request_id; status = 0; flags = flags; payload = payload })

  -- The loop over the bounded peers: the last response alone has the FIN flag.
  unfoldable pub send_peers : ℕ → List (Option PeerInfo) → Action S Error Unit
  send_peers request_id [] = pure tt
  send_peers request_id (peer ∷ []) = send_peer request_id rpc_response_flag_fin peer
  send_peers request_id (peer ∷ next ∷ peers) =
      send_peer request_id 0 peer >> send_peers request_id (next ∷ peers)

  -- What goes out for the bounded list: one empty response if there is no peer in it.
  unfoldable pub answer_bounded : ℕ → List (Option PeerInfo) → Action S Error Unit
  answer_bounded request_id [] =
      send_message session proto.rpc_response (record {
        request_id = request_id;
        status = 0;
        flags = rpc_response_flag_fin;
        payload = [];
      })
  answer_bounded request_id (peer ∷ peers) = send_peers request_id (peer ∷ peers)

  unfoldable pub answer_request : List (Option PeerInfo) → RpcRequest → Action S Error Unit
  answer_request peers rpc_req = do
    get_peers_req ← give (request_of_payload proto rpc_req.payload)
    answer_bounded rpc_req.request_id (bound_peers_for_request peers get_peers_req)

  unfoldable pub serve_get_peers : List (Option PeerInfo) → Action S Error Unit
  serve_get_peers peers = do
    negotiated ← negotiate_protocol_inbound session (dht_protocol_id ∷ [])
    session.begin_canonical_framing
    perform_session_handshake_responder proto session
    rpc_req ← receive_message session proto.rpc_request
    answer_request peers rpc_req
