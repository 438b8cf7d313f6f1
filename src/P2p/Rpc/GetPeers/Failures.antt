-- ===== src/P2p/Rpc/GetPeers/Failures.antt =====
-- p2p/rpc/dht_getpeers.go: the ways in which the loop of `GetPeers` ends without a list.
use go_tari_lib.Common.{
  ℕ, zero, suc, ◌+◌, ◌-◌, ◌<◌, true, ◌≡◌, ◌≢◌, refl, ap, ◌∙◌, Option, List, [], ◌∷◌, ◌++◌, length,
  arith, append_assoc, ◌==◌, false,
}
use go_tari_lib.Common.Result.{err}
use go_tari_lib.P2p.Rpc.Errors.{max_iterations_exceeded, rpc_status}
use go_tari_lib.P2p.Rpc.CanonicalFrame.{encode_canonical_frame}
use go_tari_lib.P2p.Rpc.StreamTransport.{StreamTransport, stream_transport}
use go_tari_lib.P2p.Rpc.StreamTransport.Frames.{wire}
use go_tari_lib.P2p.Rpc.Messages.{Protobuf, IsForm, RpcResponse, PeerInfo}
use go_tari_lib.P2p.Rpc.Handshake.{receive_message_lem}
use go_tari_lib.P2p.Rpc.GetPeers.{get_peers_loop, append_peer}
use go_tari_lib.P2p.Rpc.GetPeers.Responses.{IsResponse, IsEmptyResponse, add_payload_lem, loop_turn}

-- Serialised responses that hold the peers one each, report no failure and do not end the list.
pub data Unfinished (proto : Protobuf) (request_id : ℕ)
    : List (Option PeerInfo) → List (List ℕ) → Type 0 where
  no_more : Unfinished proto request_id [] []
  and_one :
      {peer : Option PeerInfo} {peers : List (Option PeerInfo)} {b : List ℕ} {bs : List (List ℕ)}
      → IsResponse proto request_id 0 peer b
      → Unfinished proto request_id peers bs
      → Unfinished proto request_id (peer ∷ peers) (b ∷ bs)

abbrev pub collected : List PeerInfo → List (Option PeerInfo) → List PeerInfo
collected acc [] = acc
collected acc (peer ∷ peers) = collected (append_peer acc peer) peers

module _ (proto : Protobuf) (request_id : ℕ) (t : StreamTransport) (c : t.canonical ≡ true)
    (e : IsEmptyResponse proto) where
  -- Responses that do not end the list bring the loop to where they are behind it, as many iterations on.
  unfinished_lem :
      (peers : List (Option PeerInfo)) (bs : List (List ℕ)) (rest : List ℕ) (left total : ℕ)
      (acc : List PeerInfo)
      → Unfinished proto request_id peers bs
      → total ≡ length bs + left
      → get_peers_loop proto stream_transport total acc (record t { incoming = wire bs ++ rest })
        ≡ get_peers_loop proto stream_transport left
            (collected acc peers)
            (record t { incoming = rest })
  unfinished_lem peers bs rest left total acc no_more h =
      ap (λ n. get_peers_loop proto stream_transport n acc (record t { incoming = rest }))
        (omega arith)
  unfinished_lem peers bs rest left zero acc (and_one r rs) h = absurd (omega arith)
  unfinished_lem (peer ∷ peers) (b ∷ bs) rest left (suc total) acc (and_one r rs) h =
      ap (λ i. get_peers_loop proto stream_transport (suc total) acc (record t { incoming = i }))
        (append_assoc (encode_canonical_frame b) (wire bs) rest)
      ∙ loop_turn proto request_id e t 0 total acc (append_peer acc peer) r.payload b
          (wire bs ++ rest) c r.is_response
          (add_payload_lem proto e acc peer r.payload r.is_payload)
      ∙ unfinished_lem peers bs rest left total (append_peer acc peer) rs (omega arith)

  -- Given that an empty slice unmarshals to a response without a peer, and a stream on which
  -- canonical framing has begun: against a peer that sends a good response for each iteration and
  -- never the FIN flag, the loop gives up with its own error when the iterations are used up, with
  -- everything behind these responses unread.
  pub get_peers_loop_exhausted :
      (peers : List (Option PeerInfo)) (bs : List (List ℕ)) (rest : List ℕ) (total : ℕ)
      (acc : List PeerInfo)
      → Unfinished proto request_id peers bs
      → total ≡ length bs
      → get_peers_loop proto stream_transport total acc (record t { incoming = wire bs ++ rest })
        ≡ (err max_iterations_exceeded, record t { incoming = rest })
  unfolding get_peers_loop
  get_peers_loop_exhausted peers bs rest total acc u h =
      unfinished_lem peers bs rest 0 total acc u (omega arith)

  -- Given that an empty slice unmarshals to a response without a peer, and a stream on which
  -- canonical framing has begun: a response with a status other than 0 ends the loop with that
  -- status, whatever good responses came before it, if there are iterations enough to reach it; its
  -- flags and its payload are not looked at.
  pub get_peers_loop_refused :
      (peers : List (Option PeerInfo)) (bs : List (List ℕ)) (resp : RpcResponse) (b rest : List ℕ)
      (total : ℕ) (acc : List PeerInfo)
      → Unfinished proto request_id peers bs
      → length bs < total
      → IsForm proto.rpc_response resp b
      → resp.status ≢ 0
      → get_peers_loop proto stream_transport total acc
          (record t { incoming = wire bs ++ (encode_canonical_frame b ++ rest) })
        ≡ (err (rpc_status resp.status), record t { incoming = rest })
  unfolding get_peers_loop
  get_peers_loop_refused peers bs resp b rest total acc u l f h =
      unfinished_lem peers bs (encode_canonical_frame b ++ rest) (suc (total - suc (length bs)))
        total acc u (omega arith)
      ∙ rw (receive_message_lem proto.rpc_response resp b f t rest c) (rw bad refl)
    where
      bad : (resp.status == 0) ≡ false
      bad = ground arith
