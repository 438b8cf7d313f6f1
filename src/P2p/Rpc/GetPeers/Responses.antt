-- ===== src/P2p/Rpc/GetPeers/Responses.antt =====
-- p2p/rpc/dht_getpeers.go and dht_getpeers_responder.go: the responses that stream from one to the other.
use go_tari_lib.Common.{
  ℕ, zero, suc, ◌≤◌, ◌≡◌, refl, ap, ◌∙◌, sym, Option, some, none, List, [], ◌∷◌, ◌++◌, true, false,
  length, arith, append-nil, append_assoc, ltb, bit_and, ◌==◌,
}
use go_tari_lib.Common.Result.{ok}
use go_tari_lib.Common.Action.{Action, pure}
use go_tari_lib.P2p.Rpc.Errors.{Error}
use go_tari_lib.P2p.Rpc.CanonicalFrame.{encode_canonical_frame}
use go_tari_lib.P2p.Rpc.StreamTransport.{StreamTransport, stream_transport}
use go_tari_lib.P2p.Rpc.StreamTransport.Frames.{wire}
use go_tari_lib.P2p.Rpc.Messages.{Protobuf, IsForm, RpcResponse, GetPeersResponse, PeerInfo}
use go_tari_lib.P2p.Rpc.Handshake.{send_message_lem, receive_message_lem}
use go_tari_lib.P2p.Rpc.GetPeers.{get_peers_loop, add_payload, append_peer, rpc_response_flag_fin}
use go_tari_lib.P2p.Rpc.ServeGetPeers.{send_peer, send_peers}

abbrev pub response : ℕ → ℕ → List ℕ → RpcResponse
response request_id flags payload = record {
  request_id = request_id;
  status = 0;
  flags = flags;
  payload = payload;
}

-- The peers that are there.
abbrev pub present : List (Option PeerInfo) → List PeerInfo
present [] = []
present (none ∷ peers) = present peers
present (some p ∷ peers) = p ∷ present peers

module _ (proto : Protobuf) where
  -- `b` is the serialised response that holds `peer`.
  pub record IsResponse (request_id flags : ℕ) (peer : Option PeerInfo) (b : List ℕ) : Type 0 where
    pub payload : List ℕ
    pub is_payload : IsForm proto.get_peers_response (record { peer = peer }) payload
    pub is_response : IsForm proto.rpc_response (response request_id flags payload) b

  -- The serialised responses to a request, for the peers to hand out.
  pub data IsServing (request_id : ℕ) : List (Option PeerInfo) → List (List ℕ) → Type 0 where
    nothing :
        {b : List ℕ}
        → IsForm proto.rpc_response (response request_id 1 []) b
        → IsServing request_id [] (b ∷ [])
    last :
        {peer : Option PeerInfo} {b : List ℕ}
        → IsResponse request_id 1 peer b
        → IsServing request_id (peer ∷ []) (b ∷ [])
    more :
        {peer next : Option PeerInfo} {peers : List (Option PeerInfo)} {b : List ℕ}
        {bs : List (List ℕ)}
        → IsResponse request_id 0 peer b
        → IsServing request_id (next ∷ peers) bs
        → IsServing request_id (peer ∷ next ∷ peers) (b ∷ bs)

  -- An empty slice unmarshals to a response without a peer.
  abbrev pub IsEmptyResponse : Type 0
  IsEmptyResponse = proto.get_peers_response.unmarshal [] ≡ some (record { peer = none })

  -- The payload of a response adds its peer, if there is one.
  pub add_payload_lem :
      IsEmptyResponse
      → (peers : List PeerInfo) (peer : Option PeerInfo) (payload : List ℕ)
      → IsForm proto.get_peers_response (record { peer = peer }) payload
      → add_payload proto peers payload ≡ ok (append_peer peers peer)
  unfolding add_payload
  add_payload_lem e peers none [] f = ground arith
  add_payload_lem e peers (some p) [] f = absurd (clash (sym f.unmarshals ∙ e))
    where
      clash :
          ◌≡◌ {A = Option GetPeersResponse}
            (some (record { peer = some p }))
            (some (record { peer = none }))
          → ⊥
      clash h = cc
  add_payload_lem e peers peer (x ∷ xs) f = rw filled (rw f.unmarshals refl)
    where
      filled : ltb 0 (suc (length xs)) ≡ true
      filled = ground arith

  append-present :
      (acc : List PeerInfo) (peer : Option PeerInfo) (peers : List (Option PeerInfo))
      → append_peer acc peer ++ present peers ≡ acc ++ present (peer ∷ peers)
  append-present acc none peers = refl
  append-present acc (some p) peers = append_assoc acc (p ∷ []) (present peers)

module _ (proto : Protobuf) (request_id : ℕ) (e : IsEmptyResponse proto) where
  -- One turn of the client's loop.
  pub loop_turn :
      (t : StreamTransport) (flags left : ℕ) (acc acc' : List PeerInfo) (payload b rest : List ℕ)
      → t.canonical ≡ true
      → IsForm proto.rpc_response (response request_id flags payload) b
      → add_payload proto acc payload ≡ ok acc'
      → get_peers_loop proto stream_transport
          (suc left)
          acc
          (record t { incoming = encode_canonical_frame b ++ rest })
        ≡ (elim (bit_and flags rpc_response_flag_fin == 0)
              as (λ _. Action StreamTransport Error (List PeerInfo)) [
                | true ↦ get_peers_loop proto stream_transport left acc'
                | false ↦ pure acc'
              ])
            (record t { incoming = rest })
  unfolding get_peers_loop
  loop_turn t flags left acc acc' payload b rest c f h =
      rw (receive_message_lem proto.rpc_response (response request_id flags payload) b f t rest c)
        (rw h refl)

  no_payload : (acc : List PeerInfo) → add_payload proto acc [] ≡ ok acc
  unfolding add_payload
  no_payload acc = refl

  -- The loop takes the peers out of the responses and stops behind the last of them.
  pub get_peers_loop_lem :
      (t : StreamTransport) (peers : List (Option PeerInfo)) (bs : List (List ℕ)) (rest : List ℕ)
      → t.canonical ≡ true
      → IsServing proto request_id peers bs
      → (left : ℕ) (acc : List PeerInfo) → length bs ≤ left
      → get_peers_loop proto stream_transport left acc (record t { incoming = wire bs ++ rest })
        ≡ (ok (acc ++ present peers), record t { incoming = rest })
  get_peers_loop_lem t peers bs rest c (nothing f) zero acc h = absurd (omega arith)
  get_peers_loop_lem t peers bs rest c (last f) zero acc h = absurd (omega arith)
  get_peers_loop_lem t peers bs rest c (more f r) zero acc h = absurd (omega arith)
  get_peers_loop_lem t peers (b ∷ []) rest c (nothing f) (suc left) acc h =
      ap (λ i. get_peers_loop proto stream_transport (suc left) acc (record t { incoming = i }))
        (append_assoc (encode_canonical_frame b) [] rest)
      ∙ loop_turn t 1 left acc acc [] b rest c f (no_payload acc)
      ∙ ap (λ l. (ok l, record t { incoming = rest })) (sym (append-nil acc))
  get_peers_loop_lem t (peer ∷ []) (b ∷ []) rest c (last f) (suc left) acc h =
      ap (λ i. get_peers_loop proto stream_transport (suc left) acc (record t { incoming = i }))
        (append_assoc (encode_canonical_frame b) [] rest)
      ∙ loop_turn t 1 left acc (append_peer acc peer) f.payload b rest c f.is_response
          (add_payload_lem proto e acc peer f.payload f.is_payload)
      ∙ ap (λ l. (ok l, record t { incoming = rest }))
          (sym (append-nil (append_peer acc peer)) ∙ append-present proto acc peer [])
  get_peers_loop_lem t (peer ∷ next ∷ peers) (b ∷ bs) rest c (more f r) (suc left) acc h =
      ap (λ i. get_peers_loop proto stream_transport (suc left) acc (record t { incoming = i }))
        (append_assoc (encode_canonical_frame b) (wire bs) rest)
      ∙ loop_turn t 0 left acc (append_peer acc peer) f.payload b (wire bs ++ rest) c f.is_response
          (add_payload_lem proto e acc peer f.payload f.is_payload)
      ∙ get_peers_loop_lem t (next ∷ peers) bs rest c r left (append_peer acc peer) (omega arith)
      ∙ ap (λ l. (ok l, record t { incoming = rest }))
          (append-present proto acc peer (next ∷ peers))

  send_peer_lem :
      (t : StreamTransport) (flags : ℕ) (peer : Option PeerInfo) (b : List ℕ)
      → t.writable ≡ true
      → IsResponse proto request_id flags peer b
      → send_peer proto stream_transport request_id flags peer t
        ≡ (ok tt, record t { outgoing = t.outgoing ++ encode_canonical_frame b })
  unfolding send_peer
  send_peer_lem t flags peer b w f = rw f.is_payload.marshals (
      send_message_lem proto.rpc_response (response request_id flags f.payload) b f.is_response t w)

  -- The loop of the responder sends these responses.
  pub send_peers_lem :
      (t : StreamTransport) (peer : Option PeerInfo) (peers : List (Option PeerInfo))
      (bs : List (List ℕ))
      → t.writable ≡ true
      → IsServing proto request_id (peer ∷ peers) bs
      → send_peers proto stream_transport request_id (peer ∷ peers) t
        ≡ (ok tt, record t { outgoing = t.outgoing ++ wire bs })
  unfolding send_peers
  send_peers_lem t peer [] (b ∷ []) w (last f) =
      send_peer_lem t 1 peer b w f
      ∙ ap (λ o. (ok tt, record t { outgoing = t.outgoing ++ o }))
          (sym (append-nil (encode_canonical_frame b)))
  send_peers_lem t peer (next ∷ peers) (b ∷ bs) w (more f r) = rw (send_peer_lem t 0 peer b w f) (
      send_peers_lem (record t { outgoing = t.outgoing ++ encode_canonical_frame b }) next peers bs
        w r
      ∙ ap (λ o. (ok tt, record t { outgoing = o }))
          (append_assoc t.outgoing (encode_canonical_frame b) (wire bs)))
  send_peers_lem t peer [] [] w r = elim r [ ]
  send_peers_lem t peer [] (b ∷ d ∷ bs) w r = elim r [ ]
  send_peers_lem t peer (next ∷ peers) [] w r = elim r [ ]
