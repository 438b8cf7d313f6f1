-- ===== src/P2p/Rpc/Exchange.antt =====
-- p2p/rpc: a whole get_peers, `GetPeers` against `ServeGetPeers`, over streams.
use go_tari_lib.Common.{
  ℕ, zero, suc, ◌≤◌, ◌≡◌, refl, ap, ◌∙◌, sym, Option, some, List, [], ◌∷◌, ◌++◌, true, false,
  length, arith, append-nil, append_assoc, ltb,
}
use go_tari_lib.Common.Result.{ok}
use go_tari_lib.P2p.Rpc.CanonicalFrame.{encode_canonical_frame}
use go_tari_lib.P2p.Rpc.StreamTransport.{
  StreamTransport, stream_transport, new_stream_transport, stream_begin_canonical_framing,
}
use go_tari_lib.P2p.Rpc.StreamTransport.Frames.{wire}
use go_tari_lib.P2p.Rpc.Negotiation.{bytes_equal}
use go_tari_lib.P2p.Rpc.Negotiation.Agreement.{
  answer, encodes, hears, negotiate_protocol_inbound_lem,
}
use go_tari_lib.P2p.Rpc.Messages.{Protobuf, IsForm, RpcRequest, GetPeersRequest, PeerInfo}
use go_tari_lib.P2p.Rpc.Handshake.{send_message_lem, receive_message_lem}
use go_tari_lib.P2p.Rpc.Handshake.Agreement.{
  our_session, acceptance, framed, perform_session_handshake_lem,
  perform_session_handshake_responder_lem,
}
use go_tari_lib.P2p.Rpc.GetPeers.{
  dht_protocol_id, get_peers_method, max_get_peers_stream_iterations, default_request_id,
  default_rpc_deadline_seconds, get_peers,
}
use go_tari_lib.P2p.Rpc.GetPeers.Responses.{
  IsServing, nothing, last, more, IsEmptyResponse, present, response, get_peers_loop_lem,
  send_peers_lem,
}
use go_tari_lib.P2p.Rpc.ServeGetPeers.{
  bound_peers_for_request, empty_request, request_of_payload, answer_bounded, answer_request,
  serve_get_peers,
}

abbrev pub our_request : List ℕ → RpcRequest
our_request payload = record {
  request_id = default_request_id;
  method = get_peers_method;
  flags = 0;
  deadline = default_rpc_deadline_seconds;
  payload = payload;
}

-- The serialised forms of the messages of one get_peers, and what the codecs make of an empty slice.
pub record Forms (proto : Protobuf) (req : GetPeersRequest) (peers : List (Option PeerInfo))
    : Type 0 where
  pub session : List ℕ
  pub is_session : IsForm proto.rpc_session our_session session
  pub reply : List ℕ
  pub is_reply : IsForm proto.rpc_session_reply acceptance reply
  pub payload : List ℕ
  pub is_payload : IsForm proto.get_peers_request req payload
  pub request : List ℕ
  pub is_request : IsForm proto.rpc_request (our_request payload) request
  pub responses : List (List ℕ)
  pub are_responses :
      IsServing proto default_request_id (bound_peers_for_request peers req) responses
  pub empty_response : IsEmptyResponse proto
  pub empty_is_zero : proto.get_peers_request.unmarshal [] ≡ some empty_request

-- What is read back from a serialised request, an empty one included.
request_of_payload_lem :
    (proto : Protobuf) (req : GetPeersRequest) (payload : List ℕ)
    → proto.get_peers_request.unmarshal [] ≡ some empty_request
    → proto.get_peers_request.unmarshal payload ≡ some req
    → request_of_payload proto payload ≡ ok req
unfolding request_of_payload
request_of_payload_lem proto req [] e h = cc
request_of_payload_lem proto req (x ∷ xs) e h = rw filled (rw h refl)
  where
    filled : ltb 0 (suc (length xs)) ≡ true
    filled = ground arith

module _ (proto : Protobuf) (req : GetPeersRequest) (peers : List (Option PeerInfo))
    (f : Forms proto req peers) where
  -- What the client puts on the stream, and what the responder does.
  abbrev pub asked : List ℕ
  asked =
      answer true dht_protocol_id
      ++ (encode_canonical_frame f.session ++ encode_canonical_frame f.request)

  abbrev pub answered : List ℕ
  answered = answer true dht_protocol_id ++ (encode_canonical_frame f.reply ++ wire f.responses)

  -- The responder reads back the request that the client marshalled.
  read_request : request_of_payload proto f.payload ≡ ok req
  read_request = request_of_payload_lem proto req f.payload f.empty_is_zero f.is_payload.unmarshals

  hand_out :
      (t : StreamTransport) (bounded : List (Option PeerInfo)) (bs : List (List ℕ))
      → t.writable ≡ true
      → IsServing proto default_request_id bounded bs
      → answer_bounded proto stream_transport default_request_id bounded t
        ≡ (ok tt, record t { outgoing = t.outgoing ++ wire bs })
  unfolding answer_bounded
  hand_out t [] (b ∷ []) w (nothing r) =
      send_message_lem proto.rpc_response (response default_request_id 1 []) b r t w
      ∙ ap (λ o. (ok tt, record t { outgoing = t.outgoing ++ o }))
          (sym (append-nil (encode_canonical_frame b)))
  hand_out t (peer ∷ peers) bs w r =
      send_peers_lem proto default_request_id f.empty_response t peer peers bs w r
  hand_out t [] [] w r = elim r [ ]
  hand_out t [] (b ∷ d ∷ bs) w r = elim r [ ]

  answer_request_lem :
      (t : StreamTransport)
      → t.writable ≡ true
      → answer_request proto stream_transport peers (our_request f.payload) t
        ≡ (ok tt, record t { outgoing = t.outgoing ++ wire f.responses })
  unfolding answer_request
  answer_request_lem t w =
      rw read_request (hand_out t (bound_peers_for_request peers req) f.responses w f.are_responses)

  abbrev negotiated : List ℕ → List ℕ → StreamTransport
  negotiated incoming outgoing = record (framed incoming) {
    outgoing = answer true dht_protocol_id ++ outgoing;
  }

  serve_get_peers_lem :
      (rest : List ℕ)
      → serve_get_peers proto stream_transport peers (new_stream_transport (asked ++ rest))
        ≡ (ok tt, record (framed rest) { outgoing = answered })
  unfolding serve_get_peers stream_begin_canonical_framing bytes_equal
  serve_get_peers_lem rest =
      ap
        (λ i.
          serve_get_peers proto stream_transport peers
            (new_stream_transport (answer true dht_protocol_id ++ i)))
        (append_assoc (encode_canonical_frame f.session) (encode_canonical_frame f.request) rest)
      ∙ rw
          (negotiate_protocol_inbound_lem (new_stream_transport []) refl refl (dht_protocol_id ∷ [])
            0 dht_protocol_id (answer true dht_protocol_id)
            (encode_canonical_frame f.session ++ (encode_canonical_frame f.request ++ rest))
            (encodes dht_protocol_id (omega arith)))
          (rw
            (perform_session_handshake_responder_lem proto f.session f.is_session (negotiated [] [])
              refl refl f.reply (encode_canonical_frame f.request ++ rest) f.is_reply)
            (rw
              (receive_message_lem proto.rpc_request (our_request f.payload) f.request f.is_request
                (negotiated [] (encode_canonical_frame f.reply)) rest refl)
              (answer_request_lem (negotiated rest (encode_canonical_frame f.reply)) refl)))

  get_peers_lem :
      (rest : List ℕ)
      → length f.responses ≤ max_get_peers_stream_iterations
      → get_peers proto stream_transport false req (new_stream_transport (answered ++ rest)) ≡ (
        ok (present (bound_peers_for_request peers req)),
        record (framed rest) { outgoing = asked },
      )
  unfolding get_peers stream_begin_canonical_framing
  get_peers_lem rest h =
      ap
        (λ i.
          get_peers proto stream_transport false req
            (new_stream_transport (answer true dht_protocol_id ++ i)))
        (append_assoc (encode_canonical_frame f.reply) (wire f.responses) rest)
      ∙ rw
          (hears true dht_protocol_id (encode_canonical_frame f.reply ++ (wire f.responses ++ rest))
            (omega arith))
          (rw
            (perform_session_handshake_lem proto f.session f.is_session (negotiated [] []) refl refl
              acceptance f.reply (wire f.responses ++ rest) f.is_reply)
            (rw f.is_payload.marshals (
              rw
                (send_message_lem proto.rpc_request (our_request f.payload) f.request f.is_request
                  (negotiated (wire f.responses ++ rest) (encode_canonical_frame f.session)) refl)
                (get_peers_loop_lem proto default_request_id f.empty_response
                  (negotiated []
                    (encode_canonical_frame f.session ++ encode_canonical_frame f.request))
                  (bound_peers_for_request peers req) f.responses rest refl f.are_responses
                  max_get_peers_stream_iterations [] h))))

responses_count :
    (proto : Protobuf) (request_id limit : ℕ) (peers : List (Option PeerInfo)) (bs : List (List ℕ))
    → IsServing proto request_id peers bs
    → length peers ≤ limit
    → 1 ≤ limit
    → length bs ≤ limit
responses_count proto request_id limit peers bs (nothing r) h k = omega arith
responses_count proto request_id limit peers bs (last r) h k = omega arith
responses_count proto request_id zero peers bs (more r rs) h k = absurd (omega arith)
responses_count proto request_id (suc zero) peers bs (more r rs) h k = absurd (omega arith)
responses_count proto request_id (suc (suc limit)) (p ∷ q ∷ peers) (b ∷ bs) (more r rs) h k =
    omega (
      arith,
      responses_count proto request_id (suc limit) (q ∷ peers) bs rs (omega arith) (omega arith),
    )

-- A client asks a responder for peers, each over a fresh stream that carries what the other wrote and
-- perhaps more. Given that the messages have serialised forms, that an empty slice unmarshals to the zero
-- message, and that no more than 100000 peers are handed out: both sides succeed, the client gets the peers
-- of the responder's list bounded by the client's request, in order and less the nil ones, and each side
-- has read what the other wrote and nothing behind it.
pub get_peers-serve_get_peers :
    (proto : Protobuf) (req : GetPeersRequest) (peers : List (Option PeerInfo))
    (f : Forms proto req peers) (rest extra : List ℕ)
    → length (bound_peers_for_request peers req) ≤ max_get_peers_stream_iterations
    → let (served, server) =
        serve_get_peers proto stream_transport peers
          (new_stream_transport (asked proto req peers f ++ rest)) in
      let (got, client) =
        get_peers proto stream_transport false req
          (new_stream_transport (server.outgoing ++ extra)) in
      (served ≡ ok tt)
      × (server.incoming ≡ rest)
      × (got ≡ ok (present (bound_peers_for_request peers req)))
      × (client.outgoing ≡ asked proto req peers f)
      × (client.incoming ≡ extra)
get_peers-serve_get_peers proto req peers f rest extra h =
    rw (serve_get_peers_lem proto req peers f rest)
      (rw (get_peers_lem proto req peers f extra few) (refl, refl, refl, refl, refl))
  where
    few : length f.responses ≤ max_get_peers_stream_iterations
    few =
        responses_count proto default_request_id max_get_peers_stream_iterations
          (bound_peers_for_request peers req) f.responses f.are_responses h (omega arith)
