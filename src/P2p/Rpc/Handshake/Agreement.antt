-- ===== src/P2p/Rpc/Handshake/Agreement.antt =====
-- p2p/rpc/handshake.go over p2p/rpc/streamtransport.go: what the two sides make of each other.
use go_tari_lib.Common.{ℕ, List, [], ◌∷◌, ◌++◌, ◌≡◌, refl, true}
use go_tari_lib.Common.Result.{ok, err}
use go_tari_lib.P2p.Rpc.Errors.{handshake_rejected}
use go_tari_lib.P2p.Rpc.CanonicalFrame.{encode_canonical_frame, decode-encode_canonical}
use go_tari_lib.P2p.Rpc.StreamTransport.{StreamTransport, stream_transport, new_stream_transport}
use go_tari_lib.P2p.Rpc.StreamTransport.Frames.{stream_receive_canonical}
use go_tari_lib.P2p.Rpc.Messages.{
  Protobuf, IsForm, RpcSession, RpcSessionReply, accepted_version, rejected,
}
use go_tari_lib.P2p.Rpc.Handshake.{
  supported_rpc_version, session_outcome, perform_session_handshake,
  perform_session_handshake_responder, reject_session_handshake_responder, send_message_lem,
  receive_message_lem,
}

abbrev pub our_session : RpcSession
our_session = record { supported_versions = supported_rpc_version ∷ [] }

abbrev pub acceptance : RpcSessionReply
acceptance = record { session_result = accepted_version supported_rpc_version; reject_reason = 0 }

abbrev pub rejection : ℕ → RpcSessionReply
rejection reason = record { session_result = rejected true; reject_reason = reason }

-- A stream on which canonical framing has begun.
abbrev pub framed : List ℕ → StreamTransport
framed incoming = record (new_stream_transport incoming) { canonical = true }

module _ (proto : Protobuf) (s : List ℕ) (fs : IsForm proto.rpc_session our_session s) where
  module _ (t : StreamTransport) (w : t.writable ≡ true) (c : t.canonical ≡ true) where
    -- The client sends its session message and judges one reply.
    pub perform_session_handshake_lem :
        (reply : RpcSessionReply) (r rest : List ℕ)
        → IsForm proto.rpc_session_reply reply r
        → perform_session_handshake proto stream_transport
            (record t { incoming = encode_canonical_frame r ++ rest })
          ≡ (
            session_outcome reply,
            record t { incoming = rest; outgoing = t.outgoing ++ encode_canonical_frame s },
          )
    unfolding perform_session_handshake
    perform_session_handshake_lem reply r rest fr =
        rw
          (send_message_lem proto.rpc_session our_session s fs
            (record t { incoming = encode_canonical_frame r ++ rest }) w)
          (rw
            (receive_message_lem proto.rpc_session_reply reply r fr
              (record t { outgoing = t.outgoing ++ encode_canonical_frame s }) rest c)
            refl)

    -- The responder reads the session message and accepts it.
    pub perform_session_handshake_responder_lem :
        (r rest : List ℕ)
        → IsForm proto.rpc_session_reply acceptance r
        → perform_session_handshake_responder proto stream_transport
            (record t { incoming = encode_canonical_frame s ++ rest })
          ≡ (ok tt, record t { incoming = rest; outgoing = t.outgoing ++ encode_canonical_frame r })
    unfolding perform_session_handshake_responder
    perform_session_handshake_responder_lem r rest fr =
        rw (receive_message_lem proto.rpc_session our_session s fs t rest c) (
          rw
            (send_message_lem proto.rpc_session_reply acceptance r fr (record t { incoming = rest })
              w)
            refl)

    pub reject_session_handshake_responder_lem :
        (reason : ℕ) (r rest : List ℕ)
        → IsForm proto.rpc_session_reply (rejection reason) r
        → reject_session_handshake_responder proto stream_transport reason
            (record t { incoming = encode_canonical_frame s ++ rest })
          ≡ (ok tt, record t { incoming = rest; outgoing = t.outgoing ++ encode_canonical_frame r })
    unfolding reject_session_handshake_responder
    reject_session_handshake_responder_lem reason r rest fr =
        rw (stream_receive_canonical t s rest fs.fits c) (
          rw (decode-encode_canonical s fs.fits) (
            rw
              (send_message_lem proto.rpc_session_reply (rejection reason) r fr
                (record t { incoming = rest }) w)
              refl))

  -- Given that the client's session message has a serialised form, and so has the reply: the client
  -- that reads what an accepting responder wrote succeeds with version 0, and the client that reads what
  -- a rejecting responder wrote fails with the responder's reason. Each responder succeeds on what
  -- the client wrote, and no side leaves a byte of the other's message unread.
  pub session_handshake_agreement :
      (reason : ℕ) (a r rest more : List ℕ)
      → IsForm proto.rpc_session_reply acceptance a
      → IsForm proto.rpc_session_reply (rejection reason) r
      → let asked = framed (encode_canonical_frame s ++ rest) in
        let client = λ (answer : List ℕ).
          perform_session_handshake proto stream_transport (framed (answer ++ more)) in
        let (accepts, accepting) =
          perform_session_handshake_responder proto stream_transport asked in
        let (rejects, rejecting) =
          reject_session_handshake_responder proto stream_transport reason asked in
        let after = record (framed more) { outgoing = encode_canonical_frame s } in
        (accepts ≡ ok tt)
        × (accepting.incoming ≡ rest)
        × (client accepting.outgoing ≡ (ok 0, after))
        × (rejects ≡ ok tt)
        × (rejecting.incoming ≡ rest)
        × (client rejecting.outgoing ≡ (err (handshake_rejected reason), after))
  session_handshake_agreement reason a r rest more fa fr =
      rw (perform_session_handshake_responder_lem (framed []) refl refl a rest fa) (
        rw (reject_session_handshake_responder_lem (framed []) refl refl reason r rest fr) (
          refl,
          refl,
          perform_session_handshake_lem (framed []) refl refl acceptance a more fa,
          refl,
          refl,
          perform_session_handshake_lem (framed []) refl refl (rejection reason) r more fr,
        ))
