-- ===== src/P2p/Rpc/Handshake.antt =====
-- p2p/rpc/handshake.go
pub mod Agreement
use go_tari_lib.Common.{
  ℕ, Bool, not, List, ◌∷◌, [], if◌then◌else◌, ◌≡◌, ◌^◌, ◌<◌, length, ◌++◌, refl, ap, true, false,
}
use go_tari_lib.Common.Result.{Result, ok, err, some_or_fail}
use go_tari_lib.Common.Action.{Action, ◌>>=◌, ◌>>◌, pure, give, raise}
use go_tari_lib.P2p.Rpc.Errors.{
  Error, marshal_failed, unmarshal_failed, handshake_rejected, rejected_is_false, no_session_result,
}
use go_tari_lib.P2p.Rpc.CanonicalFrame.{
  encode_canonical_frame, decode_canonical_frame, decode-encode_canonical,
}
use go_tari_lib.P2p.Rpc.StreamTransport.{Transport, StreamTransport, stream_transport}
use go_tari_lib.P2p.Rpc.StreamTransport.Frames.{stream_send, stream_receive_canonical}
use go_tari_lib.P2p.Rpc.Messages.{
  Codec, Protobuf, IsForm, RpcSession, RpcSessionReply, SessionResult, unset, accepted_version,
  rejected,
}

abbrev pub supported_rpc_version : ℕ
supported_rpc_version = 0

module _ {S : Type 0} (session : Transport S) {M : Type 0} (codec : Codec M) where
  -- `googleproto.Marshal`, then `SendFrame(EncodeCanonicalFrame(...))`
  unfoldable pub send_message : M → Action S Error Unit
  send_message m = do
    bytes ← give (some_or_fail (codec.marshal m) marshal_failed)
    session.send_frame (encode_canonical_frame bytes)

  -- `ReceiveFrame`, `DecodeCanonicalFrame`, then `googleproto.Unmarshal`
  unfoldable pub receive_message : Action S Error M
  receive_message = do
    in_frame ← session.receive_frame
    bytes ← give (decode_canonical_frame in_frame)
    give (some_or_fail (codec.unmarshal bytes) unmarshal_failed)

-- The switch over `GetSessionResult()`.
abbrev pub session_outcome : RpcSessionReply → Result Error ℕ
session_outcome reply = elim reply.session_result [
  | accepted_version v ↦ ok v
  | rejected r ↦
      if not r then err rejected_is_false else err (handshake_rejected reply.reject_reason)
  | unset ↦ err no_session_result
]

module _ {S : Type 0} (proto : Protobuf) (session : Transport S) where
  unfoldable pub perform_session_handshake : Action S Error ℕ
  perform_session_handshake = do
    send_message session proto.rpc_session
        (record { supported_versions = supported_rpc_version ∷ [] })
    reply ← receive_message session proto.rpc_session_reply
    give (session_outcome reply)

  unfoldable pub perform_session_handshake_responder : Action S Error Unit
  perform_session_handshake_responder = do
    req ← receive_message session proto.rpc_session
    send_message session proto.rpc_session_reply
        (record { session_result = accepted_version supported_rpc_version; reject_reason = 0 })

  -- The request's frame is taken apart here, but what is in it is not looked at.
  unfoldable pub reject_session_handshake_responder : ℕ → Action S Error Unit
  reject_session_handshake_responder reason = do
    in_frame ← session.receive_frame
    bytes ← give (decode_canonical_frame in_frame)
    send_message session proto.rpc_session_reply
        (record { session_result = rejected true; reject_reason = reason })

module _ {M : Type 0} (codec : Codec M) (m : M) (b : List ℕ) (f : IsForm codec m b)
    (t : StreamTransport) where
  pub send_message_lem :
      t.writable ≡ true
      → send_message stream_transport codec m t
        ≡ (ok tt, record t { outgoing = t.outgoing ++ encode_canonical_frame b })
  unfolding send_message
  send_message_lem w = rw f.marshals (stream_send t (encode_canonical_frame b) w)

  pub receive_message_lem :
      (rest : List ℕ)
      → t.canonical ≡ true
      → receive_message stream_transport codec
          (record t { incoming = encode_canonical_frame b ++ rest })
        ≡ (ok m, record t { incoming = rest })
  unfolding receive_message
  receive_message_lem rest c =
      rw (stream_receive_canonical t b rest f.fits c)
        (rw (decode-encode_canonical b f.fits) (rw f.unmarshals refl))
