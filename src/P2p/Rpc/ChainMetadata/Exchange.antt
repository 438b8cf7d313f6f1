-- ===== src/P2p/Rpc/ChainMetadata/Exchange.antt =====
-- p2p/rpc/chainmetadata.go: what the client makes of everything a peer can say.
use mathlib.Core.Path.{subst}
use go_tari_lib.Common.{
  ℕ, ◌≡◌, ◌≢◌, ◌⊎◌, refl, sym, ◌∙◌, inl, inr, List, [], ◌++◌, Bool, true, false, not, ◌||◌, ◌==◌,
  bit_and, if◌then◌else◌, Option, some, none, arith,
}
use go_tari_lib.Common.Result.{Result, ok, err, some_or_fail, Result-cases, ◌>>=◌}
use go_tari_lib.P2p.Rpc.CanonicalFrame.{encode_canonical_frame}
use go_tari_lib.P2p.Rpc.NegotiationFrame.{encode_negotiation_frame}
use go_tari_lib.P2p.Rpc.StreamTransport.{
  StreamTransport, stream_transport, new_stream_transport, stream_begin_canonical_framing,
}
use go_tari_lib.P2p.Rpc.Negotiation.Agreement.{answer, encodes, verdict, negotiate_protocol_lem}
use go_tari_lib.P2p.Rpc.Messages.{
  Protobuf, IsForm, RpcResponse, RpcSessionReply, SessionResult, unset, accepted_version, rejected,
  ChainMetadata,
}
use go_tari_lib.P2p.Rpc.Errors.{
  Error, protocol_terminated, protocol_not_supported, handshake_rejected, rejected_is_false,
  no_session_result, rpc_status, unmarshal_failed,
}
use go_tari_lib.P2p.Rpc.Negotiation.{bytes_equal, bytes_equal_iff}
use go_tari_lib.P2p.Rpc.Handshake.{session_outcome, send_message_lem, receive_message_lem}
use go_tari_lib.P2p.Rpc.Handshake.Agreement.{our_session, framed, perform_session_handshake_lem}
use go_tari_lib.P2p.Rpc.ChainMetadata.{
  block_sync_protocol_id, metadata_request, metadata_of_response, get_chain_metadata,
}

-- The client's result is that of the first of the three parts that refuses, and otherwise what the response
-- holds.
outcome_lem :
    (proto : Protobuf) (s q r b : List ℕ) (flags : ℕ) (echoed negotiation : List ℕ)
    (reply : RpcSessionReply) (resp : RpcResponse) (rest : List ℕ)
    → IsForm proto.rpc_session our_session s
    → IsForm proto.rpc_request metadata_request q
    → encode_negotiation_frame flags echoed ≡ ok negotiation
    → IsForm proto.rpc_session_reply reply r
    → IsForm proto.rpc_response resp b
    → (get_chain_metadata proto stream_transport false (
        new_stream_transport
          (negotiation ++ (encode_canonical_frame r ++ (encode_canonical_frame b ++ rest))))).0
      ≡ (verdict block_sync_protocol_id flags echoed >>= λ agreed.
          session_outcome reply >>= λ version. metadata_of_response proto resp)
unfolding get_chain_metadata stream_begin_canonical_framing
outcome_lem proto s q r b flags echoed negotiation reply resp rest fs fq h fr fb =
    rw
      (negotiate_protocol_lem (new_stream_transport []) refl refl block_sync_protocol_id
        (answer true block_sync_protocol_id) negotiation flags echoed
        (encode_canonical_frame r ++ (encode_canonical_frame b ++ rest))
        (encodes block_sync_protocol_id (omega arith)) h)
      (elim (Result-cases (verdict block_sync_protocol_id flags echoed)) [
        | inr (e, p) ↦ rw p refl
        | inl (agreed, p) ↦ rw p (
            rw
              (perform_session_handshake_lem proto s fs (negotiated []) refl refl reply r
                (encode_canonical_frame b ++ rest) fr)
              (elim (Result-cases (session_outcome reply)) [
                | inr (e, o) ↦ rw o refl
                | inl (version, o) ↦ rw o (
                    rw
                      (send_message_lem proto.rpc_request metadata_request q fq
                        (negotiated_with (encode_canonical_frame b ++ rest)) refl)
                      (rw (receive_message_lem proto.rpc_response resp b fb asked rest refl) refl))
              ]))
      ])
  where
    negotiated : List ℕ → StreamTransport
    negotiated incoming = record (framed incoming) { outgoing = answer true block_sync_protocol_id }

    negotiated_with : List ℕ → StreamTransport
    negotiated_with incoming = record (framed incoming) {
      outgoing = answer true block_sync_protocol_id ++ encode_canonical_frame s;
    }

    asked : StreamTransport
    asked = record (framed []) {
      outgoing =
          (answer true block_sync_protocol_id ++ encode_canonical_frame s)
          ++ encode_canonical_frame q;
    }

-- The peer echoed the protocol with neither of the two flags.
pub record IsGranted (flags : ℕ) (echoed : List ℕ) : Type 0 where
  pub not_terminated : bit_and flags 2 ≡ 0
  pub not_refused : bit_and flags 4 ≡ 0
  pub same_protocol : echoed ≡ block_sync_protocol_id

abbrev by_tests : Bool → Bool → Bool → Result Error (Unit {0})
by_tests b c d =
    if not b
    then err protocol_terminated
    else if not c || not d
    then err protocol_not_supported
    else ok tt

-- What a peer that says all this is answered with, by the order in which it is looked at.
pub data Answer (proto : Protobuf) (flags : ℕ) (echoed : List ℕ) (reply : RpcSessionReply)
    (resp : RpcResponse) : Result Error ChainMetadata → Type 0 where
  terminated : bit_and flags 2 ≢ 0 → Answer proto flags echoed reply resp (err protocol_terminated)
  not_supported :
      bit_and flags 2 ≡ 0
      → (bit_and flags 4 ≢ 0) ⊎ (echoed ≢ block_sync_protocol_id)
      → Answer proto flags echoed reply resp (err protocol_not_supported)
  session_rejected :
      IsGranted flags echoed
      → reply.session_result ≡ rejected true
      → Answer proto flags echoed reply resp (err (handshake_rejected reply.reject_reason))
  rejected_as_false :
      IsGranted flags echoed
      → reply.session_result ≡ rejected false
      → Answer proto flags echoed reply resp (err rejected_is_false)
  without_result :
      IsGranted flags echoed
      → reply.session_result ≡ unset
      → Answer proto flags echoed reply resp (err no_session_result)
  failed :
      (version : ℕ)
      → IsGranted flags echoed
      → reply.session_result ≡ accepted_version version
      → resp.status ≢ 0
      → Answer proto flags echoed reply resp (err (rpc_status resp.status))
  undecodable :
      (version : ℕ)
      → IsGranted flags echoed
      → reply.session_result ≡ accepted_version version
      → resp.status ≡ 0
      → proto.chain_metadata.unmarshal resp.payload ≡ none
      → Answer proto flags echoed reply resp (err unmarshal_failed)
  answered :
      (version : ℕ) (metadata : ChainMetadata)
      → IsGranted flags echoed
      → reply.session_result ≡ accepted_version version
      → resp.status ≡ 0
      → proto.chain_metadata.unmarshal resp.payload ≡ some metadata
      → Answer proto flags echoed reply resp (ok metadata)

module _ (proto : Protobuf) (flags : ℕ) (echoed : List ℕ) (reply : RpcSessionReply)
    (resp : RpcResponse) where
  response-Answer :
      (version : ℕ)
      → IsGranted flags echoed
      → reply.session_result ≡ accepted_version version
      → Answer proto flags echoed reply resp (metadata_of_response proto resp)
  unfolding metadata_of_response
  response-Answer version g a =
      by_parts (resp.status == 0) (proto.chain_metadata.unmarshal resp.payload) refl refl
    where
      by_parts :
          (b : Bool) (o : Option ChainMetadata)
          → (resp.status == 0) ≡ b
          → proto.chain_metadata.unmarshal resp.payload ≡ o
          → Answer proto flags echoed reply resp
              (if not b then err (rpc_status resp.status) else some_or_fail o unmarshal_failed)
      by_parts false o e u = failed version g a (ground arith)
      by_parts true none e u = undecodable version g a (ground arith) u
      by_parts true (some m) e u = answered version m g a (ground arith) u

  session-Answer :
      IsGranted flags echoed
      → Answer proto flags echoed reply resp
          (session_outcome reply >>= λ version. metadata_of_response proto resp)
  session-Answer g = by_result reply.session_result refl
    where
      by_result :
          (r : SessionResult)
          → reply.session_result ≡ r
          → Answer proto flags echoed reply resp (
              session_outcome (record { session_result = r; reject_reason = reply.reject_reason })
              >>= λ version. metadata_of_response proto resp)
      by_result unset e = without_result g e
      by_result (accepted_version v) e = response-Answer v g e
      by_result (rejected true) e = session_rejected g e
      by_result (rejected false) e = rejected_as_false g e

  verdict-Answer : Answer proto flags echoed reply resp (
      verdict block_sync_protocol_id flags echoed >>= λ agreed.
      session_outcome reply >>= λ version. metadata_of_response proto resp)
  verdict-Answer =
      by_flags (bit_and flags 2 == 0) (bit_and flags 4 == 0)
        (bytes_equal echoed block_sync_protocol_id) refl refl refl
    where
      by_flags :
          (b c d : Bool)
          → (bit_and flags 2 == 0) ≡ b
          → (bit_and flags 4 == 0) ≡ c
          → bytes_equal echoed block_sync_protocol_id ≡ d
          → Answer proto flags echoed reply resp (
              by_tests b c d >>= λ agreed.
              session_outcome reply >>= λ version. metadata_of_response proto resp)
      by_flags false c d e f g = terminated (ground arith)
      by_flags true false d e f g = not_supported (ground arith) (inl (ground arith))
      by_flags true true false e f g = not_supported (ground arith) (inr other)
        where
          clash : true ≡ false → ⊥
          clash k = cc

          other : echoed ≢ block_sync_protocol_id
          other same = clash (sym ((bytes_equal_iff echoed block_sync_protocol_id).1 same) ∙ g)
      by_flags true true true e f g = session-Answer (record {
        not_terminated = ground arith;
        not_refused = ground arith;
        same_protocol = (bytes_equal_iff echoed block_sync_protocol_id).0 g;
      })

-- Given the serialised forms of the client's two messages and of the peer's two: whatever flags and
-- id the peer negotiates with, whatever it replies to the session and with whatever response, the
-- client's result is an error for the terminating flag, for the other flag or another protocol, for a
-- session that is rejected or has no result, for a status other than 0 or a payload that is not read; and
-- otherwise, in this order, what the response holds.
pub get_chain_metadata_outcome :
    (proto : Protobuf) (s q r b : List ℕ) (flags : ℕ) (echoed negotiation : List ℕ)
    (reply : RpcSessionReply) (resp : RpcResponse) (rest : List ℕ)
    → IsForm proto.rpc_session our_session s
    → IsForm proto.rpc_request metadata_request q
    → encode_negotiation_frame flags echoed ≡ ok negotiation
    → IsForm proto.rpc_session_reply reply r
    → IsForm proto.rpc_response resp b
    → Answer proto flags echoed reply resp
        (get_chain_metadata proto stream_transport false (
          new_stream_transport
            (negotiation ++ (encode_canonical_frame r ++ (encode_canonical_frame b ++ rest))))).0
get_chain_metadata_outcome proto s q r b flags echoed negotiation reply resp rest fs fq h fr fb =
    subst (Answer proto flags echoed reply resp)
      (sym (outcome_lem proto s q r b flags echoed negotiation reply resp rest fs fq h fr fb))
      (verdict-Answer proto flags echoed reply resp)
