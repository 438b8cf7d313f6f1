-- ===== src/P2p/Rpc/Negotiation.antt =====
-- p2p/rpc/negotiation.go: the two sides of protocol negotiation.
pub mod Agreement
use go_tari_lib.Common.{
  ℕ, suc, ◌≤◌, ◌≡◌, refl, ap, ◌∙◌, ◌↔◌, ◌⊎◌, Bool, true, false, not, ◌&&◌, List, [], ◌∷◌, ◌++◌,
  arith, ltb, ◌==◌, bit_and, if◌then◌else◌, length,
}
use go_tari_lib.Common.Result.{Result, ok, err}
use go_tari_lib.Common.Action.{Action, ◌>>=◌, ◌>>◌, pure, give, raise, bind-ok}
use go_tari_lib.P2p.Rpc.Errors.{Error, protocol_not_supported, protocol_terminated}
use go_tari_lib.P2p.Rpc.NegotiationFrame.{
  encode_negotiation_frame, decode_negotiation_frame, negotiation_flag_none,
  negotiation_flag_terminate, negotiation_flag_not_supported,
}
use go_tari_lib.P2p.Rpc.StreamTransport.{Transport, StreamTransport, stream_transport}

-- The loop of `bytesEqual`, over slices of one length.
abbrev same_bytes : List ℕ → List ℕ → Bool
same_bytes (x ∷ xs) (y ∷ ys) = (x == y) && same_bytes xs ys
same_bytes [] ys = true
same_bytes (x ∷ xs) [] = true

unfoldable pub bytes_equal : List ℕ → List ℕ → Bool
bytes_equal a b = if not (length a == length b) then false else same_bytes a b

-- The loop of `NegotiateProtocolInbound` over the protocols that the caller supports.
abbrev pub supports : List (List ℕ) → List ℕ → Bool
supports [] requested = false
supports (p ∷ ps) requested = if bytes_equal p requested then true else supports ps requested

module _ {S : Type 0} (session : Transport S) where
  unfoldable pub negotiate_protocol : List ℕ → Action S Error Unit
  negotiate_protocol protocol_id = do
    out_frame ← give (encode_negotiation_frame negotiation_flag_none protocol_id)
    session.send_frame out_frame
    in_frame ← session.receive_frame
    (flags, echoed_protocol) ← give (decode_negotiation_frame in_frame)
    if not (bit_and flags negotiation_flag_terminate == 0)
        then raise protocol_terminated
        else if not (bit_and flags negotiation_flag_not_supported == 0)
        then raise protocol_not_supported
        else if not (bytes_equal echoed_protocol protocol_id)
        then raise protocol_not_supported
        else pure tt

  unfoldable pub negotiate_protocol_inbound : List (List ℕ) → Action S Error (List ℕ)
  negotiate_protocol_inbound supported_protocols = do
    in_frame ← session.receive_frame
    (flags, requested) ← give (decode_negotiation_frame in_frame)
    if not (supports supported_protocols requested)
        then (do
          out_frame ← give (encode_negotiation_frame negotiation_flag_not_supported [])
          session.send_frame out_frame
          raise protocol_not_supported)
        else (do
          out_frame ← give (encode_negotiation_frame negotiation_flag_none requested)
          session.send_frame out_frame
          pure requested)

-- `bytesEqual` holds of equal slices and of no others.
pub bytes_equal_iff : (a b : List ℕ) → (bytes_equal a b ≡ true) ↔ (a ≡ b)
unfolding bytes_equal
bytes_equal_iff [] [] = ground arith
bytes_equal_iff [] (y ∷ ys) = ground arith
bytes_equal_iff (x ∷ xs) [] = ground arith
bytes_equal_iff (x ∷ xs) (y ∷ ys) = ground (arith, bytes_equal_iff xs ys)
