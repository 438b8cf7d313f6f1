-- ===== src/P2p/Rpc/Errors.antt =====
-- The failures of package `p2p/rpc`. The text that `fmt.Errorf` wraps round an error is left out; what
-- `errors.Is` and `errors.As` tell apart is kept, and so are the places where an error begins.
use go_tari_lib.Common.{ℕ}

pub data Error : Type 0 where
  -- frames
  canonical_frame_too_short canonical_frame_length : Error
  negotiation_frame_too_short negotiation_frame_length protocol_id_too_long : Error
  -- the stream under a transport
  write_failed read_failed : Error
  -- negotiation: `ErrProtocolTerminated` is an `ErrProtocolNotSupported` too
  protocol_not_supported protocol_terminated : Error
  -- protobuf
  marshal_failed unmarshal_failed : Error
  -- the RPC session handshake; the number is the reason for the rejection
  handshake_rejected : ℕ → Error
  rejected_is_false no_session_result : Error
  -- `RPCStatusError`
  rpc_status : ℕ → Error
  context_done : Error
  max_iterations_exceeded : Error
