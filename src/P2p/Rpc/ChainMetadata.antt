-- ===== src/P2p/Rpc/ChainMetadata.antt =====
-- p2p/rpc/chainmetadata.go
pub mod Exchange
use go_tari_lib.Common.{ℕ, Bool, not, List, [], ◌∷◌, ◌==◌, if◌then◌else◌}
use go_tari_lib.Common.Result.{Result, err, some_or_fail}
use go_tari_lib.Common.Action.{Action, ◌>>=◌, ◌>>◌, give, raise}
use go_tari_lib.P2p.Rpc.Errors.{Error, unmarshal_failed, rpc_status, context_done}
use go_tari_lib.P2p.Rpc.StreamTransport.{Transport}
use go_tari_lib.P2p.Rpc.Negotiation.{negotiate_protocol}
use go_tari_lib.P2p.Rpc.Messages.{Protobuf, RpcRequest, RpcResponse, ChainMetadata}
use go_tari_lib.P2p.Rpc.Handshake.{send_message, receive_message, perform_session_handshake}
use go_tari_lib.P2p.Rpc.GetPeers.{default_request_id, default_rpc_deadline_seconds}

-- "t/blksync/1"
abbrev pub block_sync_protocol_id : List ℕ
block_sync_protocol_id = 116 ∷ 47 ∷ 98 ∷ 108 ∷ 107 ∷ 115 ∷ 121 ∷ 110 ∷ 99 ∷ 47 ∷ 49 ∷ []

abbrev pub get_chain_metadata_method : ℕ
get_chain_metadata_method = 5

abbrev pub metadata_request : RpcRequest
metadata_request = record {
  request_id = default_request_id;
  method = get_chain_metadata_method;
  flags = 0;
  deadline = default_rpc_deadline_seconds;
  payload = [];
}

-- The status comes first; the payload is taken apart only when it is 0.
unfoldable pub metadata_of_response : Protobuf → RpcResponse → Result Error ChainMetadata
metadata_of_response proto resp =
    if not (resp.status == 0)
    then err (rpc_status resp.status)
    else some_or_fail (proto.chain_metadata.unmarshal resp.payload) unmarshal_failed

-- `done` tells whether the context is done at the start, the only time it is looked at.
unfoldable pub get_chain_metadata :
    {S : Type 0} → Protobuf → Transport S → Bool → Action S Error ChainMetadata
get_chain_metadata proto session done = if done then raise context_done else (do
  negotiate_protocol session block_sync_protocol_id
  session.begin_canonical_framing
  version ← perform_session_handshake proto session
  send_message session proto.rpc_request metadata_request
  resp ← receive_message session proto.rpc_response
  give (metadata_of_response proto resp))
