-- ===== src/P2p/Rpc/GetPeers.antt =====
-- p2p/rpc/dht_getpeers.go: the client of get_peers.
pub mod Responses
pub mod Failures
use go_tari_lib.Common.{
  ℕ, zero, suc, Bool, true, false, not, Option, some, none, List, [], ◌∷◌, ◌++◌, ltb, ◌==◌, bit_and,
  if◌then◌else◌, length,
}
use go_tari_lib.Common.Result.{Result, ok, err, some_or_fail}
use go_tari_lib.Common.Action.{Action, ◌>>=◌, ◌>>◌, pure, give, raise}
use go_tari_lib.P2p.Rpc.Errors.{
  Error, marshal_failed, unmarshal_failed, rpc_status, context_done, max_iterations_exceeded,
}
use go_tari_lib.P2p.Rpc.StreamTransport.{Transport}
use go_tari_lib.P2p.Rpc.Negotiation.{negotiate_protocol}
use go_tari_lib.P2p.Rpc.Messages.{Protobuf, RpcRequest, RpcResponse, GetPeersRequest, PeerInfo}
use go_tari_lib.P2p.Rpc.Handshake.{send_message, receive_message, perform_session_handshake}

-- "t/dht/1"
abbrev pub dht_protocol_id : List ℕ
dht_protocol_id = 116 ∷ 47 ∷ 100 ∷ 104 ∷ 116 ∷ 47 ∷ 49 ∷ []

abbrev pub get_peers_method : ℕ
get_peers_method = 10

abbrev pub rpc_response_flag_fin : ℕ
rpc_response_flag_fin = 0x01

abbrev pub max_get_peers_stream_iterations : ℕ
max_get_peers_stream_iterations = 100000

abbrev pub default_request_id : ℕ
default_request_id = 1

abbrev pub default_rpc_deadline_seconds : ℕ
default_rpc_deadline_seconds = 20

-- `peers = append(peers, peer)` if it is not nil.
abbrev pub append_peer : List PeerInfo → Option PeerInfo → List PeerInfo
append_peer peers none = peers
append_peer peers (some peer) = peers ++ (peer ∷ [])

module _ (proto : Protobuf) where
  -- What a response's payload adds to the list.
  unfoldable pub add_payload : List PeerInfo → List ℕ → Result Error (List PeerInfo)
  add_payload peers payload =
      if ltb 0 (length payload)
      then (elim (proto.get_peers_response.unmarshal payload) [
        | none ↦ err unmarshal_failed
        | some resp ↦ ok (append_peer peers resp.peer)
      ])
      else ok peers

module _ {S : Type 0} (proto : Protobuf) (session : Transport S) where
  -- The loop, with the iterations that are left and the peers so far.
  unfoldable pub get_peers_loop : ℕ → List PeerInfo → Action S Error (List PeerInfo)
  get_peers_loop zero peers = raise max_iterations_exceeded
  get_peers_loop (suc left) peers = do
    resp ← receive_message session proto.rpc_response
    if not (resp.status == 0) then raise (rpc_status resp.status) else (do
      peers' ← give (add_payload proto peers resp.payload)
      elim (bit_and resp.flags rpc_response_flag_fin == 0) [
        | true ↦ get_peers_loop left peers'
        | false ↦ pure peers'
      ])

  -- `done` tells whether the context is done at the start, the only time it is looked at.
  unfoldable pub get_peers : Bool → GetPeersRequest → Action S Error (List PeerInfo)
  get_peers done req = if done then raise context_done else (do
    negotiate_protocol session dht_protocol_id
    session.begin_canonical_framing
    version ← perform_session_handshake proto session
    payload_bytes ← give (some_or_fail (proto.get_peers_request.marshal req) marshal_failed)
    send_message session proto.rpc_request (record {
      request_id = default_request_id;
      method = get_peers_method;
      flags = 0;
      deadline = default_rpc_deadline_seconds;
      payload = payload_bytes;
    })
    get_peers_loop max_get_peers_stream_iterations [])
