-- ===== src/P2p/Tests.antt =====
-- Concrete runs of package `p2p` and `p2p/rpc`, with stand-ins for protobuf, the ciphers and the group.
mod Session
mod Handshake
mod Exchange
mod Multiaddr
mod Responder
mod Socks
use go_tari_lib.Common.{
  ℕ, zero, suc, ◌+◌, ◌*◌, ◌%◌, ◌≡◌, ◌≢◌, ◌↔◌, ◌≤◌, inl, inr, map, take, min, refl, Bool, true,
  false, Option, some, none, List, [], ◌∷◌, ◌++◌, arith, length, All, ◌==◌, if◌then◌else◌,
}
use go_tari_lib.Common.Result.{Result, ok, err, ◌>>=◌}
use go_tari_lib.P2p.Rpc.Errors.{
  protocol_not_supported, handshake_rejected, max_iterations_exceeded, rpc_status,
}
use go_tari_lib.P2p.Rpc.CanonicalFrame.{
  encode_canonical_frame, decode_canonical_frame, decode_canonical_frame_iff,
}
use go_tari_lib.P2p.Rpc.NegotiationFrame.{
  encode_negotiation_frame, decode_negotiation_frame, decode_negotiation_frame_iff,
  negotiation_flag_none,
}
use go_tari_lib.P2p.Rpc.StreamTransport.{StreamTransport, new_stream_transport, stream_transport}
use go_tari_lib.P2p.Rpc.StreamTransport.Frames.{
  send_payloads, receive_payloads, receive_payloads-send_payloads, wire,
}
use go_tari_lib.P2p.Rpc.Negotiation.{supports, negotiate_protocol, negotiate_protocol_inbound}
use go_tari_lib.P2p.Rpc.Negotiation.Agreement.{Outcome, negotiation_agreement, verdict, encodes}
use go_tari_lib.P2p.Rpc.Messages.{
  Codec, Protobuf, IsForm, RpcRequest, RpcResponse, RpcSession, RpcSessionReply, unset,
  accepted_version, rejected, GetPeersRequest, GetPeersResponse, PeerInfo, PeerIdentityClaim,
  ChainMetadata,
}
use go_tari_lib.P2p.Rpc.Handshake.{
  session_outcome, perform_session_handshake, perform_session_handshake_responder,
  reject_session_handshake_responder,
}
use go_tari_lib.P2p.Rpc.Handshake.Agreement.{
  our_session, acceptance, rejection, framed, session_handshake_agreement,
}
use go_tari_lib.P2p.Rpc.GetPeers.{dht_protocol_id, get_peers, get_peers_loop}
use go_tari_lib.P2p.Rpc.GetPeers.Responses.{IsResponse, IsServing, present, last, more, response}
use go_tari_lib.P2p.Rpc.GetPeers.Failures.{
  Unfinished, no_more, and_one, get_peers_loop_exhausted, get_peers_loop_refused,
}
use go_tari_lib.P2p.Rpc.ServeGetPeers.{
  bound_peers_for_request, bound_peer_claims, bound_claim_addresses, serve_get_peers,
}
use go_tari_lib.P2p.Rpc.ServeGetPeers.Limits.{
  IsBounded, bound_peers_for_request-IsBounded, bound_peers_for_request_self,
  bound_peers_for_request-take,
}
use go_tari_lib.P2p.Rpc.Exchange.{Forms, our_request, asked, get_peers-serve_get_peers}
use go_tari_lib.P2p.Rpc.ChainMetadata.{
  metadata_request, block_sync_protocol_id, metadata_of_response, get_chain_metadata,
}
use go_tari_lib.P2p.Rpc.ChainMetadata.Exchange.{Answer, get_chain_metadata_outcome}

-- Stand-ins for the codecs: the fields one after the other.
abbrev session_of_bytes : List ℕ → Option RpcSession
session_of_bytes b = some (record { supported_versions = b })

abbrev bytes_of_reply : RpcSessionReply → Option (List ℕ)
bytes_of_reply r = elim r.session_result [
  | unset ↦ some (r.reject_reason ∷ [])
  | accepted_version v ↦ some (r.reject_reason ∷ v ∷ [])
  | rejected b ↦ some (r.reject_reason ∷ (if b then 1 else 0) ∷ 0 ∷ [])
]

abbrev reply_of_bytes : List ℕ → Option RpcSessionReply
reply_of_bytes (r ∷ []) = some (record { session_result = unset; reject_reason = r })
reply_of_bytes (r ∷ v ∷ []) =
    some (record { session_result = accepted_version v; reject_reason = r })
reply_of_bytes (r ∷ b ∷ x ∷ []) =
    some (record { session_result = rejected (b == 1); reject_reason = r })
reply_of_bytes b = none

abbrev bytes_of_request : RpcRequest → Option (List ℕ)
bytes_of_request r = some (r.request_id ∷ r.method ∷ r.flags ∷ r.deadline ∷ r.payload)

abbrev request_of_bytes : List ℕ → Option RpcRequest
request_of_bytes (i ∷ m ∷ f ∷ d ∷ p) =
    some (record { request_id = i; method = m; flags = f; deadline = d; payload = p })
request_of_bytes b = none

abbrev bytes_of_response : RpcResponse → Option (List ℕ)
bytes_of_response r = some (r.request_id ∷ r.status ∷ r.flags ∷ r.payload)

abbrev response_of_bytes : List ℕ → Option RpcResponse
response_of_bytes (i ∷ s ∷ f ∷ p) =
    some (record { request_id = i; status = s; flags = f; payload = p })
response_of_bytes b = none

abbrev bytes_of_get_peers : GetPeersRequest → Option (List ℕ)
bytes_of_get_peers r =
    some
      (r.n ∷ (if r.include_clients then 1 else 0) ∷ r.max_claims ∷ r.max_addresses_per_claim ∷ [])

abbrev get_peers_of_bytes : List ℕ → Option GetPeersRequest
get_peers_of_bytes [] =
    some (record { n = 0; include_clients = false; max_claims = 0; max_addresses_per_claim = 0 })
get_peers_of_bytes (n ∷ c ∷ m ∷ a ∷ []) =
    some (record { n = n; include_clients = c == 1; max_claims = m; max_addresses_per_claim = a })
get_peers_of_bytes b = none

abbrev bytes_of_peer : GetPeersResponse → Option (List ℕ)
bytes_of_peer r = elim r.peer [ none ↦ some [] | some p ↦ some (length p.claims ∷ p.public_key) ]

abbrev peer_of_bytes : List ℕ → Option GetPeersResponse
peer_of_bytes [] = some (record { peer = none })
peer_of_bytes (n ∷ k) = some (record { peer = some (record { public_key = k; claims = [] }) })

abbrev bytes_of_metadata : ChainMetadata → Option (List ℕ)
bytes_of_metadata m = some (m.best_block_height ∷ [])

abbrev metadata_of_bytes : List ℕ → Option ChainMetadata
metadata_of_bytes b = none

abbrev plain : Protobuf
plain = record {
  rpc_request = record { marshal = bytes_of_request; unmarshal = request_of_bytes };
  rpc_response = record { marshal = bytes_of_response; unmarshal = response_of_bytes };
  rpc_session = record { marshal = λ s. some s.supported_versions; unmarshal = session_of_bytes };
  rpc_session_reply = record { marshal = bytes_of_reply; unmarshal = reply_of_bytes };
  get_peers_request = record { marshal = bytes_of_get_peers; unmarshal = get_peers_of_bytes };
  get_peers_response = record { marshal = bytes_of_peer; unmarshal = peer_of_bytes };
  chain_metadata = record { marshal = bytes_of_metadata; unmarshal = metadata_of_bytes };
}

abbrev our_session-IsForm : IsForm plain.rpc_session our_session (0 ∷ [])
our_session-IsForm = record { marshals = refl; unmarshals = refl; fits = omega arith }

abbrev acceptance-IsForm : IsForm plain.rpc_session_reply acceptance (0 ∷ 0 ∷ [])
acceptance-IsForm = record { marshals = refl; unmarshals = refl; fits = omega arith }

abbrev rejection-IsForm : IsForm plain.rpc_session_reply (rejection 2) (2 ∷ 1 ∷ 0 ∷ [])
rejection-IsForm = record { marshals = refl; unmarshals = refl; fits = omega arith }

abbrev begun : StreamTransport
begun = framed []

abbrev two_payloads : List (List ℕ)
two_payloads = (1 ∷ 2 ∷ []) ∷ [] ∷ []

receive_payloads-send_payloads_example :
    let (sent, t') = send_payloads two_payloads begun in
    (sent ≡ ok tt)
    × (receive_payloads 2 (record begun { incoming = t'.outgoing ++ (5 ∷ []) })
        ≡ (ok two_payloads, record begun { incoming = 5 ∷ [] }))
receive_payloads-send_payloads_example =
    receive_payloads-send_payloads begun begun two_payloads (5 ∷ [])
      (omega arith, (omega arith, tt)) refl refl refl

negotiation_agreement_example :
    let request : List ℕ = 2 ∷ 0 ∷ 116 ∷ 47 ∷ [] in
    let (served, server) =
      negotiate_protocol_inbound stream_transport
        (dht_protocol_id ∷ [])
        (new_stream_transport (request ++ (1 ∷ []))) in
    let (asked, client) =
      negotiate_protocol stream_transport
        (116 ∷ 47 ∷ [])
        (new_stream_transport (server.outgoing ++ (9 ∷ []))) in
    (client.outgoing ≡ request)
    × (server.incoming ≡ 1 ∷ [])
    × (client.incoming ≡ 9 ∷ [])
    × Outcome (dht_protocol_id ∷ []) (116 ∷ 47 ∷ []) served asked
negotiation_agreement_example =
    negotiation_agreement (dht_protocol_id ∷ []) (116 ∷ 47 ∷ []) (1 ∷ []) (9 ∷ []) (omega arith)

session_handshake_agreement_example :
    let asked = framed (encode_canonical_frame (0 ∷ []) ++ (3 ∷ [])) in
    let client = λ (answer : List ℕ).
      perform_session_handshake plain stream_transport (framed (answer ++ (4 ∷ []))) in
    let (accepts, accepting) = perform_session_handshake_responder plain stream_transport asked in
    let (rejects, rejecting) = reject_session_handshake_responder plain stream_transport 2 asked in
    let after = record (framed (4 ∷ [])) { outgoing = encode_canonical_frame (0 ∷ []) } in
    (accepts ≡ ok tt)
    × (accepting.incoming ≡ 3 ∷ [])
    × (client accepting.outgoing ≡ (ok 0, after))
    × (rejects ≡ ok tt)
    × (rejecting.incoming ≡ 3 ∷ [])
    × (client rejecting.outgoing ≡ (err (handshake_rejected 2), after))
session_handshake_agreement_example =
    session_handshake_agreement plain (0 ∷ []) our_session-IsForm 2 (0 ∷ 0 ∷ []) (2 ∷ 1 ∷ 0 ∷ [])
      (3 ∷ []) (4 ∷ []) acceptance-IsForm rejection-IsForm

-- Three peers, of which the second is nil, and a request for two of them.
abbrev peer_of : ℕ → Option PeerInfo
peer_of k = some (record { public_key = k ∷ []; claims = [] })

abbrev known : List (Option PeerInfo)
known = peer_of 7 ∷ none ∷ peer_of 9 ∷ []

abbrev for_two : GetPeersRequest
for_two = record { n = 2; include_clients = false; max_claims = 0; max_addresses_per_claim = 1 }

peer_of-IsResponse :
    (k flags : ℕ) → IsResponse plain 1 flags (peer_of k) (1 ∷ 0 ∷ flags ∷ 0 ∷ k ∷ [])
peer_of-IsResponse k flags = record {
  payload = 0 ∷ k ∷ [];
  is_payload = record { marshals = refl; unmarshals = refl; fits = omega arith };
  is_response = record { marshals = refl; unmarshals = refl; fits = omega arith };
}

nil-IsResponse : (flags : ℕ) → IsResponse plain 1 flags none (1 ∷ 0 ∷ flags ∷ [])
nil-IsResponse flags = record {
  payload = [];
  is_payload = record { marshals = refl; unmarshals = refl; fits = omega arith };
  is_response = record { marshals = refl; unmarshals = refl; fits = omega arith };
}

two_responses :
    IsServing plain 1
      (bound_peers_for_request known for_two)
      ((1 ∷ 0 ∷ 0 ∷ 0 ∷ 7 ∷ []) ∷ (1 ∷ 0 ∷ 1 ∷ []) ∷ [])
unfolding bound_peers_for_request bound_peer_claims bound_claim_addresses
two_responses = more (peer_of-IsResponse 7 0) (last (nil-IsResponse 1))

two_are_few : length (bound_peers_for_request known for_two) ≤ 100000
unfolding bound_peers_for_request
two_are_few = omega arith

abbrev two_forms : Forms plain for_two known
two_forms = record {
  session = 0 ∷ [];
  is_session = our_session-IsForm;
  reply = 0 ∷ 0 ∷ [];
  is_reply = acceptance-IsForm;
  payload = 2 ∷ 0 ∷ 0 ∷ 1 ∷ [];
  is_payload = record { marshals = refl; unmarshals = refl; fits = omega arith };
  request = 1 ∷ 10 ∷ 0 ∷ 20 ∷ 2 ∷ 0 ∷ 0 ∷ 1 ∷ [];
  is_request = record { marshals = refl; unmarshals = refl; fits = omega arith };
  responses = (1 ∷ 0 ∷ 0 ∷ 0 ∷ 7 ∷ []) ∷ (1 ∷ 0 ∷ 1 ∷ []) ∷ [];
  are_responses = two_responses;
  empty_response = refl;
  empty_is_zero = refl;
}

get_peers-serve_get_peers_example :
    let (served, server) =
      serve_get_peers plain stream_transport known
        (new_stream_transport (asked plain for_two known two_forms ++ (1 ∷ []))) in
    let (got, client) =
      get_peers plain stream_transport false for_two
        (new_stream_transport (server.outgoing ++ (2 ∷ []))) in
    (served ≡ ok tt)
    × (server.incoming ≡ 1 ∷ [])
    × (got ≡ ok (present (bound_peers_for_request known for_two)))
    × (client.outgoing ≡ asked plain for_two known two_forms)
    × (client.incoming ≡ 2 ∷ [])
get_peers-serve_get_peers_example =
    get_peers-serve_get_peers plain for_two known two_forms (1 ∷ []) (2 ∷ []) two_are_few

abbrev refusal : RpcResponse
refusal = record { request_id = 1; status = 5; flags = 1; payload = [] }

get_chain_metadata_outcome_example :
    Answer plain 0 block_sync_protocol_id acceptance refusal
      (get_chain_metadata plain stream_transport false (
        new_stream_transport (
          (11 ∷ 0 ∷ block_sync_protocol_id)
          ++ (encode_canonical_frame (0 ∷ 0 ∷ [])
              ++ (encode_canonical_frame (1 ∷ 5 ∷ 1 ∷ []) ++ []))))).0
get_chain_metadata_outcome_example =
    get_chain_metadata_outcome plain (0 ∷ []) (1 ∷ 5 ∷ 0 ∷ 20 ∷ []) (0 ∷ 0 ∷ []) (1 ∷ 5 ∷ 1 ∷ []) 0
      block_sync_protocol_id (11 ∷ 0 ∷ block_sync_protocol_id) acceptance refusal []
      our_session-IsForm (record { marshals = refl; unmarshals = refl; fits = omega arith })
      (encodes block_sync_protocol_id (omega arith)) acceptance-IsForm
      (record { marshals = refl; unmarshals = refl; fits = omega arith })

abbrev seven_unfinished : Unfinished plain 1 (peer_of 7 ∷ []) ((1 ∷ 0 ∷ 0 ∷ 0 ∷ 7 ∷ []) ∷ [])
seven_unfinished = and_one (peer_of-IsResponse 7 0) no_more

get_peers_loop_exhausted_example :
    get_peers_loop plain stream_transport 1 []
      (record begun { incoming = wire ((1 ∷ 0 ∷ 0 ∷ 0 ∷ 7 ∷ []) ∷ []) ++ (8 ∷ []) })
    ≡ (err max_iterations_exceeded, record begun { incoming = 8 ∷ [] })
get_peers_loop_exhausted_example =
    get_peers_loop_exhausted plain 1 begun refl refl (peer_of 7 ∷ [])
      ((1 ∷ 0 ∷ 0 ∷ 0 ∷ 7 ∷ []) ∷ []) (8 ∷ []) 1 [] seven_unfinished refl

-- A peer with a claim of two addresses.
abbrev claimed : List (Option PeerInfo)
claimed =
    some (record {
      public_key = 7 ∷ [];
      claims =
          some (record {
            addresses = (1 ∷ []) ∷ (2 ∷ []) ∷ [];
            peer_features = 3;
            identity_signature = none;
          })
          ∷ none
          ∷ [];
    })
    ∷ none
    ∷ []

bound_peers_for_request-IsBounded_example :
    IsBounded for_two (bound_peers_for_request claimed for_two)
bound_peers_for_request-IsBounded_example =
    bound_peers_for_request-IsBounded for_two claimed (omega arith)
      ((omega arith, (omega arith, (tt, tt))), (tt, tt))
