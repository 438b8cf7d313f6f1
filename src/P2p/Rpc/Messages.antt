-- ===== src/P2p/Rpc/Messages.antt =====
-- p2p/proto: the messages of `rpc.proto`, `dht_rpc.proto` and `chain_metadata.proto`. A slice that is nil
-- and an empty one are one list; a pointer that may be nil is an `Option`. The serialised forms are the
-- business of google.golang.org/protobuf, which is a parameter.
use go_tari_lib.Common.{ℕ, ◌<◌, ◌^◌, ◌≡◌, Bool, Option, some, List, length}

pub record RpcRequest : Type 0 where
  pub request_id : ℕ
  pub method : ℕ
  pub flags : ℕ
  pub deadline : ℕ
  pub payload : List ℕ

pub record RpcResponse : Type 0 where
  pub request_id : ℕ
  pub status : ℕ
  pub flags : ℕ
  pub payload : List ℕ

pub record RpcSession : Type 0 where
  pub supported_versions : List ℕ

pub data SessionResult : Type 0 where
  unset : SessionResult
  accepted_version : ℕ → SessionResult
  rejected : Bool → SessionResult

pub record RpcSessionReply : Type 0 where
  pub session_result : SessionResult
  pub reject_reason : ℕ

pub record GetPeersRequest : Type 0 where
  pub n : ℕ
  pub include_clients : Bool
  pub max_claims : ℕ
  pub max_addresses_per_claim : ℕ

pub record IdentitySignature : Type 0 where
  pub version : ℕ
  pub signature : List ℕ
  pub public_nonce : List ℕ
  pub updated_at : ℕ

pub record PeerIdentityClaim : Type 0 where
  pub addresses : List (List ℕ)
  pub peer_features : ℕ
  pub identity_signature : Option IdentitySignature

pub record PeerInfo : Type 0 where
  pub public_key : List ℕ
  pub claims : List (Option PeerIdentityClaim)

pub record GetPeersResponse : Type 0 where
  pub peer : Option PeerInfo

pub record ChainMetadata : Type 0 where
  pub best_block_height : ℕ
  pub best_block_hash : List ℕ
  pub accumulated_difficulty_low : List ℕ
  pub accumulated_difficulty_high : List ℕ
  pub pruned_height : ℕ
  pub timestamp : ℕ

-- `proto.Marshal` and `proto.Unmarshal` at one type of messages.
pub record Codec (M : Type 0) : Type 0 where
  pub marshal : M → Option (List ℕ)
  pub unmarshal : List ℕ → Option M

-- All the codecs that the RPC layer uses.
pub record Protobuf : Type 0 where
  pub rpc_request : Codec RpcRequest
  pub rpc_response : Codec RpcResponse
  pub rpc_session : Codec RpcSession
  pub rpc_session_reply : Codec RpcSessionReply
  pub get_peers_request : Codec GetPeersRequest
  pub get_peers_response : Codec GetPeersResponse
  pub chain_metadata : Codec ChainMetadata

-- `b` is the serialised form of `m`: marshalling gives it, unmarshalling gives `m` back, as the package
-- documents for messages without nil elements, and it is short enough for one canonical frame.
pub record IsForm {M : Type 0} (c : Codec M) (m : M) (b : List ℕ) : Type 0 where
  pub marshals : c.marshal m ≡ some b
  pub unmarshals : c.unmarshal b ≡ some m
  pub fits : length b < 2 ^ 32
