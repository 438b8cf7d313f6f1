-- ===== src/NodeGrpc/Messages.antt =====
-- The generated client of the base node's service (github.com/Snipa22/go-tari-grpc-lib), a parameter.
use go_tari_lib.Common.{ℕ, Option, List}
use go_tari_lib.Common.Action.{Action}
use go_tari_lib.Grpc.{CallError, Message}
use go_tari_lib.Grpc.Stream.{Stream}

-- The requests of the calls that are answered once; a message that the caller gives is handed on, and may be
-- nil.
pub data Request : Type 0 where
  tip_info_request network_state_request identity_request : Request
  sync_progress_request mempool_stats_request : Request
  new_block_template_request : (algo : Option Message) → Request
  new_block_with_coinbases_request : (request_data : Option Message) → Request
  new_block_template_with_coinbases_request : (request_data : Option Message) → Request
  new_block_request : (request_data : Option Message) → Request
  header_by_hash_request : (hash : List ℕ) → Request
  submit_block_request : (request_data : Option Message) → Request

-- `HeightRequest`
pub record HeightRequest : Type 0 where
  pub from_tip : ℕ
  pub start_height : ℕ
  pub end_height : ℕ

-- `HistoricalBlock`, less what the code does not read.
pub record HistoricalBlock : Type 0 where
  pub block : Option Message

-- Calls change the world: the node and the network.
pub record BaseNodeClient (World Conn Ctx : Type 0) : Type 0 where
  pub unary : Conn → Ctx → Request → Action World CallError Message
  -- the heights, and the most bytes of a message
  pub get_blocks : Conn → Ctx → List ℕ → ℕ → Action World CallError (Stream HistoricalBlock)
  pub get_network_difficulty : Conn → Ctx → HeightRequest → Action World CallError (Stream Message)
