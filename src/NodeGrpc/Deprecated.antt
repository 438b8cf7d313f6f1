-- ===== src/NodeGrpc/Deprecated.antt =====
-- nodeGRPC/client.go: the functions of the package, over the one connection it keeps.
pub mod Agreement
use go_tari_lib.Common.{ℕ, Bool, ◌==◌, if◌then◌else◌, Option, some, none, List, [], ◌∷◌}
use go_tari_lib.Common.Result.{Result, ok, err}
use go_tari_lib.Common.Action.{Action, ◌>>=◌, give}
use go_tari_lib.Grpc.{CallError, Message, insecure_credentials, Dialer}
use go_tari_lib.Grpc.Stream.{drain, recv}
use go_tari_lib.NodeGrpc.Messages.{
  tip_info_request, network_state_request, identity_request, sync_progress_request,
  mempool_stats_request, new_block_template_request, new_block_with_coinbases_request,
  new_block_template_with_coinbases_request, new_block_request, header_by_hash_request,
  submit_block_request, HeightRequest, HistoricalBlock, BaseNodeClient,
}
use go_tari_lib.NodeGrpc.Client.{get_block, height_request, max_message_size}

-- The variables of the package.
pub record Globals (Conn : Type 0) : Type 0 where
  pub grpc_node_address : List ℕ
  pub grpc_conn : Conn

-- The error of the dialling is dropped.
unfoldable pub init_node_grpc : {Conn : Type 0} → Dialer Conn → List ℕ → Globals Conn
init_node_grpc dialer node_address = record {
  grpc_node_address = node_address;
  grpc_conn = (dialer.new_client node_address (insecure_credentials ∷ [])).0;
}

module _ {World Conn Ctx : Type 0} (node : BaseNodeClient World Conn Ctx) (background : Ctx)
    (g : Globals Conn) where
  unfoldable pub get_tip_info : Action World CallError Message
  get_tip_info = node.unary g.grpc_conn background tip_info_request

  unfoldable pub get_block_template : Option Message → Action World CallError Message
  get_block_template algo = node.unary g.grpc_conn background (new_block_template_request algo)

  unfoldable pub get_block_with_coinbases : Option Message → Action World CallError Message
  get_block_with_coinbases request_data =
      node.unary g.grpc_conn background (new_block_with_coinbases_request request_data)

  unfoldable pub get_new_block_template_with_coinbases :
      Option Message → Action World CallError Message
  get_new_block_template_with_coinbases request_data =
      node.unary g.grpc_conn background (new_block_template_with_coinbases_request request_data)

  unfoldable pub get_network_state : Action World CallError Message
  get_network_state = node.unary g.grpc_conn background network_state_request

  unfoldable pub get_new_block : Option Message → Action World CallError Message
  get_new_block request_data = node.unary g.grpc_conn background (new_block_request request_data)

  unfoldable pub get_block_by_height : List ℕ → Action World CallError (List (Option Message))
  get_block_by_height block_ids = do
    active_client ← node.get_blocks g.grpc_conn background block_ids max_message_size
    give (drain get_block active_client)

  unfoldable pub get_header_by_hash : List ℕ → Action World CallError Message
  get_header_by_hash block_hash =
      node.unary g.grpc_conn background (header_by_hash_request block_hash)

  unfoldable pub submit_block : Option Message → Action World CallError Message
  submit_block request_data = node.unary g.grpc_conn background (submit_block_request request_data)

  unfoldable pub get_network_diff : ℕ → Action World CallError Message
  get_network_diff height = do
    diff_client ← node.get_network_difficulty g.grpc_conn background (height_request height)
    give (recv diff_client)

  unfoldable pub get_node_identity : Action World CallError Message
  get_node_identity = node.unary g.grpc_conn background identity_request

  unfoldable pub get_sync_progress : Action World CallError Message
  get_sync_progress = node.unary g.grpc_conn background sync_progress_request

  unfoldable pub get_mempool_stats : Action World CallError Message
  get_mempool_stats = node.unary g.grpc_conn background mempool_stats_request
