-- ===== src/NodeGrpc/Client.antt =====
-- nodeGRPC/client.go: the client.
use go_tari_lib.Common.{ℕ, ◌*◌, ◌==◌, if◌then◌else◌, Option, some, none, List, [], ◌∷◌}
use go_tari_lib.Common.Result.{Result, ok, err}
use go_tari_lib.Common.Action.{Action, ◌>>=◌, give}
use go_tari_lib.Grpc.{CallError, Message, insecure_credentials, Dialer}
use go_tari_lib.Grpc.Stream.{drain, recv}
use go_tari_lib.NodeGrpc.Messages.{
  tip_info_request, network_state_request, identity_request, sync_progress_request,
  mempool_stats_request, new_block_template_request, new_block_with_coinbases_request,
  new_block_template_with_coinbases_request, new_block_request, header_by_hash_request,
  submit_block_request, HeightRequest, HistoricalBlock, BaseNodeClient,
}

pub record Client (Conn : Type 0) : Type 0 where
  pub conn : Conn

module _ {Conn : Type 0} where
  abbrev pub dialled : Conn × Option CallError → Result CallError (Client Conn)
  dialled (conn, some e) = err e
  dialled (conn, none) = ok (record { conn = conn })

  unfoldable pub new_client : Dialer Conn → List ℕ → Result CallError (Client Conn)
  new_client dialer node_address =
      dialled (dialer.new_client node_address (insecure_credentials ∷ []))

abbrev pub max_message_size : ℕ
max_message_size = 16 * 1024 * 1024

abbrev pub get_block : HistoricalBlock → Option Message
get_block r = r.block

-- One block from the tip, or the one at the height.
abbrev pub height_request : ℕ → HeightRequest
height_request height =
    if height == 0
    then record { from_tip = 1; start_height = 0; end_height = 0 }
    else record { from_tip = 0; start_height = height; end_height = height }

module _ {World Conn Ctx : Type 0} (node : BaseNodeClient World Conn Ctx) (background : Ctx)
    (c : Client Conn) where
  unfoldable pub get_tip_info : Action World CallError Message
  get_tip_info = node.unary c.conn background tip_info_request

  unfoldable pub get_block_template : Option Message → Action World CallError Message
  get_block_template algo = node.unary c.conn background (new_block_template_request algo)

  unfoldable pub get_block_with_coinbases : Option Message → Action World CallError Message
  get_block_with_coinbases request_data =
      node.unary c.conn background (new_block_with_coinbases_request request_data)

  unfoldable pub get_new_block_template_with_coinbases :
      Option Message → Action World CallError Message
  get_new_block_template_with_coinbases request_data =
      node.unary c.conn background (new_block_template_with_coinbases_request request_data)

  unfoldable pub get_network_state : Action World CallError Message
  get_network_state = node.unary c.conn background network_state_request

  unfoldable pub get_new_block : Option Message → Action World CallError Message
  get_new_block request_data = node.unary c.conn background (new_block_request request_data)

  unfoldable pub get_block_by_height : List ℕ → Action World CallError (List (Option Message))
  get_block_by_height block_ids = do
    active_client ← node.get_blocks c.conn background block_ids max_message_size
    give (drain get_block active_client)

  unfoldable pub get_header_by_hash : List ℕ → Action World CallError Message
  get_header_by_hash block_hash = node.unary c.conn background (header_by_hash_request block_hash)

  unfoldable pub submit_block : Option Message → Action World CallError Message
  submit_block request_data = node.unary c.conn background (submit_block_request request_data)

  unfoldable pub get_network_diff : ℕ → Action World CallError Message
  get_network_diff height = do
    diff_client ← node.get_network_difficulty c.conn background (height_request height)
    give (recv diff_client)

  unfoldable pub get_node_identity : Action World CallError Message
  get_node_identity = node.unary c.conn background identity_request

  unfoldable pub get_sync_progress : Action World CallError Message
  get_sync_progress = node.unary c.conn background sync_progress_request

  unfoldable pub get_mempool_stats : Action World CallError Message
  get_mempool_stats = node.unary c.conn background mempool_stats_request
