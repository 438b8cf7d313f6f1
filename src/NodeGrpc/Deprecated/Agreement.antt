-- ===== src/NodeGrpc/Deprecated/Agreement.antt =====
-- nodeGRPC/client.go: the functions of the package against those of the client.
use mathlib.Core.Path.{subst}
use go_tari_lib.Common.{ℕ, ◌≡◌, refl, Option, some, none, List, [], ◌∷◌}
use go_tari_lib.Common.Result.{Result, ok, err, ok-injective}
use go_tari_lib.Grpc.{CallError, Message, Dialer, insecure_credentials}
use go_tari_lib.NodeGrpc.Messages.{BaseNodeClient}
use go_tari_lib.NodeGrpc.Client
use go_tari_lib.NodeGrpc.Client.{Client, new_client, dialled}
use go_tari_lib.NodeGrpc.Deprecated
use go_tari_lib.NodeGrpc.Deprecated.{Globals, init_node_grpc}

module _ {World Conn Ctx : Type 0} (node : BaseNodeClient World Conn Ctx) (background : Ctx) where
  -- The package's functions do what the client's do.
  pub record IsSame (g : Globals Conn) (c : Client Conn) : Type 0 where
    pub same_tip_info :
        Deprecated.get_tip_info node background g ≡ Client.get_tip_info node background c
    pub same_block_template :
        (request : Option Message) (w : World)
        → Deprecated.get_block_template node background g request w
          ≡ Client.get_block_template node background c request w
    pub same_block_with_coinbases :
        (request : Option Message) (w : World)
        → Deprecated.get_block_with_coinbases node background g request w
          ≡ Client.get_block_with_coinbases node background c request w
    pub same_new_block_template_with_coinbases :
        (request : Option Message) (w : World)
        → Deprecated.get_new_block_template_with_coinbases node background g request w
          ≡ Client.get_new_block_template_with_coinbases node background c request w
    pub same_network_state :
        Deprecated.get_network_state node background g ≡ Client.get_network_state node background c
    pub same_new_block :
        (request : Option Message) (w : World)
        → Deprecated.get_new_block node background g request w
          ≡ Client.get_new_block node background c request w
    pub same_block_by_height :
        (bytes : List ℕ) (w : World)
        → Deprecated.get_block_by_height node background g bytes w
          ≡ Client.get_block_by_height node background c bytes w
    pub same_header_by_hash :
        (bytes : List ℕ) (w : World)
        → Deprecated.get_header_by_hash node background g bytes w
          ≡ Client.get_header_by_hash node background c bytes w
    pub same_submit_block :
        (request : Option Message) (w : World)
        → Deprecated.submit_block node background g request w
          ≡ Client.submit_block node background c request w
    pub same_network_diff :
        (height : ℕ) (w : World)
        → Deprecated.get_network_diff node background g height w
          ≡ Client.get_network_diff node background c height w
    pub same_node_identity :
        Deprecated.get_node_identity node background g ≡ Client.get_node_identity node background c
    pub same_sync_progress :
        Deprecated.get_sync_progress node background g ≡ Client.get_sync_progress node background c
    pub same_mempool_stats :
        Deprecated.get_mempool_stats node background g ≡ Client.get_mempool_stats node background c

  one_connection : (g : Globals Conn) → IsSame g (record { conn = g.grpc_conn })
  unfolding Deprecated.get_tip_info Client.get_tip_info Deprecated.get_block_template
      Client.get_block_template Deprecated.get_block_with_coinbases Client.get_block_with_coinbases
      Deprecated.get_new_block_template_with_coinbases Client.get_new_block_template_with_coinbases
      Deprecated.get_network_state Client.get_network_state Deprecated.get_new_block
      Client.get_new_block Deprecated.get_block_by_height Client.get_block_by_height
      Deprecated.get_header_by_hash Client.get_header_by_hash Deprecated.submit_block
      Client.submit_block Deprecated.get_network_diff Client.get_network_diff
      Deprecated.get_node_identity Client.get_node_identity Deprecated.get_sync_progress
      Client.get_sync_progress Deprecated.get_mempool_stats Client.get_mempool_stats
  one_connection g = record {
    same_tip_info = refl;
    same_block_template = λ request w. refl;
    same_block_with_coinbases = λ request w. refl;
    same_new_block_template_with_coinbases = λ request w. refl;
    same_network_state = refl;
    same_new_block = λ request w. refl;
    same_block_by_height = λ bytes w. refl;
    same_header_by_hash = λ bytes w. refl;
    same_submit_block = λ request w. refl;
    same_network_diff = λ height w. refl;
    same_node_identity = refl;
    same_sync_progress = refl;
    same_mempool_stats = refl;
  }

module _ {Conn : Type 0} where
  dialled_conn :
      (p : Conn × Option CallError) (c : Client Conn)
      → dialled p ≡ ok c
      → ◌≡◌ {A = Client Conn} (record { conn = p.0 }) c
  dialled_conn (conn, none) c e = ok-injective (record { conn = conn }) c e
  dialled_conn (conn, some f) c e = absurd (clash e)
    where
      clash : ◌≡◌ {A = Result CallError (Client Conn)} (err f) (ok c) → ⊥
      clash k = cc

-- When a client can be made for an address, all functions of the package, once initialised with the same
-- address over the same library, do for every state of the world what the client's functions do: equal
-- results and equal effects.
pub init_node_grpc-IsSame :
    {World Conn Ctx : Type 0}
    → (node : BaseNodeClient World Conn Ctx) (background : Ctx) (dialer : Dialer Conn)
      (node_address : List ℕ) (c : Client Conn)
    → new_client dialer node_address ≡ ok c
    → IsSame node background (init_node_grpc dialer node_address) c
unfolding new_client init_node_grpc
init_node_grpc-IsSame node background dialer node_address c e =
    subst (IsSame node background (init_node_grpc dialer node_address))
      (dialled_conn (dialer.new_client node_address (insecure_credentials ∷ [])) c e)
      (one_connection node background (init_node_grpc dialer node_address))
