-- ===== src/WalletGrpc/Deprecated.antt =====
-- walletGRPC/wallet.go: the functions of the package, over the one connection it keeps.
pub mod Agreement
use go_tari_lib.Common.{ℕ, ◌≡◌, refl, Bool, ◌==◌, if◌then◌else◌, Option, some, none, List, [], ◌∷◌}
use go_tari_lib.Common.Int.{ℤ, uint64}
use go_tari_lib.Common.Result.{Result, ok, err}
use go_tari_lib.Common.Action.{Action, ◌>>=◌, give, pure}
use go_tari_lib.Grpc.{CallError, Message, insecure_credentials, Dialer}
use go_tari_lib.Grpc.Stream.{drain}
use go_tari_lib.WalletGrpc.Messages.{
  PaymentRecipient, TransferResponse, transfer_request, block_height_transactions_request,
  transaction_info_request, coin_split_request, balance_request, revalidate_request,
  validate_request, state_request, connectivity_request, identity_request, complete_address_request,
  payment_id_address_request, WalletClient,
}
use go_tari_lib.WalletGrpc.Client
use go_tari_lib.WalletGrpc.Client.{Client, picked, first_transaction}

-- The variables of the package.
pub record Globals (Conn : Type 0) : Type 0 where
  pub grpc_wallet_address : List ℕ
  pub grpc_conn : Conn

-- The error of the dialling is dropped.
unfoldable pub init_wallet_grpc : {Conn : Type 0} → Dialer Conn → List ℕ → Globals Conn
init_wallet_grpc dialer wallet_address = record {
  grpc_wallet_address = wallet_address;
  grpc_conn = (dialer.new_client wallet_address (insecure_credentials ∷ [])).0;
}

module _ {World Conn Ctx : Type 0} (wallet : WalletClient World Conn Ctx) (background : Ctx)
    (g : Globals Conn) where
  unfoldable pub send_transactions :
      List (Option PaymentRecipient) → Bool → Action World CallError TransferResponse
  send_transactions transactions single_tx =
      wallet.unary g.grpc_conn background (transfer_request transactions single_tx)

  -- A stream of completed transactions, opened and drained.
  abbrev completed_transactions : Option (List ℕ) → Action World CallError (List (Option Message))
  completed_transactions filter = do
    stream ← wallet.get_completed_transactions g.grpc_conn background filter
    give (drain picked stream)

  unfoldable pub get_transactions_in_block : ℕ → Action World CallError (List (Option Message))
  get_transactions_in_block block_height =
      if block_height == 0
      then completed_transactions none
      else wallet.unary g.grpc_conn background (block_height_transactions_request block_height)

  unfoldable pub submit_coin_split_request : ℤ → ℤ → Action World CallError Message
  submit_coin_split_request split_amt num_splits =
      wallet.unary g.grpc_conn background
        (coin_split_request (uint64 split_amt) (uint64 num_splits) 5 0 none)

  unfoldable pub get_balances : Action World CallError Message
  get_balances = wallet.unary g.grpc_conn background balance_request

  unfoldable pub get_transaction_info_by_id : ℕ → Action World CallError (Option Message)
  get_transaction_info_by_id transaction_id = do
    txns ← wallet.unary g.grpc_conn background (transaction_info_request (transaction_id ∷ []))
    pure (first_transaction txns)

  unfoldable pub revalidate_all_transactions : Action World CallError Message
  revalidate_all_transactions = wallet.unary g.grpc_conn background revalidate_request

  unfoldable pub validate_all_transactions : Action World CallError Message
  validate_all_transactions = wallet.unary g.grpc_conn background validate_request

  unfoldable pub get_wallet_state : Action World CallError Message
  get_wallet_state = wallet.unary g.grpc_conn background state_request

  unfoldable pub get_wallet_connectivity : Action World CallError Message
  get_wallet_connectivity = wallet.unary g.grpc_conn background connectivity_request

  unfoldable pub get_addresses : Action World CallError Message
  get_addresses = wallet.unary g.grpc_conn background complete_address_request

  unfoldable pub identify : Action World CallError Message
  identify = wallet.unary g.grpc_conn background identity_request

  unfoldable pub get_payment_id_address : List ℕ → Action World CallError Message
  get_payment_id_address payment_id =
      wallet.unary g.grpc_conn background (payment_id_address_request payment_id)

  unfoldable pub get_completed_transactions_by_payment_id :
      List ℕ → Action World CallError (List (Option Message))
  get_completed_transactions_by_payment_id payment_id = completed_transactions (some payment_id)
