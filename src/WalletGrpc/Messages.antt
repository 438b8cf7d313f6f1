-- ===== src/WalletGrpc/Messages.antt =====
-- The generated client of the wallet's service (github.com/Snipa22/go-tari-grpc-lib), a parameter: its
-- requests, the replies that the code looks into, and its calls.
use go_tari_lib.Common.{ℕ, Bool, Option, List}
use go_tari_lib.Common.Action.{Action}
use go_tari_lib.Grpc.{CallError, Message}
use go_tari_lib.Grpc.Stream.{Stream}

pub record PaymentRecipient : Type 0 where
  pub address : List ℕ
  pub amount : ℕ
  pub fee_per_gram : ℕ

pub record TransferResult : Type 0 where
  pub address : List ℕ
  pub transaction_id : ℕ
  pub is_success : Bool
  pub failure_message : List ℕ

pub record TransferResponse : Type 0 where
  pub results : List (Option TransferResult)

-- The requests of the calls that are answered once.
pub data Request : Type 0 where
  transfer_request : (recipients : List (Option PaymentRecipient)) (single_tx : Bool) → Request
  block_height_transactions_request : (block_height : ℕ) → Request
  transaction_info_request : (transaction_ids : List ℕ) → Request
  coin_split_request :
      (amount_per_split split_count fee_per_gram lock_height : ℕ) (payment_id : Option (List ℕ))
      → Request
  balance_request revalidate_request validate_request state_request : Request
  connectivity_request identity_request : Request
  complete_address_request : Request
  payment_id_address_request : (payment_id : List ℕ) → Request

-- The reply to each: a message with transactions, or one that is handed on.
abbrev pub Reply : Request → Type 0
Reply (transfer_request recipients single_tx) = TransferResponse
Reply (block_height_transactions_request h) = List (Option Message)
Reply (transaction_info_request ids) = List (Option Message)
Reply (coin_split_request a c f h p) = Message
Reply balance_request = Message
Reply revalidate_request = Message
Reply validate_request = Message
Reply state_request = Message
Reply connectivity_request = Message
Reply identity_request = Message
Reply complete_address_request = Message
Reply (payment_id_address_request p) = Message

-- `GetCompletedTransactionsResponse`, less what the code does not read.
pub record CompletedTransactions : Type 0 where
  pub transaction : Option Message

-- Calls change the world: the wallet, its node and the network.
pub record WalletClient (World Conn Ctx : Type 0) : Type 0 where
  pub unary : Conn → Ctx → (q : Request) → Action World CallError (Reply q)
  -- the filter is a payment id, or the request is nil
  pub get_completed_transactions :
      Conn → Ctx → Option (List ℕ) → Action World CallError (Stream CompletedTransactions)
  pub stream_transaction_events : Conn → Ctx → Action World CallError (Stream Message)
