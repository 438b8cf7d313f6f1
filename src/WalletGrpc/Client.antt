-- ===== src/WalletGrpc/Client.antt =====
-- walletGRPC/client.go
use go_tari_lib.Common.{
  ℕ, Bool, true, false, ◌||◌, ◌==◌, if◌then◌else◌, Option, some, none, List, [], ◌∷◌, ◌++◌,
}
use go_tari_lib.Common.Int.{ℤ, uint64}
use go_tari_lib.Common.Result.{Result, ok, err}
use go_tari_lib.Common.Action.{Action, ◌>>=◌, give, pure}
use go_tari_lib.Grpc.{
  CallError, from_error, deadline_exceeded, unavailable, canceled, Message, DialOption,
  insecure_credentials, Dialer,
}
use go_tari_lib.Grpc.Stream.{drain}
use go_tari_lib.WalletGrpc.Messages.{
  PaymentRecipient, TransferResult, TransferResponse, transfer_request,
  block_height_transactions_request, transaction_info_request, coin_split_request, balance_request,
  revalidate_request, validate_request, state_request, connectivity_request, identity_request,
  complete_address_request, payment_id_address_request, CompletedTransactions, WalletClient,
}

pub record Client (Conn : Type 0) : Type 0 where
  pub conn : Conn

-- The options that are dialled with.
abbrev pub dial_options : List DialOption → List DialOption
dial_options [] = insecure_credentials ∷ []
dial_options (o ∷ opts) = o ∷ opts

module _ {Conn : Type 0} where
  abbrev pub dialled : Conn × Option CallError → Result CallError (Client Conn)
  dialled (conn, some e) = err e
  dialled (conn, none) = ok (record { conn = conn })

  unfoldable pub new : Dialer Conn → List ℕ → List DialOption → Result CallError (Client Conn)
  new dialer wallet_address opts = dialled (dialer.new_client wallet_address (dial_options opts))

-- An error as it came, or wrapped with `ErrAmbiguousBroadcast`.
pub data TransferError : Type 0 where
  as_is ambiguous_broadcast : CallError → TransferError

abbrev is_ambiguous_code : ℕ → Bool
is_ambiguous_code code = code == deadline_exceeded || code == unavailable || code == canceled

abbrev classify_code : Option ℕ → CallError → TransferError
classify_code none e = ambiguous_broadcast e
classify_code (some code) e = if is_ambiguous_code code then ambiguous_broadcast e else as_is e

unfoldable pub classify_transfer_err : Option CallError → Option TransferError
classify_transfer_err none = none
classify_transfer_err (some e) = some (classify_code (from_error e) e)

-- `GetIsSuccess`, which takes a nil result for a failure
abbrev pub get_is_success : Option TransferResult → Bool
get_is_success none = false
get_is_success (some result) = result.is_success

abbrev pub Results : Type 0
Results = List (Option TransferResult)

abbrev pub split_loop : Results → Results → Results → Results × Results
split_loop succeeded failed [] = (succeeded, failed)
split_loop succeeded failed (result ∷ results) = elim (get_is_success result) [
  | true ↦ split_loop (succeeded ++ (result ∷ [])) failed results
  | false ↦ split_loop succeeded (failed ++ (result ∷ [])) results
]

unfoldable pub split_transfer_results : Option TransferResponse → Results × Results
split_transfer_results none = ([], [])
split_transfer_results (some resp) = split_loop [] [] resp.results

-- The response and the error, one of them nil.
abbrev pub transferred :
    Result CallError TransferResponse → Option TransferResponse × Option TransferError
transferred (ok resp) = (some resp, none)
transferred (err e) = (none, classify_transfer_err (some e))

abbrev pub first_transaction : List (Option Message) → Option Message
first_transaction [] = none
first_transaction (t ∷ ts) = t

abbrev pub picked : CompletedTransactions → Option Message
picked r = r.transaction

module _ {World Conn Ctx : Type 0} (wallet : WalletClient World Conn Ctx) (c : Client Conn)
    (ctx : Ctx) where
  unfoldable pub send_transactions :
      List (Option PaymentRecipient)
      → Bool
      → World
      → (Option TransferResponse × Option TransferError) × World
  send_transactions transactions single_tx w =
      let (r, w') = wallet.unary c.conn ctx (transfer_request transactions single_tx) w in
      (transferred r, w')

  -- A stream of completed transactions, opened and drained.
  abbrev pub completed_transactions :
      Option (List ℕ) → Action World CallError (List (Option Message))
  completed_transactions filter = do
    stream ← wallet.get_completed_transactions c.conn ctx filter
    give (drain picked stream)

  unfoldable pub get_transactions_in_block : ℕ → Action World CallError (List (Option Message))
  get_transactions_in_block block_height =
      if block_height == 0
      then completed_transactions none
      else wallet.unary c.conn ctx (block_height_transactions_request block_height)

  unfoldable pub submit_coin_split_request : ℤ → ℤ → Action World CallError Message
  submit_coin_split_request split_amt num_splits =
      wallet.unary c.conn ctx (coin_split_request (uint64 split_amt) (uint64 num_splits) 5 0 none)

  unfoldable pub get_balances : Action World CallError Message
  get_balances = wallet.unary c.conn ctx balance_request

  unfoldable pub get_transaction_info_by_id : ℕ → Action World CallError (Option Message)
  get_transaction_info_by_id transaction_id = do
    txns ← wallet.unary c.conn ctx (transaction_info_request (transaction_id ∷ []))
    pure (first_transaction txns)

  unfoldable pub revalidate_all_transactions : Action World CallError Message
  revalidate_all_transactions = wallet.unary c.conn ctx revalidate_request

  unfoldable pub validate_all_transactions : Action World CallError Message
  validate_all_transactions = wallet.unary c.conn ctx validate_request

  unfoldable pub get_wallet_state : Action World CallError Message
  get_wallet_state = wallet.unary c.conn ctx state_request

  unfoldable pub get_wallet_connectivity : Action World CallError Message
  get_wallet_connectivity = wallet.unary c.conn ctx connectivity_request

  unfoldable pub get_addresses : Action World CallError Message
  get_addresses = wallet.unary c.conn ctx complete_address_request

  unfoldable pub identify : Action World CallError Message
  identify = wallet.unary c.conn ctx identity_request

  unfoldable pub get_payment_id_address : List ℕ → Action World CallError Message
  get_payment_id_address payment_id =
      wallet.unary c.conn ctx (payment_id_address_request payment_id)

  unfoldable pub get_completed_transactions_by_payment_id :
      List ℕ → Action World CallError (List (Option Message))
  get_completed_transactions_by_payment_id payment_id = completed_transactions (some payment_id)
