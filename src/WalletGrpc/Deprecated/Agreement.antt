-- ===== src/WalletGrpc/Deprecated/Agreement.antt =====
-- walletGRPC/wallet.go against walletGRPC/client.go.
use mathlib.Core.Path.{subst}
use go_tari_lib.Common.{ℕ, ◌≡◌, refl, Bool, Option, some, none, List, [], ◌∷◌}
use go_tari_lib.Common.Int.{ℤ}
use go_tari_lib.Common.Result.{Result, ok, err, ok-injective}
use go_tari_lib.Grpc.{CallError, Dialer, insecure_credentials}
use go_tari_lib.WalletGrpc.Messages.{PaymentRecipient, WalletClient}
use go_tari_lib.WalletGrpc.Client
use go_tari_lib.WalletGrpc.Client.{Client, transferred, new, dialled}
use go_tari_lib.WalletGrpc.Events.{stream_transaction_events, package_stream_transaction_events}
use go_tari_lib.WalletGrpc.Deprecated
use go_tari_lib.WalletGrpc.Deprecated.{Globals, init_wallet_grpc}

module _ {World Conn Ctx : Type 0} (wallet : WalletClient World Conn Ctx) (background : Ctx) where
  -- The package's functions do what the client's do with the background context, but that the package's
  -- transfer does not look into the error.
  pub record IsSame (g : Globals Conn) (c : Client Conn) : Type 0 where
    pub same_transfer :
        (ts : List (Option PaymentRecipient)) (single_tx : Bool) (w : World)
        → let (r, w') = Deprecated.send_transactions wallet background g ts single_tx w in
          Client.send_transactions wallet c background ts single_tx w ≡ (transferred r, w')
    pub same_block :
        (height : ℕ) (w : World)
        → Deprecated.get_transactions_in_block wallet background g height w
          ≡ Client.get_transactions_in_block wallet c background height w
    pub same_split :
        (amount count : ℤ) (w : World)
        → Deprecated.submit_coin_split_request wallet background g amount count w
          ≡ Client.submit_coin_split_request wallet c background amount count w
    pub same_balances :
        Deprecated.get_balances wallet background g ≡ Client.get_balances wallet c background
    pub same_info :
        (id : ℕ) (w : World)
        → Deprecated.get_transaction_info_by_id wallet background g id w
          ≡ Client.get_transaction_info_by_id wallet c background id w
    pub same_revalidation :
        Deprecated.revalidate_all_transactions wallet background g
        ≡ Client.revalidate_all_transactions wallet c background
    pub same_validation :
        Deprecated.validate_all_transactions wallet background g
        ≡ Client.validate_all_transactions wallet c background
    pub same_state :
        Deprecated.get_wallet_state wallet background g
        ≡ Client.get_wallet_state wallet c background
    pub same_connectivity :
        Deprecated.get_wallet_connectivity wallet background g
        ≡ Client.get_wallet_connectivity wallet c background
    pub same_addresses :
        Deprecated.get_addresses wallet background g ≡ Client.get_addresses wallet c background
    pub same_identity :
        Deprecated.identify wallet background g ≡ Client.identify wallet c background
    pub same_payment_id_address :
        (payment_id : List ℕ)
        → Deprecated.get_payment_id_address wallet background g payment_id
          ≡ Client.get_payment_id_address wallet c background payment_id
    pub same_payment_id :
        (payment_id : List ℕ) (w : World)
        → Deprecated.get_completed_transactions_by_payment_id wallet background g payment_id w
          ≡ Client.get_completed_transactions_by_payment_id wallet c background payment_id w
    pub same_events :
        (ctx : Ctx) (w : World)
        → package_stream_transaction_events wallet g ctx w
          ≡ stream_transaction_events wallet c ctx w

  one_connection : (g : Globals Conn) → IsSame g (record { conn = g.grpc_conn })
  unfolding Deprecated.send_transactions Client.send_transactions
      Deprecated.get_transactions_in_block Client.get_transactions_in_block
      Deprecated.submit_coin_split_request Client.submit_coin_split_request Deprecated.get_balances
      Client.get_balances Deprecated.get_transaction_info_by_id Client.get_transaction_info_by_id
      Deprecated.revalidate_all_transactions Client.revalidate_all_transactions
      Deprecated.validate_all_transactions Client.validate_all_transactions
      Deprecated.get_wallet_state Client.get_wallet_state Deprecated.get_wallet_connectivity
      Client.get_wallet_connectivity Deprecated.get_addresses Client.get_addresses
      Deprecated.identify Client.identify Deprecated.get_payment_id_address
      Client.get_payment_id_address Deprecated.get_completed_transactions_by_payment_id
      Client.get_completed_transactions_by_payment_id package_stream_transaction_events
      stream_transaction_events
  one_connection g = record {
    same_transfer = λ ts single_tx w. refl;
    same_block = λ height w. refl;
    same_split = λ amount count w. refl;
    same_balances = refl;
    same_info = λ id w. refl;
    same_revalidation = refl;
    same_validation = refl;
    same_state = refl;
    same_connectivity = refl;
    same_addresses = refl;
    same_identity = refl;
    same_payment_id_address = λ payment_id. refl;
    same_payment_id = λ payment_id w. refl;
    same_events = λ ctx w. refl;
  }

module _ {Conn : Type 0} where
  dialled_conn :
      (p : Conn × Option CallError) (c : Client Conn)
      → dialled p ≡ ok c
      → ◌≡◌ {A = Client Conn} (record { conn = p.0 }) c
  dialled_conn (conn, none) c e = ok-injective (record { conn = conn }) c e
  dialled_conn (conn, some f) c e = absurd (clash e)
    where
      clash : ◌≡◌ {A = Result CallError (Client Conn)} (err f) (ok c) → ⊥
      clash k = cc

-- When a client can be made for an address without options, the package's functions, once initialised with the
-- same address over the same library, do for every state of the world what the client's functions do with
-- the background context: equal results and equal effects. The one difference is the transfer, where the
-- client's function also classifies the error.
pub init_wallet_grpc-IsSame :
    {World Conn Ctx : Type 0}
    → (wallet : WalletClient World Conn Ctx) (background : Ctx) (dialer : Dialer Conn)
      (wallet_address : List ℕ) (c : Client Conn)
    → new dialer wallet_address [] ≡ ok c
    → IsSame wallet background (init_wallet_grpc dialer wallet_address) c
unfolding new init_wallet_grpc
init_wallet_grpc-IsSame wallet background dialer wallet_address c e =
    subst (IsSame wallet background (init_wallet_grpc dialer wallet_address))
      (dialled_conn (dialer.new_client wallet_address (insecure_credentials ∷ [])) c e)
      (one_connection wallet background (init_wallet_grpc dialer wallet_address))
