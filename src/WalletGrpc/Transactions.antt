-- ===== src/WalletGrpc/Transactions.antt =====
-- walletGRPC/client.go: the two functions that collect completed transactions.
use go_tari_lib.Common.{ℕ, ◌≡◌, ◌≢◌, refl, false, ◌==◌, arith, Option, some, none, List}
use go_tari_lib.Common.Result.{Result, ok, err}
use go_tari_lib.Common.Action.{give, ◌>>=◌}
use go_tari_lib.Grpc.{CallError, Message}
use go_tari_lib.Grpc.Stream.{Stream, Collects, not_opened, drain, drain-Collects}
use go_tari_lib.WalletGrpc.Messages.{
  CompletedTransactions, WalletClient, block_height_transactions_request,
}
use go_tari_lib.WalletGrpc.Client.{
  Client, picked, completed_transactions, get_transactions_in_block,
  get_completed_transactions_by_payment_id,
}

-- What is taken from each message.
abbrev pub the_transaction : CompletedTransactions → Option Message
the_transaction m = m.transaction

module _ {World Conn Ctx : Type 0} (wallet : WalletClient World Conn Ctx) (c : Client Conn)
    (ctx : Ctx) where
  completed_transactions_lem :
      (filter : Option (List ℕ)) (w : World)
      → let (r, w') = wallet.get_completed_transactions c.conn ctx filter w in
        Collects the_transaction r (completed_transactions wallet c ctx filter w).0
        × ((completed_transactions wallet c ctx filter w).1 ≡ w')
  completed_transactions_lem filter w =
      let (r, w') = wallet.get_completed_transactions c.conn ctx filter w in by_result r w'
    where
      by_result :
          (r : Result CallError (Stream CompletedTransactions)) (w' : World)
          → let out = ((λ s. (r, s)) >>= λ stream. give (drain picked stream)) w' in
            Collects the_transaction r out.0 × (out.1 ≡ w')
      by_result (ok stream) w' = (drain-Collects the_transaction stream, refl)
      by_result (err e) w' = (not_opened e, refl)

  -- Block height 0 opens the stream of all completed transactions, and a payment id the stream that is
  -- filtered by it; either gives the transaction of each message of the stream, in their order, if the
  -- stream was opened and ended cleanly, and else the error and no transaction. Any other height is one call
  -- for that height. Nothing else is called.
  pub collected_transactions :
      (height : ℕ) (payment_id : List ℕ) (w : World)
      → height ≢ 0
      → let (all, w1) = wallet.get_completed_transactions c.conn ctx none w in
        let (filtered, w2) = wallet.get_completed_transactions c.conn ctx (some payment_id) w in
        Collects the_transaction all (get_transactions_in_block wallet c ctx 0 w).0
        × ((get_transactions_in_block wallet c ctx 0 w).1 ≡ w1)
        × Collects the_transaction filtered
            (get_completed_transactions_by_payment_id wallet c ctx payment_id w).0
        × ((get_completed_transactions_by_payment_id wallet c ctx payment_id w).1 ≡ w2)
        × (get_transactions_in_block wallet c ctx height w
            ≡ wallet.unary c.conn ctx (block_height_transactions_request height) w)
  unfolding get_transactions_in_block get_completed_transactions_by_payment_id
  collected_transactions height payment_id w h =
      let (all, w1) = completed_transactions_lem none w in
      let (filtered, w2) = completed_transactions_lem (some payment_id) w in
      (all, w1, filtered, w2, rw other refl)
    where
      other : (height == 0) ≡ false
      other = ground arith
