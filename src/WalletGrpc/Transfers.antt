-- ===== src/WalletGrpc/Transfers.antt =====
-- walletGRPC/client.go: which errors of a transfer are ambiguous, and the split of its results.
use mathlib.Core.Path.{subst}
use go_tari_lib.Common.{
  ◌≡◌, ◌↔◌, ◌⊎◌, refl, sym, ap, ◌∙◌, Bool, true, false, arith, Option, some, none, List, [], ◌∷◌,
  ◌++◌, append_assoc, append-nil,
}
use go_tari_lib.Common.Result.{Result, ok, err}
use go_tari_lib.Grpc.{CallError, eof, no_status, status, deadline_exceeded, unavailable, canceled}
use go_tari_lib.WalletGrpc.Messages.{
  PaymentRecipient, TransferResult, TransferResponse, transfer_request, WalletClient,
}
use go_tari_lib.WalletGrpc.Client.{
  Client, TransferError, as_is, ambiguous_broadcast, classify_transfer_err, send_transactions,
  transferred, get_is_success, Results, split_loop, split_transfer_results,
}

-- An error that leaves open whether the wallet broadcast the transaction: no status at all, or the status of
-- a deadline, of an unavailable server, or of a cancelled call.
abbrev pub IsUnsure : CallError → Type 0
IsUnsure eof = Unit
IsUnsure (no_status m) = Unit
IsUnsure (status code m) = (code ≡ deadline_exceeded) ⊎ (code ≡ unavailable) ⊎ (code ≡ canceled)

-- What `errors.Is(err, ErrAmbiguousBroadcast)` tells of the error of a transfer.
abbrev pub is_ambiguous : Option TransferError → Bool
is_ambiguous none = false
is_ambiguous (some (as_is e)) = false
is_ambiguous (some (ambiguous_broadcast e)) = true

-- The error of the call, below the wrapping.
abbrev pub unwrapped : Option TransferError → Option CallError
unwrapped none = none
unwrapped (some (as_is e)) = some e
unwrapped (some (ambiguous_broadcast e)) = some e

classify_transfer_err-is_ambiguous :
    (e : CallError) → (is_ambiguous (classify_transfer_err (some e)) ≡ true) ↔ IsUnsure e
unfolding classify_transfer_err
classify_transfer_err-is_ambiguous eof = (λ h. tt, λ u. refl)
classify_transfer_err-is_ambiguous (no_status m) = (λ h. tt, λ u. refl)
classify_transfer_err-is_ambiguous (status code m) = (ground arith, ground arith)

classify_transfer_err-unwrapped :
    (e : CallError) → unwrapped (classify_transfer_err (some e)) ≡ some e
unfolding classify_transfer_err
classify_transfer_err-unwrapped eof = refl
classify_transfer_err-unwrapped (no_status m) = refl
classify_transfer_err-unwrapped (status code m) = ground arith

-- What `SendTransactions` makes of the answer to its one call.
abbrev pub error_of : Result CallError TransferResponse → Option CallError
error_of (ok resp) = none
error_of (err e) = some e

abbrev pub response_of : Result CallError TransferResponse → Option TransferResponse
response_of (ok resp) = some resp
response_of (err e) = none

abbrev pub FailedUnsure : Result CallError TransferResponse → Type 0
FailedUnsure (ok resp) = ⊥
FailedUnsure (err e) = IsUnsure e

transferred_lem :
    (r : Result CallError TransferResponse)
    → ((transferred r).0 ≡ response_of r)
      × (unwrapped (transferred r).1 ≡ error_of r)
      × ((is_ambiguous (transferred r).1 ≡ true) ↔ FailedUnsure r)
transferred_lem (ok resp) = (refl, refl, (λ h. ground arith, λ h. absurd h))
transferred_lem (err e) =
    (refl, classify_transfer_err-unwrapped e, classify_transfer_err-is_ambiguous e)

module _ {World Conn Ctx : Type 0} (wallet : WalletClient World Conn Ctx) (c : Client Conn)
    (ctx : Ctx) where
  -- Sending is one call of Transfer: the response is the call's, the error under the wrapping is the call's,
  -- and the error is an ambiguous broadcast exactly when the call failed with no status, or with the status
  -- of a deadline, of an unavailable server or of a cancelled call.
  pub send_transactions-is_ambiguous :
      (transactions : List (Option PaymentRecipient)) (single_tx : Bool) (w : World)
      → let (r, w') = wallet.unary c.conn ctx (transfer_request transactions single_tx) w in
        let ((resp, e), sent) = send_transactions wallet c ctx transactions single_tx w in
        (sent ≡ w')
        × (resp ≡ response_of r)
        × (unwrapped e ≡ error_of r)
        × ((is_ambiguous e ≡ true) ↔ FailedUnsure r)
  unfolding send_transactions
  send_transactions-is_ambiguous transactions single_tx w =
      let (answered, wrapped, told) =
        transferred_lem (wallet.unary c.conn ctx (transfer_request transactions single_tx) w).0 in
      (refl, answered, wrapped, told)

-- Two lists that the results fall into in their order, the successes into the first and all others into the
-- second.
pub data IsSplit : Results → Results → Results → Type 0 where
  no_results : IsSplit [] [] []
  a_success :
      {s f rs : Results}
      → (r : Option TransferResult) → get_is_success r ≡ true
      → IsSplit s f rs
      → IsSplit (r ∷ s) f (r ∷ rs)
  a_failure :
      {s f rs : Results}
      → (r : Option TransferResult) → get_is_success r ≡ false
      → IsSplit s f rs
      → IsSplit s (r ∷ f) (r ∷ rs)

split_loop-IsSplit :
    {s f rs : Results} → (a b : Results) → IsSplit s f rs → split_loop a b rs ≡ (a ++ s, b ++ f)
split_loop-IsSplit a b no_results =
    ap (λ l. (l, b)) (sym (append-nil a)) ∙ ap (λ l. (a ++ [], l)) (sym (append-nil b))
split_loop-IsSplit a b (a_success {s} {f} {rs} r h i) =
    rw (h, split_loop)
      (split_loop-IsSplit (a ++ (r ∷ [])) b i ∙ ap (λ l. (l, b ++ f)) (append_assoc a (r ∷ []) s))
split_loop-IsSplit a b (a_failure {s} {f} {rs} r h i) =
    rw (h, split_loop)
      (split_loop-IsSplit a (b ++ (r ∷ [])) i ∙ ap (λ l. (a ++ s, l)) (append_assoc b (r ∷ []) f))

-- Every list of results can be split.
abbrev HasSplit : Results → Type 0
HasSplit rs = (s : Results) × (f : Results) × IsSplit s f rs

split_more : (r : Option TransferResult) (rs : Results) → HasSplit rs → HasSplit (r ∷ rs)
split_more r rs (s, f, i) = by_success (get_is_success r) refl
  where
    by_success : (b : Bool) → get_is_success r ≡ b → HasSplit (r ∷ rs)
    by_success true h = (r ∷ s, f, a_success r h i)
    by_success false h = (s, r ∷ f, a_failure r h i)

split_of : (rs : Results) → HasSplit rs
split_of [] = ([], [], no_results)
split_of (r ∷ rs) = split_more r rs (split_of rs)

-- The split of a response gives two lists exactly when its results fall into these in their order, the
-- successes into the first, and the failures and the nil results into the second.
pub split_transfer_results_iff :
    (resp : TransferResponse) (s f : Results)
    → (split_transfer_results (some resp) ≡ (s, f)) ↔ IsSplit s f resp.results
unfolding split_transfer_results
split_transfer_results_iff resp s f = (sound, split_loop-IsSplit [] [])
  where
    sound : split_loop [] [] resp.results ≡ (s, f) → IsSplit s f resp.results
    sound e =
        let (s', f', i) = split_of resp.results in
        let same : ◌≡◌ {A = Results × Results} (s', f') (s, f) =
          sym (split_loop-IsSplit [] [] i) ∙ e in
        subst (λ p. IsSplit p.0 p.1 resp.results) same i
