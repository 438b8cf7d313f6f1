-- ===== src/WalletGrpc/Tests.antt =====
-- Concrete runs of walletGRPC, against a wallet that counts its calls.
use go_tari_lib.Common.{
  ℕ, suc, ◌+◌, ◌≤◌, ◌≡◌, ◌↔◌, ◌⊎◌, refl, Bool, true, false, Option, some, none, List, [], ◌∷◌, ◌++◌,
  length, arith,
}
use go_tari_lib.Common.Result.{ok, err}
use go_tari_lib.Grpc.{CallError, eof, status, Message, Dialer}
use go_tari_lib.Grpc.Stream.{Collects, Stream, message, ended, messages, ending}
use go_tari_lib.WalletGrpc.Messages.{
  TransferResult, TransferResponse, WalletClient, transfer_request,
  block_height_transactions_request,
}
use go_tari_lib.WalletGrpc.Client.{
  Client, new, send_transactions, split_transfer_results, get_transactions_in_block,
  get_completed_transactions_by_payment_id,
}
use go_tari_lib.WalletGrpc.Transfers.{
  is_ambiguous, unwrapped, error_of, response_of, FailedUnsure, IsSplit,
  send_transactions-is_ambiguous, split_transfer_results_iff,
}
use go_tari_lib.WalletGrpc.Transactions.{the_transaction, collected_transactions}
use go_tari_lib.WalletGrpc.Deprecated.{init_wallet_grpc}
use go_tari_lib.WalletGrpc.Deprecated.Agreement.{IsSame, init_wallet_grpc-IsSame}
use go_tari_lib.WalletGrpc.Events.{
  Pump, started, events_capacity, sending, stopped, receive, forward, finish_error, close_errs,
  close_events, take_event, cancel, Step, Reach, here, by_goroutine, by_others,
}
use go_tari_lib.WalletGrpc.Events.Invariant.{errors_of, OneFailure}
use go_tari_lib.WalletGrpc.Events.Safety.{events_in_order, events_complete}
use go_tari_lib.WalletGrpc.Events.Termination.{start, step_on, measure, runs_end}
use go_tari_lib.WalletGrpc.Events.Liveness.{at_first, cancelled_goroutine_stops}

abbrev unreachable : CallError
unreachable = status 14 []

abbrev counting : WalletClient ℕ (List ℕ) Unit
counting = record {
  unary = λ conn ctx q w. (err unreachable, suc w);
  get_completed_transactions = λ conn ctx filter w.
      (ok (message (record { transaction = some (1 ∷ []) }) (ended eof)), suc w);
  stream_transaction_events = λ conn ctx w. (ok (ended eof), suc w);
}

abbrev at_home : Client (List ℕ)
at_home = record { conn = 7 ∷ [] }

abbrev by_address : Dialer (List ℕ)
by_address = record { new_client = λ address opts. (address, none) }

send_transactions-is_ambiguous_example :
    let (r, w') = counting.unary at_home.conn tt (transfer_request [] true) 0 in
    let ((resp, e), sent) = send_transactions counting at_home tt [] true 0 in
    (sent ≡ w')
    × (resp ≡ response_of r)
    × (unwrapped e ≡ error_of r)
    × ((is_ambiguous e ≡ true) ↔ FailedUnsure r)
send_transactions-is_ambiguous_example =
    send_transactions-is_ambiguous counting at_home tt [] true 0

abbrev result : Bool → Option TransferResult
result b = some (record { address = []; transaction_id = 3; is_success = b; failure_message = [] })

abbrev mixed : TransferResponse
mixed = record { results = result false ∷ result true ∷ none ∷ [] }

split_transfer_results_iff_example :
    (split_transfer_results (some mixed) ≡ (result true ∷ [], result false ∷ none ∷ []))
    ↔ IsSplit (result true ∷ []) (result false ∷ none ∷ []) mixed.results
split_transfer_results_iff_example =
    split_transfer_results_iff mixed (result true ∷ []) (result false ∷ none ∷ [])

collected_transactions_example :
    let (all, w1) = counting.get_completed_transactions at_home.conn tt none 0 in
    let (filtered, w2) = counting.get_completed_transactions at_home.conn tt (some (5 ∷ [])) 0 in
    Collects the_transaction all (get_transactions_in_block counting at_home tt 0 0).0
    × ((get_transactions_in_block counting at_home tt 0 0).1 ≡ w1)
    × Collects the_transaction filtered
        (get_completed_transactions_by_payment_id counting at_home tt (5 ∷ []) 0).0
    × ((get_completed_transactions_by_payment_id counting at_home tt (5 ∷ []) 0).1 ≡ w2)
    × (get_transactions_in_block counting at_home tt 9 0
        ≡ counting.unary at_home.conn tt (block_height_transactions_request 9) 0)
collected_transactions_example =
    collected_transactions counting at_home tt 9 (5 ∷ []) 0 (λ h. ground arith)

init_wallet_grpc-IsSame_example : IsSame counting tt (init_wallet_grpc by_address (7 ∷ [])) at_home
unfolding new
init_wallet_grpc-IsSame_example =
    init_wallet_grpc-IsSame counting tt by_address (7 ∷ []) at_home refl

-- Two events, and then the server is gone.
abbrev two_events : Stream Message
two_events = message (1 ∷ []) (message (2 ∷ []) (ended unreachable))

abbrev one_sent : Pump
one_sent = record (started two_events) {
  incoming = message (2 ∷ []) (ended unreachable);
  events = (1 ∷ []) ∷ [];
}

one_sent_reached : Reach (started two_events) one_sent
one_sent_reached =
    by_goroutine
      (by_goroutine here (receive (1 ∷ []) (message (2 ∷ []) (ended unreachable)) refl refl))
      (forward (1 ∷ []) refl (omega arith))

abbrev all_done : Pump
all_done = record {
  incoming = ended unreachable;
  phase = stopped;
  events = (2 ∷ []) ∷ [];
  delivered = (1 ∷ []) ∷ [];
  errs = unreachable ∷ [];
  reported = [];
  cancelled = false;
}

all_done_reached : Reach (started two_events) all_done
all_done_reached =
    by_goroutine
      (by_goroutine
        (by_goroutine
          (by_goroutine
            (by_goroutine (by_others one_sent_reached (take_event (1 ∷ []) [] refl))
              (receive (2 ∷ []) (ended unreachable) refl refl))
            (forward (2 ∷ []) refl (omega arith)))
          (finish_error unreachable refl refl (λ k. cc) (omega arith)))
        (close_errs refl))
      (close_events refl)

events_in_order_example :
    ((rest : List Message) × (messages two_events
        ≡ (all_done.delivered ++ all_done.events) ++ rest))
    × (length all_done.events ≤ events_capacity)
    × OneFailure (all_done.reported ++ all_done.errs)
events_in_order_example = events_in_order two_events all_done all_done_reached

events_complete_example :
    (all_done.delivered ++ all_done.events ≡ messages two_events)
    × (all_done.reported ++ all_done.errs ≡ errors_of (ending two_events))
events_complete_example = events_complete two_events all_done all_done_reached refl refl

abbrev received : Pump
received = record (started two_events) {
  incoming = message (2 ∷ []) (ended unreachable);
  phase = sending (1 ∷ []);
}

runs_end_example : 1 + measure received ≤ measure (started two_events)
runs_end_example =
    runs_end (started two_events)
      (step_on start (receive (1 ∷ []) (message (2 ∷ []) (ended unreachable)) refl refl))

abbrev given_up : Pump
given_up = record one_sent { cancelled = true }

cancelled_goroutine_stops_example :
    (0 ≤ measure given_up) × ((given_up.phase ≡ stopped) ⊎ ((u : Pump) × Step given_up u))
cancelled_goroutine_stops_example =
    cancelled_goroutine_stops two_events given_up given_up 0
      (by_others one_sent_reached (cancel refl)) refl at_first
