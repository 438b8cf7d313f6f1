-- ===== src/WalletGrpc/Events/Termination.antt =====
-- walletGRPC/client.go: `StreamTransactionEvents` takes so many steps.
use go_tari_lib.Common.{
  ℕ, suc, ◌+◌, ◌*◌, ◌≤◌, ◌<◌, ap, Bool, true, false, [], ◌∷◌, length, arith, length-append,
}
use go_tari_lib.Grpc.{Message}
use go_tari_lib.Grpc.Stream.{Stream, message, ended}
use go_tari_lib.WalletGrpc.Events.{
  Phase, receiving, sending, returning, errs_closed, stopped, Pump, Step, receive, finish_clean,
  finish_error, forward, give_up, close_errs, close_events, Around, take_event, take_error, cancel,
  surface,
}

abbrev size : Stream Message → ℕ
size (ended e) = 0
size (message m s) = suc (size s)

abbrev weight : Phase → ℕ
weight receiving = 4
weight (sending m) = 6
weight returning = 2
weight errs_closed = 1
weight stopped = 0

abbrev not_yet : Bool → ℕ
not_yet true = 0
not_yet false = 1

-- The number of steps that are left at most.
abbrev pub measure : Pump → ℕ
measure s =
    3 * size s.incoming + weight s.phase + length s.events + length s.errs + not_yet s.cancelled

measure-Step : {s t : Pump} → Step s t → measure t < measure s
measure-Step {s} (receive m rest h i) = omega (arith, ap weight h, ap size i)
measure-Step {s} (finish_clean h i) = omega (arith, ap weight h)
measure-Step {s} (finish_error e h i n room) =
    omega (arith, ap weight h, length-append s.errs (e ∷ []))
measure-Step {s} (forward m h room) = omega (arith, ap weight h, length-append s.events (m ∷ []))
measure-Step {s} (give_up m h c) = omega (arith, ap weight h)
measure-Step {s} (close_errs h) = omega (arith, ap weight h)
measure-Step {s} (close_events h) = omega (arith, ap weight h)

measure-Around : {s t : Pump} → Around s t → measure t < measure s
measure-Around {s} (take_event m ms h) = omega (arith, ap length h)
measure-Around {s} (take_error e es h) = omega (arith, ap length h)
measure-Around {s} (cancel c) = omega (arith, ap not_yet c)
measure-Around {s} (surface text m rest c i) = omega (arith, ap size i)

-- Steps of the goroutine, the caller and a cancellation, one after the other.
pub data Run (s : Pump) : ℕ → Pump → Type 0 where
  start : Run s 0 s
  step_on : {n : ℕ} {t u : Pump} → Run s n t → Step t u → Run s (suc n) u
  others_on : {n : ℕ} {t u : Pump} → Run s n t → Around t u → Run s (suc n) u

-- A run is bounded, whoever takes its steps in what order: by three steps for each message to come, six at
-- most for the goroutine's place, one for each event and each error in the channels, and one for the
-- cancellation.
pub runs_end : (s : Pump) → {n : ℕ} {t : Pump} → Run s n t → n + measure t ≤ measure s
runs_end s start = omega arith
runs_end s (step_on r step) = omega (arith, runs_end s r, measure-Step step)
runs_end s (others_on r step) = omega (arith, runs_end s r, measure-Around step)
