-- ===== src/WalletGrpc/Events/Safety.antt =====
-- walletGRPC/client.go: what reaches the caller of `StreamTransactionEvents` and its caller.
use mathlib.Core.Path.{subst}
use go_tari_lib.Common.{◌≤◌, ◌≡◌, sym, ap, ◌∙◌, false, List, ◌++◌, length, append_assoc, append-nil}
use go_tari_lib.Grpc.{CallError, Message}
use go_tari_lib.Grpc.Stream.{Stream, messages, ending}
use go_tari_lib.WalletGrpc.Events.{
  Phase, receiving, sending, returning, errs_closed, stopped, Pump, started, events_capacity, Reach,
}
use go_tari_lib.WalletGrpc.Events.Invariant.{unsent, settled, errors_of, OneFailure}
use go_tari_lib.WalletGrpc.Events.Preservation.{Reach-IsKept}

OneFailure-settled : (p : Phase) (es : List CallError) → OneFailure es → OneFailure (settled p es)
OneFailure-settled receiving es h = tt
OneFailure-settled (sending m) es h = tt
OneFailure-settled returning es h = h
OneFailure-settled errs_closed es h = h
OneFailure-settled stopped es h = h

-- However the goroutine, the caller and a cancellation interleave on a stream that was opened: the events the
-- caller took, with those in the channel behind them, are the first ones of the stream, in its order; the
-- channel holds 16 events at most; and there is one error at most, taken or in its channel, which is never
-- the clean end.
pub events_in_order :
    (original : Stream Message) (s : Pump)
    → Reach (started original) s
    → ((rest : List Message) × (messages original ≡ (s.delivered ++ s.events) ++ rest))
      × (length s.events ≤ events_capacity)
      × OneFailure (s.reported ++ s.errs)
events_in_order original s r =
    let kept = Reach-IsKept original r in
    let rest = unsent s.phase s.incoming kept.dropped in
    (
      (rest, kept.in_order ∙ sym (append_assoc s.delivered s.events rest)),
      kept.within,
      subst OneFailure (sym kept.errors)
          (OneFailure-settled s.phase kept.failures kept.one_failure),
    )

-- When the goroutine has closed both channels and the context was never cancelled, the events that the caller
-- took, with those left in the channel, are all of the stream's, and the error is the stream's, or none if
-- the stream ended cleanly.
pub events_complete :
    (original : Stream Message) (s : Pump)
    → Reach (started original) s
    → s.phase ≡ stopped
    → s.cancelled ≡ false
    → (s.delivered ++ s.events ≡ messages original)
      × (s.reported ++ s.errs ≡ errors_of (ending original))
events_complete original s r h c =
    let kept = Reach-IsKept original r in
    let (none_dropped, _, failures) = kept.exact c in
    (
      sym (
          kept.in_order
          ∙ ap (λ p. s.delivered ++ (s.events ++ unsent p s.incoming kept.dropped)) h
          ∙ ap (λ d. s.delivered ++ (s.events ++ d)) none_dropped
          ∙ ap (λ q. s.delivered ++ q) (append-nil s.events)),
      kept.errors ∙ ap (λ p. settled p kept.failures) h ∙ failures,
    )
