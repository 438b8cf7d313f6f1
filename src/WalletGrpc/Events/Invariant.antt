-- ===== src/WalletGrpc/Events/Invariant.antt =====
-- walletGRPC/client.go: the invariant of `StreamTransactionEvents` and its caller.
use go_tari_lib.Common.{
  ◌≤◌, ◌≡◌, ◌≢◌, refl, sym, Bool, true, false, List, [], ◌∷◌, ◌++◌, length, arith, append-nil,
}
use go_tari_lib.Grpc.{CallError, eof, no_status, status, Message}
use go_tari_lib.Grpc.Stream.{Stream, ended, messages, ending}
use go_tari_lib.WalletGrpc.Events.{
  Phase, receiving, sending, returning, errs_closed, stopped, Pump, started, events_capacity,
}

-- What is still to be put into the channel, with the messages that never will be.
abbrev pub unsent : Phase → Stream Message → List Message → List Message
unsent receiving incoming dropped = messages incoming ++ dropped
unsent (sending m) incoming dropped = m ∷ (messages incoming ++ dropped)
unsent returning incoming dropped = dropped
unsent errs_closed incoming dropped = dropped
unsent stopped incoming dropped = dropped

-- What is dropped when the stream ends early.
abbrev pub lost : Phase → Stream Message → List Message → List Message
lost receiving incoming dropped = messages incoming ++ dropped
lost (sending m) incoming dropped = messages incoming ++ dropped
lost returning incoming dropped = dropped
lost errs_closed incoming dropped = dropped
lost stopped incoming dropped = dropped

pub lost_lem :
    (p : Phase) (incoming : Stream Message) (dropped : List Message) (e : CallError)
    → unsent p incoming dropped ≡ unsent p (ended e) (lost p incoming dropped)
lost_lem receiving incoming dropped e = refl
lost_lem (sending m) incoming dropped e = refl
lost_lem returning incoming dropped e = refl
lost_lem errs_closed incoming dropped e = refl
lost_lem stopped incoming dropped e = refl

-- The errors that were put into the channel.
abbrev pub settled : Phase → List CallError → List CallError
settled receiving failures = []
settled (sending m) failures = []
settled returning failures = failures
settled errs_closed failures = failures
settled stopped failures = failures

-- The errors that the end of a stream calls for.
abbrev pub errors_of : CallError → List CallError
errors_of eof = []
errors_of (no_status m) = no_status m ∷ []
errors_of (status code m) = status code m ∷ []

-- One error at most, which is not the clean end.
abbrev pub OneFailure : List CallError → Type 0
OneFailure [] = Unit
OneFailure (e ∷ []) = e ≢ eof
OneFailure (e ∷ f ∷ es) = ⊥

pub record IsKept (original : Stream Message) (s : Pump) : Type 0 where
  pub dropped : List Message
  pub failures : List CallError
  pub in_order : messages original ≡ s.delivered ++ (s.events ++ unsent s.phase s.incoming dropped)
  pub within : length s.events ≤ events_capacity
  pub errors : s.reported ++ s.errs ≡ settled s.phase failures
  pub one_failure : OneFailure failures
  pub exact :
      s.cancelled ≡ false
      → (dropped ≡ [])
        × (ending s.incoming ≡ ending original)
        × (failures ≡ errors_of (ending original))

pub true_is_false : ◌≡◌ {A = Bool} true false → ⊥
true_is_false h = cc

pub errors_of-OneFailure : (e : CallError) → OneFailure (errors_of e)
errors_of-OneFailure eof = tt
errors_of-OneFailure (no_status m) = λ h. cc
errors_of-OneFailure (status code m) = λ h. cc

pub errors_of_error : (e : CallError) → e ≢ eof → errors_of e ≡ e ∷ []
errors_of_error eof h = absurd (h refl)
errors_of_error (no_status m) h = refl
errors_of_error (status code m) h = refl

pub started-IsKept : (stream : Stream Message) → IsKept stream (started stream)
started-IsKept stream = record {
  dropped = [];
  failures = errors_of (ending stream);
  in_order = sym (append-nil (messages stream));
  within = omega arith;
  errors = refl;
  one_failure = errors_of-OneFailure (ending stream);
  exact = λ h. (refl, refl, refl);
}
