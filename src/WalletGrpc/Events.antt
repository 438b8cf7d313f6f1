-- ===== src/WalletGrpc/Events.antt =====
-- walletGRPC/client.go, walletGRPC/wallet.go: `StreamTransactionEvents`, the goroutine that moves the events of
-- a stream into a channel, and the caller at the other end, as a step relation.
pub mod Invariant
pub mod Preservation
pub mod Safety
pub mod Termination
pub mod Liveness
use go_tari_lib.Common.{ℕ, ◌<◌, ◌≡◌, ◌≢◌, Bool, true, false, List, [], ◌∷◌, ◌++◌, length}
use go_tari_lib.Common.Result.{Result, ok, err}
use go_tari_lib.Grpc.{CallError, eof, status, canceled, Message}
use go_tari_lib.Grpc.Stream.{Stream, message, ended}
use go_tari_lib.WalletGrpc.Messages.{WalletClient}
use go_tari_lib.WalletGrpc.Client.{Client}
use go_tari_lib.WalletGrpc.Deprecated.{Globals}

-- `make(chan …, 16)` and `make(chan error, 1)`
abbrev pub events_capacity : ℕ
events_capacity = 16

abbrev pub errs_capacity : ℕ
errs_capacity = 1

-- Where the goroutine is: before `Recv`, in the select with an event, and after it returned, with the two
-- deferred calls to run, the later one first.
pub data Phase : Type 0 where
  receiving : Phase
  sending : Message → Phase
  returning errs_closed stopped : Phase

-- What `Recv` is going to give, the two channels, and what the caller took out of them.
pub record Pump : Type 0 where
  pub incoming : Stream Message
  pub phase : Phase
  pub events : List Message
  pub delivered : List Message
  pub errs : List CallError
  pub reported : List CallError
  pub cancelled : Bool

-- The goroutine started, or the channels closed at once with the error of the call in them.
abbrev pub started : Stream Message → Pump
started stream = record {
  incoming = stream;
  phase = receiving;
  events = [];
  delivered = [];
  errs = [];
  reported = [];
  cancelled = false;
}

abbrev pub refused : CallError → Pump
refused e = record {
  incoming = ended e;
  phase = stopped;
  events = [];
  delivered = [];
  errs = e ∷ [];
  reported = [];
  cancelled = false;
}

abbrev pub pump_of : Result CallError (Stream Message) → Pump
pump_of (ok stream) = started stream
pump_of (err e) = refused e

module _ {World Conn Ctx : Type 0} (wallet : WalletClient World Conn Ctx) where
  unfoldable pub stream_transaction_events : Client Conn → Ctx → World → Pump × World
  stream_transaction_events c ctx w =
      let (r, w') = wallet.stream_transaction_events c.conn ctx w in (pump_of r, w')

  -- The package's function, which takes its context too.
  unfoldable pub package_stream_transaction_events : Globals Conn → Ctx → World → Pump × World
  package_stream_transaction_events g ctx w =
      let (r, w') = wallet.stream_transaction_events g.grpc_conn ctx w in (pump_of r, w')

-- One step of the goroutine.
pub data Step (s : Pump) : Pump → Type 0 where
  receive :
      (m : Message) (rest : Stream Message)
      → s.phase ≡ receiving
      → s.incoming ≡ message m rest
      → Step s (record s { incoming = rest; phase = sending m })
  finish_clean :
      s.phase ≡ receiving → s.incoming ≡ ended eof → Step s (record s { phase = returning })
  finish_error :
      (e : CallError)
      → s.phase ≡ receiving
      → s.incoming ≡ ended e
      → e ≢ eof
      → length s.errs < errs_capacity
      → Step s (record s { phase = returning; errs = s.errs ++ (e ∷ []) })
  forward :
      (m : Message)
      → s.phase ≡ sending m
      → length s.events < events_capacity
      → Step s (record s { phase = receiving; events = s.events ++ (m ∷ []) })
  give_up :
      (m : Message)
      → s.phase ≡ sending m
      → s.cancelled ≡ true
      → Step s (record s { phase = returning })
  close_errs : s.phase ≡ returning → Step s (record s { phase = errs_closed })
  close_events : s.phase ≡ errs_closed → Step s (record s { phase = stopped })

-- What goes on around it: the caller takes from the channels, or cancels, and a stream that was cancelled
-- ends with that status.
pub data Around (s : Pump) : Pump → Type 0 where
  take_event :
      (m : Message) (ms : List Message)
      → s.events ≡ m ∷ ms
      → Around s (record s { events = ms; delivered = s.delivered ++ (m ∷ []) })
  take_error :
      (e : CallError) (es : List CallError)
      → s.errs ≡ e ∷ es
      → Around s (record s { errs = es; reported = s.reported ++ (e ∷ []) })
  cancel : s.cancelled ≡ false → Around s (record s { cancelled = true })
  surface :
      (text m : Message) (rest : Stream Message)
      → s.cancelled ≡ true
      → s.incoming ≡ message m rest
      → Around s (record s { incoming = ended (status canceled text) })

pub data Reach (s : Pump) : Pump → Type 0 where
  here : Reach s s
  by_goroutine : {t u : Pump} → Reach s t → Step t u → Reach s u
  by_others : {t u : Pump} → Reach s t → Around t u → Reach s u
