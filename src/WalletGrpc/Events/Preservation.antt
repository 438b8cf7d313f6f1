-- ===== src/WalletGrpc/Events/Preservation.antt =====
-- walletGRPC/client.go: the invariant through each step of `StreamTransactionEvents` and its caller.
use go_tari_lib.Common.{
  ◌<◌, ◌≡◌, sym, ap, ◌∙◌, true, List, [], ◌∷◌, ◌++◌, length, arith, append_assoc, append-nil,
  length-append,
}
use go_tari_lib.Grpc.{CallError, eof, status, canceled, Message}
use go_tari_lib.Grpc.Stream.{Stream, message, ended, messages, ending}
use go_tari_lib.WalletGrpc.Events.{
  Phase, receiving, sending, returning, errs_closed, stopped, Pump, started, events_capacity, Step,
  receive, finish_clean, finish_error, forward, give_up, close_errs, close_events, Around,
  take_event, take_error, cancel, surface, Reach, here, by_goroutine, by_others,
}
use go_tari_lib.WalletGrpc.Events.Invariant.{
  unsent, lost, lost_lem, settled, errors_of, IsKept, true_is_false, errors_of-OneFailure,
  errors_of_error, started-IsKept,
}

module _ (original : Stream Message) (s : Pump) (kept : IsKept original s) where
  -- What the invariant says in a known phase, with a known rest of the stream.
  in_phase :
      (p : Phase)
      → s.phase ≡ p
      → messages original ≡ s.delivered ++ (s.events ++ unsent p s.incoming kept.dropped)
  in_phase p h =
      kept.in_order ∙ ap (λ q. s.delivered ++ (s.events ++ unsent q s.incoming kept.dropped)) h

  errors_in : (p : Phase) → s.phase ≡ p → s.reported ++ s.errs ≡ settled p kept.failures
  errors_in p h = kept.errors ∙ ap (λ q. settled q kept.failures) h

  receive-IsKept :
      (m : Message) (rest : Stream Message)
      → s.phase ≡ receiving
      → s.incoming ≡ message m rest
      → IsKept original (record s { incoming = rest; phase = sending m })
  receive-IsKept m rest h i = record {
    dropped = kept.dropped;
    failures = kept.failures;
    in_order =
        in_phase receiving h
        ∙ ap (λ q. s.delivered ++ (s.events ++ (messages q ++ kept.dropped))) i;
    within = kept.within;
    errors = errors_in receiving h;
    one_failure = kept.one_failure;
    exact = λ c. let (d, e, f) = kept.exact c in (d, ap ending (sym i) ∙ e, f);
  }

  finish-IsKept :
      (e : CallError) (es : List CallError)
      → s.phase ≡ receiving
      → s.incoming ≡ ended e
      → es ≡ s.errs ++ errors_of e
      → IsKept original (record s { phase = returning; errs = es })
  finish-IsKept e es h i k = record {
    dropped = kept.dropped;
    failures = errors_of e;
    in_order =
        in_phase receiving h
        ∙ ap (λ q. s.delivered ++ (s.events ++ (messages q ++ kept.dropped))) i;
    within = kept.within;
    errors =
        ap (λ q. s.reported ++ q) k
        ∙ sym (append_assoc s.reported s.errs (errors_of e))
        ∙ ap (λ q. q ++ errors_of e) (errors_in receiving h);
    one_failure = errors_of-OneFailure e;
    exact =
        λ c. let (d, same, f) = kept.exact c in (d, same, ap errors_of (ap ending (sym i) ∙ same));
  }

  forward-IsKept :
      (m : Message)
      → s.phase ≡ sending m
      → length s.events < events_capacity
      → IsKept original (record s { phase = receiving; events = s.events ++ (m ∷ []) })
  forward-IsKept m h room = record {
    dropped = kept.dropped;
    failures = kept.failures;
    in_order =
        in_phase (sending m) h
        ∙ ap (λ q. s.delivered ++ q)
            (sym (append_assoc s.events (m ∷ []) (messages s.incoming ++ kept.dropped)));
    within = omega (arith, length-append s.events (m ∷ []));
    errors = errors_in (sending m) h;
    one_failure = kept.one_failure;
    exact = kept.exact;
  }

  give_up-IsKept :
      (m : Message)
      → s.phase ≡ sending m
      → s.cancelled ≡ true
      → IsKept original (record s { phase = returning })
  give_up-IsKept m h done = record {
    dropped = m ∷ (messages s.incoming ++ kept.dropped);
    failures = [];
    in_order = in_phase (sending m) h;
    within = kept.within;
    errors = errors_in (sending m) h;
    one_failure = tt;
    exact = λ c. absurd (true_is_false (sym done ∙ c));
  }

  close_errs-IsKept : s.phase ≡ returning → IsKept original (record s { phase = errs_closed })
  close_errs-IsKept h = record {
    dropped = kept.dropped;
    failures = kept.failures;
    in_order = in_phase returning h;
    within = kept.within;
    errors = errors_in returning h;
    one_failure = kept.one_failure;
    exact = kept.exact;
  }

  close_events-IsKept : s.phase ≡ errs_closed → IsKept original (record s { phase = stopped })
  close_events-IsKept h = record {
    dropped = kept.dropped;
    failures = kept.failures;
    in_order = in_phase errs_closed h;
    within = kept.within;
    errors = errors_in errs_closed h;
    one_failure = kept.one_failure;
    exact = kept.exact;
  }

  take_event-IsKept :
      (m : Message) (ms : List Message)
      → s.events ≡ m ∷ ms
      → IsKept original (record s { events = ms; delivered = s.delivered ++ (m ∷ []) })
  take_event-IsKept m ms h = record {
    dropped = kept.dropped;
    failures = kept.failures;
    in_order =
        kept.in_order
        ∙ ap (λ q. s.delivered ++ (q ++ unsent s.phase s.incoming kept.dropped)) h
        ∙ sym (append_assoc s.delivered (m ∷ []) (ms ++ unsent s.phase s.incoming kept.dropped));
    within = omega (arith, ap length h, kept.within);
    errors = kept.errors;
    one_failure = kept.one_failure;
    exact = kept.exact;
  }

  take_error-IsKept :
      (e : CallError) (es : List CallError)
      → s.errs ≡ e ∷ es
      → IsKept original (record s { errs = es; reported = s.reported ++ (e ∷ []) })
  take_error-IsKept e es h = record {
    dropped = kept.dropped;
    failures = kept.failures;
    in_order = kept.in_order;
    within = kept.within;
    errors = append_assoc s.reported (e ∷ []) es ∙ ap (λ q. s.reported ++ q) (sym h) ∙ kept.errors;
    one_failure = kept.one_failure;
    exact = kept.exact;
  }

  cancel-IsKept : IsKept original (record s { cancelled = true })
  cancel-IsKept = record {
    dropped = kept.dropped;
    failures = kept.failures;
    in_order = kept.in_order;
    within = kept.within;
    errors = kept.errors;
    one_failure = kept.one_failure;
    exact = λ c. absurd (true_is_false c);
  }

  surface-IsKept :
      (e : CallError) → s.cancelled ≡ true → IsKept original (record s { incoming = ended e })
  surface-IsKept e done = record {
    dropped = lost s.phase s.incoming kept.dropped;
    failures = kept.failures;
    in_order =
        kept.in_order
        ∙ ap (λ q. s.delivered ++ (s.events ++ q)) (lost_lem s.phase s.incoming kept.dropped e);
    within = kept.within;
    errors = kept.errors;
    one_failure = kept.one_failure;
    exact = λ c. absurd (true_is_false (sym done ∙ c));
  }

Step-IsKept :
    (original : Stream Message) {s t : Pump} → IsKept original s → Step s t → IsKept original t
Step-IsKept original {s} kept (receive m rest h i) = receive-IsKept original s kept m rest h i
Step-IsKept original {s} kept (finish_clean h i) =
    finish-IsKept original s kept eof s.errs h i (sym (append-nil s.errs))
Step-IsKept original {s} kept (finish_error e h i n room) =
    finish-IsKept original s kept e (s.errs ++ (e ∷ [])) h i
      (ap (λ q. s.errs ++ q) (sym (errors_of_error e n)))
Step-IsKept original {s} kept (forward m h room) = forward-IsKept original s kept m h room
Step-IsKept original {s} kept (give_up m h done) = give_up-IsKept original s kept m h done
Step-IsKept original {s} kept (close_errs h) = close_errs-IsKept original s kept h
Step-IsKept original {s} kept (close_events h) = close_events-IsKept original s kept h

Around-IsKept :
    (original : Stream Message) {s t : Pump} → IsKept original s → Around s t → IsKept original t
Around-IsKept original {s} kept (take_event m ms h) = take_event-IsKept original s kept m ms h
Around-IsKept original {s} kept (take_error e es h) = take_error-IsKept original s kept e es h
Around-IsKept original {s} kept (cancel c) = cancel-IsKept original s kept
Around-IsKept original {s} kept (surface text m rest done i) =
    surface-IsKept original s kept (status canceled text) done

pub Reach-IsKept :
    (original : Stream Message) {s : Pump} → Reach (started original) s → IsKept original s
Reach-IsKept original here = started-IsKept original
Reach-IsKept original (by_goroutine r step) = Step-IsKept original (Reach-IsKept original r) step
Reach-IsKept original (by_others r step) = Around-IsKept original (Reach-IsKept original r) step
