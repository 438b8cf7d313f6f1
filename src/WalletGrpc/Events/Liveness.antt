-- ===== src/WalletGrpc/Events/Liveness.antt =====
-- walletGRPC/client.go: `StreamTransactionEvents` comes to its end.
use go_tari_lib.Common.{
  ℕ, suc, ◌≤◌, ◌<◌, ◌≡◌, ◌⊎◌, inl, inr, refl, sym, ap, ◌∙◌, Bool, true, false, not, [], ◌∷◌, ◌++◌,
  length, arith, length-append, ltb,
}
use go_tari_lib.Grpc.{CallError, eof, no_status, status, Message}
use go_tari_lib.Grpc.Stream.{Stream, message, ended}
use go_tari_lib.WalletGrpc.Events.{
  Phase, receiving, sending, returning, errs_closed, stopped, Pump, started, events_capacity,
  errs_capacity, Step, receive, finish_clean, finish_error, forward, give_up, close_errs,
  close_events, Reach, by_goroutine,
}
use go_tari_lib.WalletGrpc.Events.Invariant.{IsKept, settled, true_is_false}
use go_tari_lib.WalletGrpc.Events.Preservation.{Reach-IsKept}
use go_tari_lib.WalletGrpc.Events.Termination.{Run, start, step_on, measure, runs_end}

not_twice : (b : Bool) → not (not b) ≡ b
not_twice true = refl
not_twice false = refl

-- The goroutine has closed both channels, can go on, or waits for the caller, who has not cancelled and has
-- left the channel full.
abbrev pub GoesOn : Pump → Type 0
GoesOn s =
    (s.phase ≡ stopped)
    ⊎ ((t : Pump) × Step s t)
    ⊎ ((s.cancelled ≡ false) × (length s.events ≡ events_capacity))

module _ (original : Stream Message) (s : Pump) (kept : IsKept original s) where
  room_for_error : s.phase ≡ receiving → length s.errs < errs_capacity
  room_for_error h = omega (
    arith,
    length-append s.reported s.errs,
    ap length (kept.errors ∙ ap (λ p. settled p kept.failures) h),
  )

  at_ending : (e : CallError) → s.phase ≡ receiving → s.incoming ≡ ended e → (t : Pump) × Step s t
  at_ending eof h i = (record s { phase = returning }, finish_clean h i)
  at_ending (no_status m) h i = (
    record s { phase = returning; errs = s.errs ++ (no_status m ∷ []) },
    finish_error (no_status m) h i (λ k. cc) (room_for_error h),
  )
  at_ending (status code m) h i = (
    record s { phase = returning; errs = s.errs ++ (status code m ∷ []) },
    finish_error (status code m) h i (λ k. cc) (room_for_error h),
  )

  at_receive : (q : Stream Message) → s.phase ≡ receiving → s.incoming ≡ q → (t : Pump) × Step s t
  at_receive (ended e) h i = at_ending e h i
  at_receive (message m rest) h i =
      (record s { incoming = rest; phase = sending m }, receive m rest h i)

  at_select :
      (m : Message) (full c : Bool)
      → s.phase ≡ sending m
      → ltb (length s.events) events_capacity ≡ not full
      → s.cancelled ≡ c
      → GoesOn s
  at_select m false c h k l = inr (
      inl
        (record s { phase = receiving; events = s.events ++ (m ∷ []) }, forward m h (ground arith)))
  at_select m true true h k l = inr (inl (record s { phase = returning }, give_up m h l))
  at_select m true false h k l = inr (inr (l, ground (arith, kept.within)))

  by_phase : (p : Phase) → s.phase ≡ p → GoesOn s
  by_phase receiving h = inr (inl (at_receive s.incoming h refl))
  by_phase (sending m) h =
      at_select m (not (ltb (length s.events) events_capacity)) s.cancelled h
        (sym (not_twice (ltb (length s.events) events_capacity))) refl
  by_phase returning h = inr (inl (record s { phase = errs_closed }, close_errs h))
  by_phase errs_closed h = inr (inl (record s { phase = stopped }, close_events h))
  by_phase stopped h = inl h

-- In every state that can be reached, the goroutine has closed both channels, or it has a step to take, or it
-- waits with an event in hand: the context is not cancelled and the 16 places of the channel are taken.
pub Reach-GoesOn : (original : Stream Message) (s : Pump) → Reach (started original) s → GoesOn s
Reach-GoesOn original s r = by_phase original s (Reach-IsKept original r) s.phase refl

-- Steps of the goroutine alone.
pub data Alone (s : Pump) : ℕ → Pump → Type 0 where
  at_first : Alone s 0 s
  by_itself : {n : ℕ} {t u : Pump} → Alone s n t → Step t u → Alone s (suc n) u

Step-cancelled : {s t : Pump} → Step s t → t.cancelled ≡ s.cancelled
Step-cancelled (receive m rest h i) = refl
Step-cancelled (finish_clean h i) = refl
Step-cancelled (finish_error e h i n room) = refl
Step-cancelled (forward m h room) = refl
Step-cancelled (give_up m h c) = refl
Step-cancelled (close_errs h) = refl
Step-cancelled (close_events h) = refl

Alone-cancelled : {s t : Pump} {n : ℕ} → Alone s n t → t.cancelled ≡ s.cancelled
Alone-cancelled at_first = refl
Alone-cancelled (by_itself r step) = Step-cancelled step ∙ Alone-cancelled r

Alone-Run : {s t : Pump} {n : ℕ} → Alone s n t → Run s n t
Alone-Run at_first = start
Alone-Run (by_itself r step) = step_on (Alone-Run r) step

Reach-Alone : {s t u : Pump} {n : ℕ} → Reach s t → Alone t n u → Reach s u
Reach-Alone r at_first = r
Reach-Alone r (by_itself q step) = by_goroutine (Reach-Alone r q) step

-- Once the context is cancelled, in whatever state and whether or not the caller takes another event, the
-- goroutine comes to its end by its own steps: there are only so many of them, and after however many it has
-- closed both channels or takes another one.
pub cancelled_goroutine_stops :
    (original : Stream Message) (s t : Pump) (n : ℕ)
    → Reach (started original) s
    → s.cancelled ≡ true
    → Alone s n t
    → (n ≤ measure s) × ((t.phase ≡ stopped) ⊎ ((u : Pump) × Step t u))
cancelled_goroutine_stops original s t n r c q = (
  omega (arith, runs_end s (Alone-Run q)),
  not_waiting (Reach-GoesOn original t (Reach-Alone r q)),
)
  where
    not_waiting : GoesOn t → (t.phase ≡ stopped) ⊎ ((u : Pump) × Step t u)
    not_waiting (inl h) = inl h
    not_waiting (inr (inl next)) = inr next
    not_waiting (inr (inr (live, full))) =
        absurd (true_is_false (sym c ∙ sym (Alone-cancelled q) ∙ live))
