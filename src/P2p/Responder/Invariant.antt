-- ===== src/P2p/Responder/Invariant.antt =====
-- p2p/responder.go: what holds however the goroutines of `Serve` interleave.
use mathlib.Core.Path.{subst}
use go_tari_lib.Common.{
  suc, ◌<◌, ◌≡◌, refl, sym, ap, ◌∙◌, ◌⊎◌, inl, inr, some, none, List, [], ◌∷◌, ◌++◌, arith, length,
  length-append, All, All-append, if◌then◌else◌,
}
use go_tari_lib.P2p.Responder.{
  Event, ResponderConfig, Task, multiplexed, Stop, context_done, listener_failed, Serving,
  accepting, draining, returned, Responder, started, Environment, Step, accept, accept_failed,
  accept_substream, go_on, done, stray_goes_on, waited, Reachable, start, next,
}
use go_tari_lib.P2p.Responder.Strays.{IsGivenUp, goroutines_left, Move-IsGivenUp, strays_step}
use go_tari_lib.P2p.Responder.Events.{AllJustified, Backed, All-Backed-later, Move-Backed}

module _ {Scalar Point S K : Type 0} (env : Environment Scalar Point S K)
    (cfg : ResponderConfig) where
  -- The group counts the goroutines, everything is backed, and `Serve` returns only behind all of them.
  record IsKept (s : Responder K) : Type 0 where
    counted : s.wg ≡ length s.running
    backed : All (Backed env cfg s.events) s.running
    justified : AllJustified env cfg s.events
    abandoned : All IsGivenUp s.strays
    quiet : (r : Stop) → s.serving ≡ returned r → s.running ≡ []

  split_All :
      (events : List Event) (front back tasks : List (Task K)) (task : Task K)
      → tasks ≡ front ++ (task ∷ back)
      → All (Backed env cfg events) tasks
      → All (Backed env cfg events) front
        × Backed env cfg events task
        × All (Backed env cfg events) back
  split_All events front back tasks task e bs = cut front (subst (All (Backed env cfg events)) e bs)
    where
      cut :
          (front : List (Task K))
          → All (Backed env cfg events) (front ++ (task ∷ back))
          → All (Backed env cfg events) front
            × Backed env cfg events task
            × All (Backed env cfg events) back
      cut [] (b, bs) = (tt, b, bs)
      cut (t ∷ front) (b, bs) = let (f, c, r) = cut front bs in ((b, f), c, r)

  not_empty : (front back : List (Task K)) (task : Task K) → [] ≡ front ++ (task ∷ back) → ⊥
  not_empty [] back task e = cc
  not_empty (t ∷ front) back task e = cc

  not_returned :
      (x : Serving) (r : Stop)
      → (x ≡ accepting) ⊎ ((stop : Stop) × (x ≡ draining stop))
      → x ≡ returned r
      → ⊥
  not_returned x r (inl a) e = cc
  not_returned x r (inr (stop, a)) e = cc

  nothing_left : (tasks : List (Task K)) → length tasks ≡ 0 → tasks ≡ []
  nothing_left [] e = refl
  nothing_left (task ∷ tasks) e = absurd (omega (arith, e))

  -- No goroutine is left to move when `Serve` has returned.
  stays_quiet :
      {A : Type 0} (s : Responder K) (front back : List (Task K)) (task : Task K) (r : Stop)
      → IsKept s
      → s.running ≡ front ++ (task ∷ back)
      → s.serving ≡ returned r
      → A
  stays_quiet s front back task r k e h = absurd (not_empty front back task (sym (k.quiet r h) ∙ e))

  length-front :
      (front back : List (Task K)) (task : Task K)
      → length (front ++ (task ∷ back)) ≡ suc (length (front ++ back))
  length-front front back task =
      omega (arith, length-append front (task ∷ back), length-append front back)

  length-other :
      (front back : List (Task K)) (task task' : Task K)
      → length (front ++ (task ∷ back)) ≡ length (front ++ (task' ∷ back))
  length-other front back task task' =
      length-front front back task ∙ sym (length-front front back task')

  Step-IsKept : (s t : Responder K) → IsKept s → Step env cfg s t → IsKept t
  Step-IsKept s t k (accept remote conn h) = record {
    counted = omega (arith, k.counted);
    backed = (tt, k.backed);
    justified = k.justified;
    abandoned = k.abandoned;
    quiet = λ r e. absurd (not_returned s.serving r (inl h) e);
  }
  Step-IsKept s t k (accept_failed cancelled h) = record {
    counted = k.counted;
    backed = k.backed;
    justified = k.justified;
    abandoned = k.abandoned;
    quiet = λ r e. absurd (
        not_returned (draining (if cancelled then context_done else listener_failed)) r
          (inr (_, refl)) e);
  }
  Step-IsKept s t k (accept_substream front back remote key incoming info e) = record {
    counted = omega (arith, k.counted);
    backed = (
      let (f, b, r) =
            split_All s.events front back s.running (multiplexed remote key info) e k.backed in
          b,
      k.backed,
    );
    justified = k.justified;
    abandoned = k.abandoned;
    quiet = λ r h. stays_quiet s front back (multiplexed remote key info) r k e h;
  }
  Step-IsKept s t k (go_on front back task task' new e move) =
      let (f, b, r) = split_All s.events front back s.running task e k.backed in
      let (j, b') = Move-Backed env cfg s.events new [] task (some task') move b k.justified in
      record {
        counted = k.counted ∙ ap length e ∙ length-other front back task task';
        backed =
            All-append (Backed env cfg (new ++ s.events)) front (task' ∷ back)
              (All-Backed-later env cfg new s.events front f)
              (b', All-Backed-later env cfg new s.events back r);
        justified = j;
        abandoned = k.abandoned;
        quiet = λ r h. stays_quiet s front back task r k e h;
      }
  Step-IsKept s t k (done front back task new left e move) =
      let (f, b, r) = split_All s.events front back s.running task e k.backed in
      let (j, b') = Move-Backed env cfg s.events new left task none move b k.justified in
      record {
        counted = omega (arith, k.counted, ap length e, length-front front back task);
        backed =
            All-append (Backed env cfg (new ++ s.events)) front back
              (All-Backed-later env cfg new s.events front f)
              (All-Backed-later env cfg new s.events back r);
        justified = j;
        abandoned =
            All-append IsGivenUp left s.strays
              (Move-IsGivenUp env cfg s.events new left task none move) k.abandoned;
        quiet = λ r h. stays_quiet s front back task r k e h;
      }
  Step-IsKept s t k (stray_goes_on front back frame x y e stepped) = record {
    counted = k.counted;
    backed = k.backed;
    justified = k.justified;
    abandoned =
        (strays_step env cfg front back frame x y stepped (subst (All IsGivenUp) e k.abandoned)).0;
    quiet = k.quiet;
  }
  Step-IsKept s t k (waited r h z) = record {
    counted = k.counted;
    backed = k.backed;
    justified = k.justified;
    abandoned = k.abandoned;
    quiet = λ r' e. nothing_left s.running (sym k.counted ∙ z);
  }

  started-IsKept : IsKept started
  started-IsKept = record {
    counted = refl;
    backed = tt;
    justified = tt;
    abandoned = tt;
    quiet = λ r e. refl;
  }

  Reachable-IsKept : (s : Responder K) → Reachable env cfg s → IsKept s
  Reachable-IsKept s start = started-IsKept
  Reachable-IsKept t (next {s = s} reached step) = Step-IsKept s t (Reachable-IsKept s reached) step

  -- When `Serve` has returned, only the two goroutines of exchanges of identities that failed may be left, which the
  -- group does not count: a step is one of theirs, so it leaves `Serve` returned and reports nothing, and
  -- fewer of them are left behind it.
  pub record IsWindingDown (s t : Responder K) : Type 0 where
    pub still_returned : t.serving ≡ s.serving
    pub nobody_new : t.running ≡ []
    pub nothing_reported : t.events ≡ s.events
    pub fewer_left : goroutines_left t.strays < goroutines_left s.strays

  -- However the loop of `Serve`, its connections, their exchanges of identities and their substreams
  -- interleave: when `Serve` has returned, no goroutine of a connection or a substream is left. What may be
  -- left are the sender and the receiver of exchanges of identities that had failed before: they are all
  -- that goes on, each for one step at most, and nothing is reported any more.
  pub serve_returns-quiet :
      (s : Responder K) (r : Stop)
      → Reachable env cfg s
      → s.serving ≡ returned r
      → (s.running ≡ [])
        × All IsGivenUp s.strays
        × ((t : Responder K) → Step env cfg s t → IsWindingDown s t)
  serve_returns-quiet s r reached h =
      let k = Reachable-IsKept s reached in
      (k.quiet r h, k.abandoned, after s h (k.quiet r h) k.abandoned)
    where
      after :
          (s : Responder K)
          → s.serving ≡ returned r
          → s.running ≡ []
          → All IsGivenUp s.strays
          → (t : Responder K) → Step env cfg s t
          → IsWindingDown s t
      after s h z g t (accept remote conn e) = absurd (not_returned s.serving r (inl e) h)
      after s h z g t (accept_failed cancelled e) = absurd (not_returned s.serving r (inl e) h)
      after s h z g t (accept_substream front back remote key incoming info e) =
          absurd (not_empty front back (multiplexed remote key info) (sym z ∙ e))
      after s h z g t (go_on front back task task' new e move) =
          absurd (not_empty front back task (sym z ∙ e))
      after s h z g t (done front back task new left e move) =
          absurd (not_empty front back task (sym z ∙ e))
      after s h z g t (stray_goes_on front back frame x y e stepped) =
          let (given_up, fewer) =
            strays_step env cfg front back frame x y stepped (subst (All IsGivenUp) e g) in
          record {
            still_returned = refl;
            nobody_new = z;
            nothing_reported = refl;
            fewer_left =
                subst (λ l. goroutines_left (front ++ ((frame, y) ∷ back)) < goroutines_left l)
                  (sym e) fewer;
          }
      after s h z g t (waited stop e w) = absurd (not_returned s.serving r (inr (stop, e)) h)

  -- However they interleave: an identity is reported only of a peer whose handshake made a session with the
  -- key of 32 bytes that is reported and whose exchange of identities ended with what is reported, and a substream is
  -- handled only of an address whose peer was reported before.
  pub serve_reports-AllJustified :
      (s : Responder K) → Reachable env cfg s → AllJustified env cfg s.events
  serve_reports-AllJustified s reached = (Reachable-IsKept s reached).justified
