-- ===== src/P2p/Responder/Strays.antt =====
-- p2p/responder.go over p2p/session.go: the goroutines of exchanges of identities that failed.
use go_tari_lib.Common.{
  ℕ, ◌+◌, ◌<◌, ◌≡◌, sym, ◌∙◌, Option, some, none, List, [], ◌∷◌, ◌++◌, arith, All,
}
use go_tari_lib.Common.Result.{Result, err}
use go_tari_lib.P2p.Errors.{Error}
use go_tari_lib.P2p.Identity.{PeerInfo}
use go_tari_lib.P2p.IdentityExchange
use go_tari_lib.P2p.IdentityExchange.{
  Exchange, Half, pending, in_channel, taken, send, receive, select_done, select_sent,
  select_send_failed, select_received, select_receive_failed, finish,
}
use go_tari_lib.P2p.Responder.{
  Event, ResponderConfig, Stray, Task, Environment, Move, deadline_refused, handshake_failed,
  handshake_done, frame_refused, exchange_begun, exchange_step, context_ended, exchange_failed,
  exchange_done, deadline_stays, yamux_refused, upgraded, session_ended, peers_listed,
  substream_done,
}

-- The call that started the goroutines has returned an error.
abbrev pub IsGivenUp : {K : Type 0} → Stray K → Type 0
IsGivenUp (frame, x) = (e : Error) × (x.outcome ≡ some (err e))

-- The goroutines that have yet to send or to receive.
abbrev pub left_of : {A : Type 0} → Half A → ℕ
left_of pending = 1
left_of (in_channel r) = 0
left_of taken = 0

abbrev pub goroutines_left : {K : Type 0} → List (Stray K) → ℕ
goroutines_left [] = 0
goroutines_left ((frame, x) ∷ strays) =
    left_of x.sender + left_of x.receiver + goroutines_left strays

-- A call that has returned is at neither the select nor its return.
returned_once :
    {A : Type 0} (o : Option (Result Error PeerInfo)) (e : Error) → o ≡ some (err e) → o ≡ none → A
returned_once o e h k = absurd (clash (sym h ∙ k))
  where
    clash : ◌≡◌ {A = Option (Result Error PeerInfo)} (some (err e)) none → ⊥
    clash c = cc

module _ {Scalar Point S K : Type 0} (env : Environment Scalar Point S K)
    (cfg : ResponderConfig) where
  -- Only one of the two goroutines can take a step, and it has none left then.
  pub stray_step :
      (frame : List ℕ) (x y : Exchange K)
      → IdentityExchange.Step env.cipher env.codec frame x y
      → IsGivenUp (frame, x)
      → IsGivenUp (frame, y)
        × (left_of y.sender + left_of y.receiver < left_of x.sender + left_of x.receiver)
  stray_step frame x y (send h) (e, o) = ((e, o), rw h (omega arith))
  stray_step frame x y (receive h) (e, o) = ((e, o), rw h (omega arith))
  stray_step frame x y (select_done (h, w) d) (e, o) = returned_once x.outcome e o h
  stray_step frame x y (select_sent (h, w) d) (e, o) = returned_once x.outcome e o h
  stray_step frame x y (select_send_failed f (h, w) d) (e, o) = returned_once x.outcome e o h
  stray_step frame x y (select_received info (h, w) d) (e, o) = returned_once x.outcome e o h
  stray_step frame x y (select_receive_failed f (h, w) d) (e, o) = returned_once x.outcome e o h
  stray_step frame x y (finish info h d r) (e, o) = returned_once x.outcome e o h

  pub Move-IsGivenUp :
      (events new : List Event) (left : List (Stray K)) (task : Task K) (after : Option (Task K))
      → Move env cfg events task new left after
      → All IsGivenUp left
  Move-IsGivenUp events new left task after deadline_refused = tt
  Move-IsGivenUp events new left task after (handshake_failed conn' ctx e made) = tt
  Move-IsGivenUp events new left task after (handshake_done conn' ctx e) = tt
  Move-IsGivenUp events new left task after (frame_refused nonce_keypair updated_at e made) = tt
  Move-IsGivenUp events new left task after (exchange_begun nonce_keypair updated_at made) = tt
  Move-IsGivenUp events new left task after (exchange_step stepped) = tt
  Move-IsGivenUp events new left task after context_ended = tt
  Move-IsGivenUp events new left task after (exchange_failed e h) = ((e, h), tt)
  Move-IsGivenUp events new left task after (exchange_done h) = tt
  Move-IsGivenUp events new left task after deadline_stays = tt
  Move-IsGivenUp events new left task after yamux_refused = tt
  Move-IsGivenUp events new left task after upgraded = tt
  Move-IsGivenUp events new left task after session_ended = tt
  Move-IsGivenUp events new left task after peers_listed = tt
  Move-IsGivenUp events new left task after substream_done = tt

  -- The same for one of many.
  pub strays_step :
      (front back : List (Stray K)) (frame : List ℕ) (x y : Exchange K)
      → IdentityExchange.Step env.cipher env.codec frame x y
      → All IsGivenUp (front ++ ((frame, x) ∷ back))
      → All IsGivenUp (front ++ ((frame, y) ∷ back))
        × (goroutines_left (front ++ ((frame, y) ∷ back))
            < goroutines_left (front ++ ((frame, x) ∷ back)))
  strays_step [] back frame x y stepped (g, gs) =
      let (h, fewer) = stray_step frame x y stepped g in ((h, gs), omega (arith, fewer))
  strays_step ((other, z) ∷ front) back frame x y stepped (g, gs) =
      let (hs, fewer) = strays_step front back frame x y stepped gs in
      ((g, hs), omega (arith, fewer))
