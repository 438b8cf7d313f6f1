-- ===== src/P2p/IdentityExchange/Outcome.antt =====
-- p2p/session.go: an identity exchange ends, and how.
use mathlib.Core.Path.{subst}
use go_tari_lib.Common.{
  ℕ, ◌+◌, ◌≤◌, ◌<◌, ◌≡◌, ◌⊎◌, inl, inr, refl, ap, ◌∙◌, true, Option, some, none, List, arith,
}
use go_tari_lib.Common.Result.{Result, ok, err}
use go_tari_lib.P2p.Errors.{Error, context_done}
use go_tari_lib.P2p.Rpc.Messages.{Codec}
use go_tari_lib.P2p.Identity.{PeerIdentityMsg, PeerInfo}
use go_tari_lib.P2p.Session.{Cipher, Session}
use go_tari_lib.P2p.IdentityExchange.{
  Half, pending, in_channel, taken, Exchange, begun, identified, after_send, after_receive, Step,
  send, receive, select_done, select_sent, select_send_failed, select_received,
  select_receive_failed, finish, Reach, here, step, expire,
}
use go_tari_lib.P2p.IdentityExchange.Invariant.{
  IsReady, the_peer, IsSending, IsReceiving, IsOutcome, IsGood, Reach-IsGood,
}

-- The number of steps that are left at most.
abbrev left_of : {A : Type 0} → Half A → ℕ
left_of pending = 2
left_of (in_channel a) = 1
left_of taken = 0

abbrev return_left : Option (Result Error PeerInfo) → ℕ
return_left none = 1
return_left (some r) = 0

abbrev steps_left : {K : Type 0} → Exchange K → ℕ
steps_left x = left_of x.sender + left_of x.receiver + return_left x.outcome

module _ {K : Type 0} (cipher : Cipher K) (codec : Codec PeerIdentityMsg) (frame : List ℕ) where
  steps_left-Step : (x y : Exchange K) → Step cipher codec frame x y → steps_left y < steps_left x
  steps_left-Step x _ (send h) = omega (arith, ap left_of h)
  steps_left-Step x _ (receive h) = omega (arith, ap left_of h)
  steps_left-Step x _ (select_done (o, w) e) = omega (arith, ap return_left o)
  steps_left-Step x _ (select_sent w h) = omega (arith, ap left_of h)
  steps_left-Step x _ (select_send_failed e (o, w) h) =
      omega (arith, ap left_of h, ap return_left o)
  steps_left-Step x _ (select_received i w h) = omega (arith, ap left_of h)
  steps_left-Step x _ (select_receive_failed e (o, w) h) =
      omega (arith, ap left_of h, ap return_left o)
  steps_left-Step x _ (finish i o d r) = omega (arith, ap return_left o)

  Reach-steps :
      (x y : Exchange K) (n : ℕ) → Reach cipher codec frame x n y → n + steps_left y ≤ steps_left x
  Reach-steps x _ _ here = omega arith
  Reach-steps x z _ (step {n} {y} r s) = omega (arith, Reach-steps x y n r, steps_left-Step y z s)
  Reach-steps x _ n (expire {y} r) = Reach-steps x y n r

module _ {K : Type 0} (cipher : Cipher K) (codec : Codec PeerIdentityMsg) (frame : List ℕ)
    (s : Session K) (info : PeerInfo) where
  abbrev pub GoesOn : Exchange K → Type 0
  GoesOn x = (y : Exchange K) × Step cipher codec frame x y

  receiver_on :
      (x : Exchange K) (h : Half (Result Error PeerInfo))
      → x.receiver ≡ h
      → IsReceiving s info h x.recv_result x.session
      → x.outcome ≡ none
      → x.send_done ≡ true
      → GoesOn x
  receiver_on x pending e g o d = (after_receive cipher codec frame x, receive e)
  receiver_on x (in_channel r) e (nothing, fine) o d = (
    record x { receiver = taken; recv_result = some info },
    select_received info (o, inr nothing) (e ∙ ap in_channel fine),
  )
  receiver_on x taken e g o d = (
    record x { outcome = some (ok (identified x.session.peer_static_key info)) },
    finish info o d g,
  )

  sender_on :
      (x : Exchange K) (h : Half (Result Error Unit))
      → x.sender ≡ h
      → IsSending s info h x.send_done x.session
      → IsGood s info x
      → x.outcome ≡ none
      → GoesOn x
  sender_on x pending e g good o = (after_send cipher codec frame x, send e)
  sender_on x (in_channel r) e (not_done, fine) good o = (
    record x { sender = taken; send_done = true },
    select_sent (o, inl not_done) (e ∙ ap in_channel fine),
  )
  sender_on x taken e g good o = receiver_on x x.receiver refl good.receiving o g

  -- The peer's identity, or the context's error and then it is done.
  abbrev pub Returned : Exchange K → Type 0
  Returned x =
      (x.outcome ≡ some (ok (the_peer s.peer_static_key info)))
      ⊎ ((x.outcome ≡ some (err context_done)) × (x.expired ≡ true))

  Returned-outcome :
      (x : Exchange K) (r : Result Error PeerInfo)
      → x.outcome ≡ some r
      → IsOutcome s info (some r) x.expired
      → Returned x
  Returned-outcome x (ok i) e h = inl (e ∙ ap (λ j. some (ok j)) h)
  Returned-outcome x (err f) e (h, k) = inr (e ∙ ap (λ g. some (err g)) h, k)

  going_on :
      (x : Exchange K) (o : Option (Result Error PeerInfo))
      → x.outcome ≡ o
      → IsGood s info x
      → GoesOn x ⊎ Returned x
  going_on x none e good = inl (sender_on x x.sender refl good.sending good e)
  going_on x (some r) e good =
      inr (Returned-outcome x r e (subst (λ o. IsOutcome s info o x.expired) e good.good_outcome))

  -- When our frame can be encrypted and sent and the peer's frame is there, however the two goroutines, the
  -- waiting loop and the end of the context interleave: five steps are taken at most; what is returned, if
  -- anything is, is what the peer says of itself, marked as reachable and with the key of the session, or the context's error and then the
  -- context is done; and another step can be taken unless one of these two is returned.
  pub exchange_identity_outcome :
      IsReady cipher codec frame s info
      → (n : ℕ) (x : Exchange K) → Reach cipher codec frame (begun s) n x
      → (n ≤ 5) × IsOutcome s info x.outcome x.expired × (GoesOn x ⊎ Returned x)
  exchange_identity_outcome ready n x r =
      let good = Reach-IsGood cipher codec frame s info ready n x r in
      (
        omega (arith, Reach-steps cipher codec frame (begun s) x n r),
        good.good_outcome,
        going_on x x.outcome refl good,
      )
