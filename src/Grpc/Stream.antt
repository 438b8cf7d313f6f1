-- ===== src/Grpc/Stream.antt =====
-- The streams of a call, and the loop that drains one: walletGRPC/client.go, walletGRPC/wallet.go and
-- nodeGRPC/client.go each write it out where they need it.
use mathlib.Core.Path.{subst}
use go_tari_lib.Common.{
  ◌≡◌, ◌≢◌, refl, sym, ap, ◌∙◌, List, [], ◌∷◌, ◌++◌, map, append-nil, append_assoc,
}
use go_tari_lib.Common.Result.{Result, ok, err}
use go_tari_lib.Grpc.{CallError, eof, no_status, status}

-- What `Recv` gives, call after call: messages, and then an error, the clean end among them.
pub data Stream (M : Type 0) : Type 0 where
  ended : CallError → Stream M
  message : M → Stream M → Stream M

module _ {M : Type 0} where
  abbrev pub messages : Stream M → List M
  messages (ended e) = []
  messages (message m s) = m ∷ messages s

  abbrev pub ending : Stream M → CallError
  ending (ended e) = e
  ending (message m s) = ending s

  -- One call of `Recv`.
  abbrev pub recv : Stream M → Result CallError M
  recv (ended e) = err e
  recv (message m s) = ok m

module _ {A : Type 0} where
  abbrev pub at_end : List A → CallError → Result CallError (List A)
  at_end resp eof = ok resp
  at_end resp (no_status m) = err (no_status m)
  at_end resp (status code m) = err (status code m)

module _ {M A : Type 0} where
  abbrev pub drain_loop : (M → A) → List A → Stream M → Result CallError (List A)
  drain_loop pick resp (ended e) = at_end resp e
  drain_loop pick resp (message m s) = drain_loop pick (resp ++ (pick m ∷ [])) s

  -- `resp := make(…, 0); for { … Recv() … }`
  unfoldable pub drain : (M → A) → Stream M → Result CallError (List A)
  drain pick s = drain_loop pick [] s

  drain_loop_lem :
      (pick : M → A) (resp : List A) (s : Stream M)
      → drain_loop pick resp s ≡ at_end (resp ++ map pick (messages s)) (ending s)
  drain_loop_lem pick resp (ended e) = ap (λ l. at_end l e) (sym (append-nil resp))
  drain_loop_lem pick resp (message m s) =
      drain_loop_lem pick (resp ++ (pick m ∷ [])) s
      ∙ ap (λ l. at_end l (ending s)) (append_assoc resp (pick m ∷ []) (map pick (messages s)))

  -- All the messages in their order when the stream ends cleanly, and else its error and no message.
  pub drain_lem :
      (pick : M → A) (s : Stream M) → drain pick s ≡ at_end (map pick (messages s)) (ending s)
  unfolding drain
  drain_lem pick s = drain_loop_lem pick [] s

-- A stream of these messages that ends with this.
abbrev pub stream_of : {M : Type 0} → List M → CallError → Stream M
stream_of [] e = ended e
stream_of (m ∷ ms) e = message m (stream_of ms e)

-- What is collected from a stream that was opened or not: of all its messages, in their order, what `pick` takes from
-- each, if it came to its clean end; and nothing but the error if it ended with one or was not opened.
pub data Collects {M A : Type 0} (pick : M → A)
    : Result CallError (Stream M) → Result CallError (List A) → Type 0 where
  not_opened : (e : CallError) → Collects pick (err e) (err e)
  complete : (ms : List M) → Collects pick (ok (stream_of ms eof)) (ok (map pick ms))
  broken : (ms : List M) (e : CallError) → e ≢ eof → Collects pick (ok (stream_of ms e)) (err e)

module _ {M A : Type 0} (pick : M → A) where
  stream_of-messages : (s : Stream M) → stream_of (messages s) (ending s) ≡ s
  stream_of-messages (ended e) = refl
  stream_of-messages (message m s) = ap (message m) (stream_of-messages s)

  at_end-Collects :
      (ms : List M) (e : CallError) → Collects pick (ok (stream_of ms e)) (at_end (map pick ms) e)
  at_end-Collects ms eof = complete ms
  at_end-Collects ms (no_status m) = broken ms (no_status m) (λ k. cc)
  at_end-Collects ms (status code m) = broken ms (status code m) (λ k. cc)

  pub drain-Collects : (s : Stream M) → Collects pick (ok s) (drain pick s)
  drain-Collects s =
      subst (λ t. Collects pick (ok t) (drain pick s)) (stream_of-messages s)
        (subst (Collects pick (ok (stream_of (messages s) (ending s)))) (sym (drain_lem pick s))
          (at_end-Collects (messages s) (ending s)))
