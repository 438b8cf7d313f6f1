-- ===== src/P2p/Rpc/StreamTransport/Frames.antt =====
-- p2p/rpc/streamtransport.go: frames come off the stream the way they were put on it.
use go_tari_lib.Common.{
  ℕ, zero, suc, ◌%◌, ◌^◌, ◌<◌, ◌≡◌, not, refl, ap, ◌∙◌, sym, true, false, List, [], ◌∷◌, ◌++◌,
  arith, ◌==◌, if◌then◌else◌, length, All, take-append, drop-append, append-nil, append_assoc,
  get_or, length-append,
}
use go_tari_lib.Common.Result.{ok, err}
use go_tari_lib.Common.Action.{Action, ◌>>=◌, ◌>>◌, pure, give, bind-ok}
use go_tari_lib.Stdlib.Endian.{put_uint32_be, uint32_be}
use go_tari_lib.P2p.Rpc.Errors.{Error, write_failed}
use go_tari_lib.P2p.Rpc.CanonicalFrame.{
  encode_canonical_frame, decode_canonical_frame, decode-encode_canonical,
}
use go_tari_lib.P2p.Rpc.NegotiationFrame.{encode_negotiation_frame}
use go_tari_lib.P2p.Rpc.StreamTransport.{
  StreamTransport, read_full, receive_negotiation_frame, receive_canonical_frame,
  stream_receive_frame, stream_send_frame,
}

-- What the two receiving functions have in common: a header that says how many bytes follow it.
abbrev follow : List ℕ → ℕ → Action StreamTransport Error (List ℕ)
follow header n = if n == 0 then pure header else (read_full n >>= λ body. pure (header ++ body))

abbrev delimited : ℕ → (List ℕ → ℕ) → Action StreamTransport Error (List ℕ)
delimited size len_of = read_full size >>= λ header. follow header (len_of header)

pub read_full-append :
    (t : StreamTransport) (rest xs : List ℕ) (n : ℕ)
    → length xs ≡ n
    → read_full n (record t { incoming = xs ++ rest }) ≡ (ok xs, record t { incoming = rest })
unfolding read_full
read_full-append t rest xs n h =
    ground (arith, length-append xs rest, take-append xs rest n h, drop-append xs rest n h)

module _ (t : StreamTransport) (rest : List ℕ) where
  abbrev before : List ℕ → StreamTransport
  before xs = record t { incoming = xs ++ rest }

  follow_lem :
      (header body : List ℕ) (n : ℕ)
      → n ≡ length body
      → follow header n (before body) ≡ (ok (header ++ body), record t { incoming = rest })
  follow_lem header [] n h = ground (arith, append-nil header)
  follow_lem header (x ∷ xs) n h =
      ap (λ c. (if c then pure header else more) (before (x ∷ xs))) positive
      ∙ bind-ok (read_full n) (λ body. pure (header ++ body)) (before (x ∷ xs))
          (read_full-append t rest (x ∷ xs) n (sym h))
    where
      positive : (n == 0) ≡ false
      positive = ground arith

      more : Action StreamTransport Error (List ℕ)
      more = read_full n >>= λ body. pure (header ++ body)

  delimited_lem :
      (size : ℕ) (len_of : List ℕ → ℕ) (header body : List ℕ)
      → length header ≡ size
      → len_of header ≡ length body
      → delimited size len_of (before (header ++ body))
        ≡ (ok (header ++ body), record t { incoming = rest })
  delimited_lem size len_of header body h k =
      ap (λ l. delimited size len_of (record t { incoming = l })) (append_assoc header body rest)
      ∙ bind-ok (read_full size) (λ found. follow found (len_of found))
          (record t { incoming = header ++ (body ++ rest) })
          (read_full-append t (body ++ rest) header size h)
      ∙ follow_lem header body (len_of header) k

  pub receive_canonical_lem :
      (payload : List ℕ)
      → length payload < 2 ^ 32
      → receive_canonical_frame (record t { incoming = encode_canonical_frame payload ++ rest })
        ≡ (ok (encode_canonical_frame payload), record t { incoming = rest })
  unfolding receive_canonical_frame encode_canonical_frame put_uint32_be uint32_be
  receive_canonical_lem payload h =
      delimited_lem 4 uint32_be (put_uint32_be (length payload % 2 ^ 32)) payload (ground arith)
        (ground arith)

  pub receive_negotiation_lem :
      (flags : ℕ) (id frame : List ℕ)
      → encode_negotiation_frame flags id ≡ ok frame
      → receive_negotiation_frame (record t { incoming = frame ++ rest })
        ≡ (ok frame, record t { incoming = rest })
  unfolding receive_negotiation_frame encode_negotiation_frame
  receive_negotiation_lem flags id [] h = absurd (ground arith)
  receive_negotiation_lem flags id (n ∷ []) h = absurd (ground arith)
  receive_negotiation_lem flags id (n ∷ f ∷ body) h =
      delimited_lem 2 (λ header. get_or header 0 0) (n ∷ f ∷ []) body refl (ground arith)

module _ (t : StreamTransport) where
  pub stream_send :
      (payload : List ℕ)
      → t.writable ≡ true
      → stream_send_frame payload t ≡ (ok tt, record t { outgoing = t.outgoing ++ payload })
  unfolding stream_send_frame
  stream_send payload h =
      ap
        (λ w.
          if not w
          then (err write_failed, t)
          else (ok tt, record t { outgoing = t.outgoing ++ payload }))
        h

  pub stream_receive_canonical :
      (payload rest : List ℕ)
      → length payload < 2 ^ 32
      → t.canonical ≡ true
      → stream_receive_frame (record t { incoming = encode_canonical_frame payload ++ rest })
        ≡ (ok (encode_canonical_frame payload), record t { incoming = rest })
  unfolding stream_receive_frame
  stream_receive_canonical payload rest h k =
      ap (λ c. if c then receive_canonical_frame before else receive_negotiation_frame before) k
      ∙ receive_canonical_lem t rest payload h
    where
      before : StreamTransport
      before = record t { incoming = encode_canonical_frame payload ++ rest }

  pub stream_receive_negotiation :
      (flags : ℕ) (id frame rest : List ℕ)
      → encode_negotiation_frame flags id ≡ ok frame
      → t.canonical ≡ false
      → stream_receive_frame (record t { incoming = frame ++ rest })
        ≡ (ok frame, record t { incoming = rest })
  unfolding stream_receive_frame
  stream_receive_negotiation flags id frame rest h k =
      ap (λ c. if c then receive_canonical_frame before else receive_negotiation_frame before) k
      ∙ receive_negotiation_lem t rest flags id frame h
    where
      before : StreamTransport
      before = record t { incoming = frame ++ rest }

-- One end sends each payload in a canonical frame; the other receives frames and takes the payloads out.
abbrev pub send_payloads : List (List ℕ) → Action StreamTransport Error Unit
send_payloads [] = pure tt
send_payloads (p ∷ ps) = stream_send_frame (encode_canonical_frame p) >> send_payloads ps

abbrev pub receive_payloads : ℕ → Action StreamTransport Error (List (List ℕ))
receive_payloads zero = pure []
receive_payloads (suc n) = do
  frame ← stream_receive_frame
  payload ← give (decode_canonical_frame frame)
  payloads ← receive_payloads n
  pure (payload ∷ payloads)

abbrev pub Short : List ℕ → Type 0
Short payload = length payload < 2 ^ 32

abbrev pub wire : List (List ℕ) → List ℕ
wire [] = []
wire (p ∷ ps) = encode_canonical_frame p ++ wire ps

send_payloads_lem :
    (t : StreamTransport) (ps : List (List ℕ))
    → t.writable ≡ true
    → send_payloads ps t ≡ (ok tt, record t { outgoing = t.outgoing ++ wire ps })
send_payloads_lem t [] h =
    ap (λ o. (ok tt, record t { outgoing = o })) (sym (append-nil t.outgoing))
send_payloads_lem t (p ∷ ps) h =
    bind-ok (stream_send_frame (encode_canonical_frame p)) (λ _. send_payloads ps) t
      (stream_send t (encode_canonical_frame p) h)
    ∙ send_payloads_lem (record t { outgoing = t.outgoing ++ encode_canonical_frame p }) ps h
    ∙ ap (λ o. (ok tt, record t { outgoing = o }))
        (append_assoc t.outgoing (encode_canonical_frame p) (wire ps))

receive_payloads_lem :
    (t : StreamTransport) (ps : List (List ℕ)) (rest : List ℕ)
    → All Short ps
    → t.canonical ≡ true
    → receive_payloads (length ps) (record t { incoming = wire ps ++ rest })
      ≡ (ok ps, record t { incoming = rest })
receive_payloads_lem t [] rest h k = refl
receive_payloads_lem t (p ∷ ps) rest (s, h) k =
    ap (λ i. receive_payloads (suc (length ps)) (record t { incoming = i }))
      (append_assoc (encode_canonical_frame p) (wire ps) rest)
    ∙ bind-ok stream_receive_frame decode_then
        (record t { incoming = encode_canonical_frame p ++ (wire ps ++ rest) })
        (stream_receive_canonical t p (wire ps ++ rest) s k)
    ∙ bind-ok (give (decode_canonical_frame (encode_canonical_frame p))) go_on after
        (ap (λ r. (r, after)) (decode-encode_canonical p s))
    ∙ bind-ok (receive_payloads (length ps)) (λ payloads. pure (p ∷ payloads)) after
        (receive_payloads_lem t ps rest h k)
  where
    go_on : List ℕ → Action StreamTransport Error (List (List ℕ))
    go_on payload = do payloads ← receive_payloads (length ps); pure (payload ∷ payloads)

    decode_then : List ℕ → Action StreamTransport Error (List (List ℕ))
    decode_then frame = give (decode_canonical_frame frame) >>= go_on

    after : StreamTransport
    after = record t { incoming = wire ps ++ rest }

-- Payloads shorter than 2^32 bytes, sent by one end over a stream that can be written to and has
-- nothing written yet, and received by an end on which canonical framing has begun: all are sent,
-- and the other end reads the same sequence of payloads and leaves the bytes behind it on the
-- stream.
pub receive_payloads-send_payloads :
    (t u : StreamTransport) (ps : List (List ℕ)) (rest : List ℕ)
    → All Short ps
    → t.writable ≡ true
    → t.outgoing ≡ []
    → u.canonical ≡ true
    → let (sent, t') = send_payloads ps t in
      (sent ≡ ok tt)
      × (receive_payloads (length ps) (record u { incoming = t'.outgoing ++ rest })
          ≡ (ok ps, record u { incoming = rest }))
receive_payloads-send_payloads t u ps rest h w e c = (
  ap (λ p. p.0) (send_payloads_lem t ps w),
  ap (λ o. receive_payloads (length ps) (record u { incoming = o ++ rest })) written
      ∙ receive_payloads_lem u ps rest h c,
)
  where
    written : (send_payloads ps t).1.outgoing ≡ wire ps
    written = ap (λ p. p.1.outgoing) (send_payloads_lem t ps w) ∙ ap (λ o. o ++ wire ps) e
