-- ===== src/P2p/Rpc/Negotiation/Agreement.antt =====
-- p2p/rpc/negotiation.go over p2p/rpc/streamtransport.go: what the two sides make of each other.
use mathlib.Core.List.{Memᴰ}
use go_tari_lib.Common.{
  ℕ, ◌≤◌, ◌≡◌, refl, sym, ap, ◌∙◌, Bool, true, false, not, ◌||◌, List, [], ◌∷◌, ◌++◌, arith, ◌==◌,
  ◌%◌, bit_and, if◌then◌else◌, length,
}
use go_tari_lib.Common.Result.{Result, ok, err}
use go_tari_lib.Common.Action.{◌>>=◌, ◌>>◌, pure, give, raise}
use go_tari_lib.P2p.Rpc.Errors.{Error, protocol_not_supported, protocol_terminated}
use go_tari_lib.P2p.Rpc.NegotiationFrame.{
  encode_negotiation_frame, decode-encode_negotiation, negotiation_flag_none,
  negotiation_flag_terminate, negotiation_flag_not_supported,
}
use go_tari_lib.P2p.Rpc.StreamTransport.{
  StreamTransport, new_stream_transport, stream_transport, stream_send_frame,
}
use go_tari_lib.P2p.Rpc.StreamTransport.Frames.{stream_send, stream_receive_negotiation}
use go_tari_lib.P2p.Rpc.Negotiation.{
  negotiate_protocol, negotiate_protocol_inbound, supports, bytes_equal, bytes_equal_iff,
}

-- What `NegotiateProtocol` makes of the flags and the id of a reply.
abbrev pub verdict : List ℕ → ℕ → List ℕ → Result Error (Unit {0})
verdict protocol_id flags echoed =
    if not (bit_and flags negotiation_flag_terminate == 0)
    then err protocol_terminated
    else if not (bit_and flags negotiation_flag_not_supported == 0)
        || not (bytes_equal echoed protocol_id)
    then err protocol_not_supported
    else ok tt

judged :
    (a b c : Bool) (s : StreamTransport)
    → (if not a
          then raise protocol_terminated
          else if not b
          then raise protocol_not_supported
          else if not c
          then raise protocol_not_supported
          else pure tt)
        s
      ≡ (
        if not a
            then err protocol_terminated
            else if not b || not c
            then err protocol_not_supported
            else ok tt,
        s,
      )
judged false b c s = refl
judged true false c s = refl
judged true true false s = refl
judged true true true s = refl

-- What `NegotiateProtocolInbound` answers to a request for `id`.
abbrev pub answer : Bool → List ℕ → List ℕ
answer true id = (length id % 256) ∷ negotiation_flag_none ∷ id
answer false id = 0 ∷ negotiation_flag_not_supported ∷ []

granted : (id : List ℕ) → verdict id 0 id ≡ ok tt
granted id = rw ((bytes_equal_iff id id).1 refl) refl

refuses : encode_negotiation_frame negotiation_flag_not_supported [] ≡ ok (answer false [])
unfolding encode_negotiation_frame
refuses = ground arith

accepts :
    (flags : ℕ) (id request : List ℕ)
    → encode_negotiation_frame flags id ≡ ok request
    → encode_negotiation_frame negotiation_flag_none id ≡ ok (answer true id)
unfolding encode_negotiation_frame
accepts flags id request h = ground arith

module _ (t : StreamTransport) (w : t.writable ≡ true) (c : t.canonical ≡ false) where
  -- The client sends one frame and judges one frame.
  pub negotiate_protocol_lem :
      (id request reply : List ℕ) (flags : ℕ) (echoed rest : List ℕ)
      → encode_negotiation_frame negotiation_flag_none id ≡ ok request
      → encode_negotiation_frame flags echoed ≡ ok reply
      → negotiate_protocol stream_transport id (record t { incoming = reply ++ rest })
        ≡ (verdict id flags echoed, record t { incoming = rest; outgoing = t.outgoing ++ request })
  unfolding negotiate_protocol
  negotiate_protocol_lem id request reply flags echoed rest h k = rw h (
      rw (stream_send (record t { incoming = reply ++ rest }) request w) (
        rw
          (stream_receive_negotiation (record t { outgoing = t.outgoing ++ request }) flags echoed
            reply rest k c)
          (rw (decode-encode_negotiation flags echoed reply k) (
            judged (bit_and flags negotiation_flag_terminate == 0)
              (bit_and flags negotiation_flag_not_supported == 0) (bytes_equal echoed id)
              (record t { incoming = rest; outgoing = t.outgoing ++ request })))))

  -- The server receives one frame and answers it with one.
  pub negotiate_protocol_inbound_lem :
      (supported : List (List ℕ)) (flags : ℕ) (id request rest : List ℕ)
      → encode_negotiation_frame flags id ≡ ok request
      → negotiate_protocol_inbound stream_transport supported
          (record t { incoming = request ++ rest })
        ≡ (
          if supports supported id then ok id else err protocol_not_supported,
          record t { incoming = rest; outgoing = t.outgoing ++ answer (supports supported id) id },
        )
  unfolding negotiate_protocol_inbound
  negotiate_protocol_inbound_lem supported flags id request rest k =
      rw (stream_receive_negotiation t flags id request rest k c) (
        rw (decode-encode_negotiation flags id request k)
          (elim (supports supported id) as answered [
            | true ↦
                rw (accepts flags id request k)
                  (rw (stream_send (record t { incoming = rest }) (answer true id) w) refl)
            | false ↦
                rw refuses
                  (rw (stream_send (record t { incoming = rest }) (answer false id) w) refl)
          ]))
    where
      answered : Bool → Type 0
      answered b =
          (if not b
              then (give (encode_negotiation_frame negotiation_flag_not_supported [])
                  >>= λ out_frame. stream_send_frame out_frame >> raise protocol_not_supported)
              else (give (encode_negotiation_frame negotiation_flag_none id) >>= λ out_frame.
                  stream_send_frame out_frame >> pure id))
            (record t { incoming = rest })
          ≡ (
            if b then ok id else err protocol_not_supported,
            record t { incoming = rest; outgoing = t.outgoing ++ answer b id },
          )

pub encodes :
    (id : List ℕ)
    → length id ≤ 255
    → encode_negotiation_frame negotiation_flag_none id ≡ ok (answer true id)
unfolding encode_negotiation_frame
encodes id h = ground arith

-- The client's part, after either answer.
pub hears :
    (b : Bool) (id more : List ℕ)
    → length id ≤ 255
    → negotiate_protocol stream_transport id (new_stream_transport (answer b id ++ more)) ≡ (
      if b then ok tt else err protocol_not_supported,
      record (new_stream_transport more) { outgoing = answer true id },
    )
hears true id more h =
    negotiate_protocol_lem (new_stream_transport []) refl refl id (answer true id) (answer true id)
      0 id more (encodes id h) (encodes id h)
    ∙ ap (λ r. (r, record (new_stream_transport more) { outgoing = answer true id })) (granted id)
hears false id more h =
    negotiate_protocol_lem (new_stream_transport []) refl refl id (answer true id) (answer false id)
      4 [] more (encodes id h) refuses

-- The loop over the supported protocols finds an id that stands among them, and no other.
supports-Memᴰ :
    (supported : List (List ℕ)) (id : List ℕ) → supports supported id ≡ true → Memᴰ id supported
supports-Memᴰ [] id h = cc
supports-Memᴰ (p ∷ ps) id h = by_test (bytes_equal p id) refl h (supports-Memᴰ ps id)
  where
    by_test :
        (b : Bool)
        → bytes_equal p id ≡ b
        → (if b then true else supports ps id) ≡ true
        → (supports ps id ≡ true → Memᴰ id ps)
        → Memᴰ id (p ∷ ps)
    by_test true e k more = Memᴰ.head (sym ((bytes_equal_iff p id).0 e))
    by_test false e k more = Memᴰ.tail (more k)

Memᴰ-supports :
    (supported : List (List ℕ)) (id : List ℕ) → Memᴰ id supported → supports supported id ≡ true
Memᴰ-supports [] id m = elim m [ ]
Memᴰ-supports (p ∷ ps) id (Memᴰ.head e) = rw ((bytes_equal_iff p id).1 (sym e)) refl
Memᴰ-supports (p ∷ ps) id (Memᴰ.tail m) = by_test (bytes_equal p id) (Memᴰ-supports ps id m)
  where
    by_test : (b : Bool) → supports ps id ≡ true → (if b then true else supports ps id) ≡ true
    by_test true h = refl
    by_test false h = h

-- Both sides agreed on a protocol that stands among the supported ones, or both failed over one that does not.
pub data Outcome (supported : List (List ℕ)) (id : List ℕ)
    : Result Error (List ℕ) → Result Error (Unit {0}) → Type 0 where
  agreed : Memᴰ id supported → Outcome supported id (ok id) (ok tt)
  refused :
      ¬ Memᴰ id supported
      → Outcome supported id (err protocol_not_supported) (err protocol_not_supported)

supports-Outcome :
    (supported : List (List ℕ)) (id : List ℕ) (b : Bool)
    → supports supported id ≡ b
    → Outcome supported id
        (if b then ok id else err protocol_not_supported)
        (if b then ok tt else err protocol_not_supported)
supports-Outcome supported id true e = agreed (supports-Memᴰ supported id e)
supports-Outcome supported id false e =
    refused (λ m. clash (sym (Memᴰ-supports supported id m) ∙ e))
  where
    clash : true ≡ false → ⊥
    clash k = cc

-- For an id of up to 255 bytes: a client asks a server for a protocol, each over a fresh stream
-- that carries what the other wrote and perhaps more. Both succeed, the server with the client's
-- protocol, when it stands among those that the server supports; when it does not, both fail, since the
-- protocol is not supported. Either way the server has read the client's frame and no more, and the client
-- the server's.
pub negotiation_agreement :
    (supported : List (List ℕ)) (id rest more : List ℕ)
    → length id ≤ 255
    → let request = (length id % 256) ∷ 0 ∷ id in
      let (served, server) =
        negotiate_protocol_inbound stream_transport supported
          (new_stream_transport (request ++ rest)) in
      let (asked, client) =
        negotiate_protocol stream_transport id (new_stream_transport (server.outgoing ++ more)) in
      (client.outgoing ≡ request)
      × (server.incoming ≡ rest)
      × (client.incoming ≡ more)
      × Outcome supported id served asked
negotiation_agreement supported id rest more h =
    rw
      (negotiate_protocol_inbound_lem (new_stream_transport []) refl refl supported 0 id
        (answer true id) rest (encodes id h))
      (rw (hears (supports supported id) id more h)
        (refl, refl, refl, supports-Outcome supported id (supports supported id) refl))
