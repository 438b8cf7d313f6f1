-- ===== src/P2p/Tests/Exchange.antt =====
-- Concrete runs of the identity exchange, with stand-ins for protobuf, the ciphers and the group.
use mathlib.Core.Path.{subst}
use go_tari_lib.Common.{ℕ, ◌≡◌, ◌≤◌, ◌⊎◌, refl, true, false, some, List, [], ◌∷◌, ◌++◌, arith}
use go_tari_lib.Common.Result.{ok, ok-injective}
use go_tari_lib.P2p.Ristretto.{key_pair}
use go_tari_lib.P2p.Rpc.Messages.{Codec, IdentitySignature}
use go_tari_lib.P2p.Identity.{PeerIdentityMsg, PeerInfo}
use go_tari_lib.P2p.IdentitySignature.{build_our_identity_signature, verify_identity_signature}
use go_tari_lib.P2p.Session.{Session, send_frame}
use go_tari_lib.P2p.IdentityExchange.{
  Exchange, begun, here as at_start, step, send, after_send, IdentityOptions, our_message,
  outgoing_frame,
}
use go_tari_lib.P2p.IdentityExchange.Invariant.{IsReady, IsOutcome}
use go_tari_lib.P2p.IdentityExchange.Outcome.{GoesOn, Returned, exchange_identity_outcome}
use go_tari_lib.P2p.IdentityExchange.Verified.{IsWritten, exchange_identity-IsReady}
use go_tari_lib.P2p.Tests.Session.{
  bits, bits-IsGroup, zeros, counter, Same, counter-IsInStep, here, there,
}

abbrev options : IdentityOptions
options = record { features = 3; addresses = (4 ∷ []) ∷ [] }

-- The signature of the key true with the nonce false, whose challenge is the scalar true.
abbrev pub our_signature : IdentitySignature
our_signature = record {
  version = 0;
  signature = bits.scalar_bytes true;
  public_nonce = bits.point_bytes false;
  updated_at = 77;
}

-- A codec that knows one message.
abbrev pub one_message : Codec PeerIdentityMsg
one_message = record {
  marshal = λ m. some (5 ∷ 6 ∷ []);
  unmarshal = λ b. some (our_message 3 ((4 ∷ []) ∷ []) our_signature);
}

message-IsWritten :
    (sig : IdentitySignature)
    → build_our_identity_signature bits zeros
        (key_pair bits true)
        (key_pair bits false)
        77
        3
        ((4 ∷ []) ∷ [])
      ≡ ok sig
    → IsWritten one_message (our_message 3 ((4 ∷ []) ∷ []) sig)
unfolding build_our_identity_signature
message-IsWritten sig h =
    subst (λ g. IsWritten one_message (our_message 3 ((4 ∷ []) ∷ []) g))
      (ok-injective our_signature sig h)
      (record { bytes = 5 ∷ 6 ∷ []; marshalled = refl; unmarshalled = refl; short = omega arith })

exchange_identity-IsReady_example :
    (frame : List ℕ) × (wire : List ℕ) × (info : PeerInfo) × (outgoing_frame bits zeros one_message
        (key_pair bits true)
        (key_pair bits false)
        77
        options
      ≡ ok frame)
    × ((send_frame counter frame here).0 ≡ ok tt)
    × ((send_frame counter frame here).1.conn.outgoing ≡ here.conn.outgoing ++ wire)
    × IsReady counter one_message
        (9 ∷ [])
        (record there { conn = record there.conn { incoming = wire ++ (8 ∷ []) } })
        info
    × (info.features ≡ options.features)
    × (info.addresses ≡ options.addresses)
    × (verify_identity_signature bits zeros
          (key_pair bits true).public_key
          info.features
          info.addresses
          info.identity_signature
        ≡ ok true)
exchange_identity-IsReady_example =
    exchange_identity-IsReady bits bits-IsGroup zeros (λ b. refl) one_message counter Same
      counter-IsInStep true false 77 options here there (8 ∷ []) (9 ∷ []) message-IsWritten refl
      refl refl refl (omega arith)

abbrev delivered :
    (frame : List ℕ) × (wire : List ℕ) × (info : PeerInfo) × (outgoing_frame bits zeros one_message
        (key_pair bits true)
        (key_pair bits false)
        77
        options
      ≡ ok frame)
    × ((send_frame counter frame here).0 ≡ ok tt)
    × ((send_frame counter frame here).1.conn.outgoing ≡ here.conn.outgoing ++ wire)
    × IsReady counter one_message
        (9 ∷ [])
        (record there { conn = record there.conn { incoming = wire ++ (8 ∷ []) } })
        info
    × (info.features ≡ options.features)
    × (info.addresses ≡ options.addresses)
    × (verify_identity_signature bits zeros
          (key_pair bits true).public_key
          info.features
          info.addresses
          info.identity_signature
        ≡ ok true)
delivered =
    exchange_identity-IsReady bits bits-IsGroup zeros (λ b. refl) one_message counter Same
      counter-IsInStep true false 77 options here there (8 ∷ []) (9 ∷ []) message-IsWritten refl
      refl refl refl (omega arith)

abbrev their_info : PeerInfo
their_info = delivered.2

abbrev receiving_end : Session ℕ
receiving_end = record there { conn = record there.conn { incoming = delivered.1 ++ (8 ∷ []) } }

abbrev frame_sent : Exchange ℕ
frame_sent = after_send counter one_message (9 ∷ []) (begun receiving_end)

exchange_identity_outcome_example :
    (1 ≤ 5)
    × IsOutcome receiving_end their_info frame_sent.outcome frame_sent.expired
    × (GoesOn counter one_message (9 ∷ []) receiving_end their_info frame_sent
        ⊎ Returned counter one_message (9 ∷ []) receiving_end their_info frame_sent)
exchange_identity_outcome_example =
    exchange_identity_outcome counter one_message (9 ∷ []) receiving_end their_info delivered.6 1
      frame_sent (step at_start (send refl))
