-- ===== src/P2p/IdentityExchange/Verified.antt =====
-- p2p/session.go, p2p/identity.go and p2p/identity_signature.go: what the other end of an exchange gets.
use go_tari_lib.Common.{
  ℕ, ◌%◌, ◌^◌, ◌≤◌, ◌≡◌, refl, sym, ap, ◌∙◌, true, some, List, [], ◌∷◌, ◌++◌, length, arith,
  append-nil,
}
use go_tari_lib.Common.Result.{ok, ok-injective}
use go_tari_lib.Stdlib.Endian.{put_uint16_le}
use go_tari_lib.P2p.Ristretto.{Ristretto, IsGroup, key_pair}
use go_tari_lib.P2p.Rpc.Messages.{Codec, IdentitySignature}
use go_tari_lib.P2p.Frame.{framed}
use go_tari_lib.P2p.Identity.{
  PeerIdentityMsg, PeerInfo, info_of_msg, decode_identity_protocol_frame, decode-encode_identity,
  encode_identity_protocol_frame, identity_frame_encoded, max_identity_protocol_msg_size,
}
use go_tari_lib.P2p.IdentitySignature.{build_our_identity_signature, verify_identity_signature}
use go_tari_lib.P2p.IdentitySignature.Schnorr.{verify-build_identity_signature}
use go_tari_lib.P2p.Session.{Cipher, Session, IsInStep, Fits, send_frame, send_frame_lem}
use go_tari_lib.P2p.IdentityExchange.{
  IdentityOptions, our_message, our_peer_identity_msg_bytes, outgoing_frame,
}
use go_tari_lib.P2p.IdentityExchange.Invariant.{IsReady}

-- The message is marshalled to bytes that fit in a frame and are unmarshalled to the message.
pub record IsWritten (codec : Codec PeerIdentityMsg) (m : PeerIdentityMsg) : Type 0 where
  pub bytes : List ℕ
  pub marshalled : codec.marshal m ≡ some bytes
  pub unmarshalled : codec.unmarshal bytes ≡ some m
  pub short : length bytes ≤ max_identity_protocol_msg_size

encoded-Fits :
    (bytes frame : List ℕ)
    → encode_identity_protocol_frame bytes ≡ ok frame
    → length bytes ≤ max_identity_protocol_msg_size
    → Fits frame
unfolding put_uint16_le
encoded-Fits bytes frame e short = omega (
  arith,
  ap length (
      ok-injective (0 ∷ (put_uint16_le (length bytes % 2 ^ 16) ++ bytes)) frame
        (sym (identity_frame_encoded bytes short) ∙ e)),
)

module _ {Scalar Point : Type 0} (group : Ristretto Scalar Point) (law : IsGroup group)
    (blake2b_512 : List ℕ → List ℕ) (sized : (b : List ℕ) → length (blake2b_512 b) ≡ 64)
    (codec : Codec PeerIdentityMsg) where
  -- What goes out, and what it decodes to.
  record IsSigned (k r : Scalar) (updated_at : ℕ) (opts : IdentityOptions) : Type 0 where
    frame : List ℕ
    info : PeerInfo
    built :
        outgoing_frame group blake2b_512 codec (key_pair group k) (key_pair group r) updated_at opts
        ≡ ok frame
    frame_fits : Fits frame
    decoded : decode_identity_protocol_frame codec frame ≡ ok info
    same_features : info.features ≡ opts.features
    same_addresses : info.addresses ≡ opts.addresses
    verified :
        verify_identity_signature group blake2b_512
          (key_pair group k).public_key
          info.features
          info.addresses
          info.identity_signature
        ≡ ok true

  signed :
      (k r : Scalar) (updated_at : ℕ) (opts : IdentityOptions)
      → ((sig : IdentitySignature)
          → build_our_identity_signature group blake2b_512
              (key_pair group k)
              (key_pair group r)
              updated_at
              opts.features
              opts.addresses
            ≡ ok sig
          → IsWritten codec (our_message opts.features opts.addresses sig))
      → IsSigned k r updated_at opts
  unfolding outgoing_frame our_peer_identity_msg_bytes
  signed k r updated_at opts written =
      let (sig, built, verified) =
        verify-build_identity_signature group law blake2b_512 sized k r updated_at opts.features
          opts.addresses in
      let form = written sig built in
      let (frame, encoded, decoded) =
        decode-encode_identity codec (our_message opts.features opts.addresses sig) form.bytes []
          form.unmarshalled form.short in
      record {
        frame = frame;
        info = info_of_msg (our_message opts.features opts.addresses sig);
        built = rw built (rw form.marshalled encoded);
        frame_fits = encoded-Fits form.bytes frame encoded form.short;
        decoded = ap (decode_identity_protocol_frame codec) (sym (append-nil frame)) ∙ decoded;
        same_features = refl;
        same_addresses = refl;
        verified = verified;
      }

module _ {Scalar Point K : Type 0} (group : Ristretto Scalar Point) (law : IsGroup group)
    (blake2b_512 : List ℕ → List ℕ) (sized : (b : List ℕ) → length (blake2b_512 b) ≡ 64)
    (codec : Codec PeerIdentityMsg) (cipher : Cipher K) (Paired : K → K → Type 0)
    (steps : IsInStep cipher Paired) where
  -- Given the laws of the group, a hash of 64 bytes, ciphers in step, and our message, with the signature that is
  -- built for it, in a form of up to 1024 bytes that is read back: our frame is built and sent over a connection that can be written to; the
  -- other end, which has something of its own to send that fits, has all it needs for its exchange, on what
  -- was sent with anything behind it; what it gets are our features and addresses, and the signature with
  -- them verifies against our public key.
  pub exchange_identity-IsReady :
      (k r : Scalar) (updated_at : ℕ) (opts : IdentityOptions) (a b : Session K)
      (rest theirs : List ℕ)
      → ((sig : IdentitySignature)
          → build_our_identity_signature group blake2b_512
              (key_pair group k)
              (key_pair group r)
              updated_at
              opts.features
              opts.addresses
            ≡ ok sig
          → IsWritten codec (our_message opts.features opts.addresses sig))
      → Paired a.tx b.rx
      → Paired b.tx a.rx
      → a.conn.writable ≡ true
      → b.conn.writable ≡ true
      → Fits theirs
      → (frame : List ℕ) × (wire : List ℕ) × (info : PeerInfo) × (outgoing_frame group blake2b_512
            codec
            (key_pair group k)
            (key_pair group r)
            updated_at
            opts
          ≡ ok frame)
        × ((send_frame cipher frame a).0 ≡ ok tt)
        × ((send_frame cipher frame a).1.conn.outgoing ≡ a.conn.outgoing ++ wire)
        × IsReady cipher codec theirs
            (record b { conn = record b.conn { incoming = wire ++ rest } })
            info
        × (info.features ≡ opts.features)
        × (info.addresses ≡ opts.addresses)
        × (verify_identity_signature group blake2b_512
              (key_pair group k).public_key
              info.features
              info.addresses
              info.identity_signature
            ≡ ok true)
  exchange_identity-IsReady k r updated_at opts a b rest theirs written p q w w' fits =
      let ours = signed group law blake2b_512 sized codec k r updated_at opts written in
      let (c, tx', rx', encrypts, decrypts, short, _) =
        steps.in_step a.tx b.rx ours.frame p ours.frame_fits in
      let (d, tx1, _, encrypts', _, short', _) = steps.in_step b.tx a.rx theirs q fits in
      let sent = send_frame_lem cipher a ours.frame c tx' w encrypts short in
      (
        ours.frame,
        framed c,
        ours.info,
        ours.built,
        ap (λ s. s.0) sent,
        ap (λ s. s.1.conn.outgoing) sent,
        record {
          ciphertext = d;
          tx' = tx1;
          encrypts = encrypts';
          fits = short';
          writable = w';
          arriving = c;
          rest = rest;
          plaintext = ours.frame;
          rx' = rx';
          arrives = refl;
          arriving_fits = short;
          decrypts = decrypts;
          decodes = ours.decoded;
        },
        ours.same_features,
        ours.same_addresses,
        ours.verified,
      )
