-- ===== src/P2p/Identity.antt =====
-- p2p/identity.go: the frames of the identity protocol.
use go_tari_lib.Common.{
  ℕ, ◌+◌, ◌-◌, ◌*◌, ◌%◌, ◌^◌, ◌≤◌, ◌≡◌, ◌↔◌, refl, sym, ap, ◌∙◌, Bool, false, Option, some, List,
  [], ◌∷◌, ◌++◌, arith, ltb, if◌then◌else◌, length, take, drop, get_or, slice, take-append,
  take-append-drop, length-take, length-append, All,
}
use go_tari_lib.Common.Bits.{IsByte}
use go_tari_lib.Common.Result.{Result, ok, err, ◌>>=◌, some_or_fail}
use go_tari_lib.Stdlib.Endian.{put_uint16_le, uint16_le}
use go_tari_lib.P2p.Errors.{
  Error, identity_too_long, identity_frame_too_short, unsupported_identity_version,
  declared_length_too_long, declared_length_beyond_frame, identity_undecodable,
}
use go_tari_lib.P2p.Rpc.Messages.{Codec, IdentitySignature}

abbrev pub identity_protocol_major_version : ℕ
identity_protocol_major_version = 0

abbrev pub max_identity_protocol_msg_size : ℕ
max_identity_protocol_msg_size = 1024

-- `identitypb.PeerIdentityMsg`
pub record PeerIdentityMsg : Type 0 where
  pub addresses : List (List ℕ)
  pub features : ℕ
  pub supported_protocols : List (List ℕ)
  pub user_agent : List ℕ
  pub identity_signature : Option IdentitySignature

-- `PeerInfo`, less the latency, which is the prober's.
pub record PeerInfo : Type 0 where
  pub reachable : Bool
  pub remote_static_pub_key : List ℕ
  pub addresses : List (List ℕ)
  pub features : ℕ
  pub supported_protocols : List (List ℕ)
  pub user_agent : List ℕ
  pub identity_signature : Option IdentitySignature

unfoldable pub encode_identity_protocol_frame : List ℕ → Result Error (List ℕ)
encode_identity_protocol_frame msg_bytes =
    if ltb max_identity_protocol_msg_size (length msg_bytes)
    then err identity_too_long
    else ok
        (identity_protocol_major_version ∷ (put_uint16_le (length msg_bytes % 2 ^ 16) ++ msg_bytes))

abbrev pub info_of_msg : PeerIdentityMsg → PeerInfo
info_of_msg msg = record {
  reachable = false;
  remote_static_pub_key = [];
  addresses = msg.addresses;
  features = msg.features;
  supported_protocols = msg.supported_protocols;
  user_agent = msg.user_agent;
  identity_signature = msg.identity_signature;
}

-- The checks on the frame, up to the bytes that are to be unmarshalled.
unfoldable pub identity_frame_body : List ℕ → Result Error (List ℕ)
identity_frame_body frame =
    if ltb (length frame) 3
    then err identity_frame_too_short
    else if ltb identity_protocol_major_version (get_or frame 0 0)
    then err unsupported_identity_version
    else (let len = uint16_le (slice 1 3 frame) in
        if ltb max_identity_protocol_msg_size len
        then err declared_length_too_long
        else if ltb (length frame - 3) len
        then err declared_length_beyond_frame
        else ok (slice 3 (3 + len) frame))

unfoldable pub decode_identity_protocol_frame :
    Codec PeerIdentityMsg → List ℕ → Result Error PeerInfo
decode_identity_protocol_frame codec frame = do
  body ← identity_frame_body frame
  msg ← some_or_fail (codec.unmarshal body) identity_undecodable
  ok (info_of_msg msg)

-- A frame that passes the checks is an encoding of its body with something behind it.
abbrev HoldsBody : List ℕ → List ℕ → Type 0
HoldsBody frame body =
    (encoded : List ℕ) × (rest : List ℕ) × (encode_identity_protocol_frame body ≡ ok encoded)
    × (frame ≡ encoded ++ rest)

identity_frame_body_sound :
    (frame body : List ℕ)
    → All IsByte frame
    → identity_frame_body frame ≡ ok body
    → HoldsBody frame body
unfolding identity_frame_body encode_identity_protocol_frame put_uint16_le uint16_le
identity_frame_body_sound [] body h e = absurd (ground arith)
identity_frame_body_sound (v ∷ []) body h e = absurd (ground arith)
identity_frame_body_sound (v ∷ a ∷ []) body h e = absurd (ground arith)
identity_frame_body_sound (v ∷ a ∷ b ∷ payload) body h e = (
  v ∷ a ∷ b ∷ take (a + b * 256) payload,
  drop (a + b * 256) payload,
  ground (arith, length-take (a + b * 256) payload),
  ap (λ l. v ∷ a ∷ b ∷ l) (sym (take-append-drop (a + b * 256) payload)),
)

identity_frame_body_complete :
    (body encoded rest : List ℕ)
    → encode_identity_protocol_frame body ≡ ok encoded
    → identity_frame_body (encoded ++ rest) ≡ ok body
unfolding identity_frame_body encode_identity_protocol_frame put_uint16_le uint16_le
identity_frame_body_complete body [] rest e = absurd (ground arith)
identity_frame_body_complete body (v ∷ []) rest e = absurd (ground arith)
identity_frame_body_complete body (v ∷ a ∷ []) rest e = absurd (ground arith)
identity_frame_body_complete body (v ∷ a ∷ b ∷ payload) rest e =
    ground (arith, length-append payload rest, take-append payload rest (a + b * 256))

-- A slice of bytes passes the checks with some body exactly when it is the frame that encoding gives for
-- this body, with anything at all behind it.
pub identity_frame_body_iff :
    (frame body : List ℕ)
    → All IsByte frame
    → (identity_frame_body frame ≡ ok body) ↔ (
        (encoded : List ℕ) × (rest : List ℕ) × (encode_identity_protocol_frame body ≡ ok encoded)
        × (frame ≡ encoded ++ rest))
identity_frame_body_iff frame body h = (
  identity_frame_body_sound frame body h,
  λ (encoded, rest, e, p).
      ap identity_frame_body p ∙ identity_frame_body_complete body encoded rest e,
)

pub identity_frame_encoded :
    (b : List ℕ)
    → length b ≤ 1024
    → encode_identity_protocol_frame b ≡ ok (0 ∷ (put_uint16_le (length b % 2 ^ 16) ++ b))
unfolding encode_identity_protocol_frame
identity_frame_encoded b k = ground arith

-- A message of up to 1024 bytes, framed and sent with anything behind it, is decoded to what it says of the
-- peer, given that the codec reads back what it wrote.
pub decode-encode_identity :
    (codec : Codec PeerIdentityMsg) (msg : PeerIdentityMsg) (bytes rest : List ℕ)
    → codec.unmarshal bytes ≡ some msg
    → length bytes ≤ max_identity_protocol_msg_size
    → (frame : List ℕ) × (encode_identity_protocol_frame bytes ≡ ok frame)
      × (decode_identity_protocol_frame codec (frame ++ rest) ≡ ok (info_of_msg msg))
unfolding decode_identity_protocol_frame
decode-encode_identity codec msg bytes rest u l = (
  frame,
  identity_frame_encoded bytes l,
  rw (identity_frame_body_complete bytes frame rest (identity_frame_encoded bytes l)) (rw u refl),
)
  where
    frame : List ℕ
    frame = 0 ∷ (put_uint16_le (length bytes % 2 ^ 16) ++ bytes)
