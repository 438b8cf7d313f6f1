-- ===== src/P2p/Rpc/NegotiationFrame.antt =====
-- p2p/rpc/negotiation.go: the frames.
use go_tari_lib.Common.{
  ℕ, ◌%◌, ◌≡◌, ◌↔◌, not, List, [], ◌∷◌, arith, ltb, ◌==◌, if◌then◌else◌, length, drop, get_or, All,
}
use go_tari_lib.Common.Bits.{IsByte}
use go_tari_lib.Common.Result.{Result, ok, err}
use go_tari_lib.P2p.Rpc.Errors.{
  Error, negotiation_frame_too_short, negotiation_frame_length, protocol_id_too_long,
}

abbrev pub negotiation_flag_none : ℕ
negotiation_flag_none = 0x00

abbrev pub negotiation_flag_terminate : ℕ
negotiation_flag_terminate = 0x02

abbrev pub negotiation_flag_not_supported : ℕ
negotiation_flag_not_supported = 0x04

abbrev pub max_protocol_id_len : ℕ
max_protocol_id_len = 255

unfoldable pub encode_negotiation_frame : ℕ → List ℕ → Result Error (List ℕ)
encode_negotiation_frame flags protocol_id =
    if ltb max_protocol_id_len (length protocol_id)
    then err protocol_id_too_long
    else ok ((length protocol_id % 256) ∷ flags ∷ protocol_id)

-- The flags and the protocol id.
unfoldable pub decode_negotiation_frame : List ℕ → Result Error (ℕ × List ℕ)
decode_negotiation_frame frame =
    if ltb (length frame) 2
    then err negotiation_frame_too_short
    else (let len = get_or frame 0 0 in
        let flags = get_or frame 1 0 in
        let rest = drop 2 frame in
        if not (len == length rest) then err negotiation_frame_length else ok (flags, rest))

-- For a slice of bytes, decoding gives flags and an id exactly when encoding these gives the slice.
pub decode_negotiation_frame_iff :
    (frame : List ℕ) (flags : ℕ) (id : List ℕ)
    → All IsByte frame
    → (decode_negotiation_frame frame ≡ ok (flags, id))
      ↔ (encode_negotiation_frame flags id ≡ ok frame)
unfolding decode_negotiation_frame encode_negotiation_frame
decode_negotiation_frame_iff [] flags id h = ground arith
decode_negotiation_frame_iff (x ∷ []) flags id h = ground arith
decode_negotiation_frame_iff (n ∷ f ∷ rest) flags id h = ground arith

pub decode-encode_negotiation :
    (flags : ℕ) (id frame : List ℕ)
    → encode_negotiation_frame flags id ≡ ok frame
    → decode_negotiation_frame frame ≡ ok (flags, id)
unfolding decode_negotiation_frame encode_negotiation_frame
decode-encode_negotiation flags id frame h = ground arith
