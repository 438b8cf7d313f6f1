-- ===== src/P2p/Rpc/CanonicalFrame.antt =====
-- p2p/rpc/canonicalframe.go
use go_tari_lib.Common.{
  ℕ, ◌+◌, ◌%◌, ◌^◌, ◌<◌, ◌≡◌, ◌↔◌, not, List, [], ◌∷◌, ◌++◌, arith, ltb, ◌==◌, if◌then◌else◌,
  length, drop, All,
}
use go_tari_lib.Common.Bits.{IsByte}
use go_tari_lib.Common.Result.{Result, ok, err}
use go_tari_lib.Stdlib.Endian.{put_uint32_be, uint32_be}
use go_tari_lib.P2p.Rpc.Errors.{Error, canonical_frame_too_short, canonical_frame_length}

abbrev pub canonical_frame_len_prefix_size : ℕ
canonical_frame_len_prefix_size = 4

unfoldable pub encode_canonical_frame : List ℕ → List ℕ
encode_canonical_frame payload = put_uint32_be (length payload % 2 ^ 32) ++ payload

unfoldable pub decode_canonical_frame : List ℕ → Result Error (List ℕ)
decode_canonical_frame frame =
    if ltb (length frame) canonical_frame_len_prefix_size
    then err canonical_frame_too_short
    else (let declared_len = uint32_be frame in
        let payload = drop canonical_frame_len_prefix_size frame in
        if not (declared_len == length payload) then err canonical_frame_length else ok payload)

pub length-encode_canonical :
    (payload : List ℕ) → length (encode_canonical_frame payload) ≡ length payload + 4
unfolding encode_canonical_frame put_uint32_be
length-encode_canonical payload = omega arith

pub decode-encode_canonical :
    (payload : List ℕ)
    → length payload < 2 ^ 32
    → decode_canonical_frame (encode_canonical_frame payload) ≡ ok payload
unfolding decode_canonical_frame encode_canonical_frame put_uint32_be uint32_be
decode-encode_canonical payload h = ground arith

-- For a slice of bytes and a payload shorter than 2^32 bytes, decoding the slice gives the payload
-- exactly when encoding the payload gives the slice.
pub decode_canonical_frame_iff :
    (frame payload : List ℕ)
    → All IsByte frame
    → length payload < 2 ^ 32
    → (decode_canonical_frame frame ≡ ok payload) ↔ (frame ≡ encode_canonical_frame payload)
unfolding decode_canonical_frame encode_canonical_frame put_uint32_be uint32_be
decode_canonical_frame_iff [] payload h k = ground arith
decode_canonical_frame_iff (a ∷ []) payload h k = ground arith
decode_canonical_frame_iff (a ∷ b ∷ []) payload h k = ground arith
decode_canonical_frame_iff (a ∷ b ∷ c ∷ []) payload h k = ground arith
decode_canonical_frame_iff (a ∷ b ∷ c ∷ d ∷ rest) payload h k = ground arith
