-- ===== src/P2p/Rpc/StreamTransport.antt =====
-- p2p/rpc/streamtransport.go and p2p/rpc/transport.go.
pub mod Frames
use go_tari_lib.Common.{
  ℕ, ◌==◌, Bool, true, false, not, List, [], ◌++◌, ltb, if◌then◌else◌, length, take, drop, get_or,
}
use go_tari_lib.Common.Result.{Result, ok, err}
use go_tari_lib.Common.Action.{Action, ◌>>=◌, pure}
use go_tari_lib.Stdlib.Endian.{uint32_be}
use go_tari_lib.P2p.Rpc.Errors.{Error, write_failed, read_failed}

-- `Transport`, over what the session keeps; the third operation is `BeginCanonicalFraming`, which leaves
-- a session that has no use for it alone.
pub record Transport (S : Type 0) : Type 0 where
  pub send_frame : List ℕ → Action S Error Unit
  pub receive_frame : Action S Error (List ℕ)
  pub begin_canonical_framing : Action S Error Unit

-- A substream, as one end sees it: the bytes that are still to arrive before the end of the stream, the
-- bytes written, and whether a write succeeds. `canonical` is the transport's own field.
pub record StreamTransport : Type 0 where
  pub incoming : List ℕ
  pub outgoing : List ℕ
  pub writable : Bool
  pub canonical : Bool

abbrev pub new_stream_transport : List ℕ → StreamTransport
new_stream_transport incoming = record {
  incoming = incoming;
  outgoing = [];
  writable = true;
  canonical = false;
}

-- `io.ReadFull` into a buffer of `n` bytes: a stream that ends early is used up.
unfoldable pub read_full : ℕ → Action StreamTransport Error (List ℕ)
read_full n t =
    if ltb (length t.incoming) n
    then (err read_failed, record t { incoming = [] })
    else (ok (take n t.incoming), record t { incoming = drop n t.incoming })

abbrev pub negotiation_frame_header_size : ℕ
negotiation_frame_header_size = 2

abbrev pub canonical_frame_len_prefix_size_on_stream : ℕ
canonical_frame_len_prefix_size_on_stream = 4

unfoldable pub receive_negotiation_frame : Action StreamTransport Error (List ℕ)
receive_negotiation_frame = do
  header ← read_full negotiation_frame_header_size
  let len = get_or header 0 0
  if len == 0 then pure header else do body ← read_full len; pure (header ++ body)

unfoldable pub receive_canonical_frame : Action StreamTransport Error (List ℕ)
receive_canonical_frame = do
  len_prefix ← read_full canonical_frame_len_prefix_size_on_stream
  let n = uint32_be len_prefix
  if n == 0 then pure len_prefix else do payload ← read_full n; pure (len_prefix ++ payload)

unfoldable pub stream_send_frame : List ℕ → Action StreamTransport Error Unit
stream_send_frame payload t =
    if not t.writable
    then (err write_failed, t)
    else (ok tt, record t { outgoing = t.outgoing ++ payload })

unfoldable pub stream_receive_frame : Action StreamTransport Error (List ℕ)
stream_receive_frame t =
    if t.canonical then receive_canonical_frame t else receive_negotiation_frame t

unfoldable pub stream_begin_canonical_framing : Action StreamTransport Error Unit
stream_begin_canonical_framing t = (ok tt, record t { canonical = true })

abbrev pub stream_transport : Transport StreamTransport
stream_transport = record {
  send_frame = stream_send_frame;
  receive_frame = stream_receive_frame;
  begin_canonical_framing = stream_begin_canonical_framing;
}
