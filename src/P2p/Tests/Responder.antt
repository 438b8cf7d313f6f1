-- ===== src/P2p/Tests/Responder.antt =====
-- A run of `Serve`: a peer that is identified and then lost, and one whose exchange of identities
-- is given up before its goroutines ran.
use go_tari_lib.Common.{
  ℕ, ◌≡◌, refl, inl, inr, Bool, true, false, some, none, All, List, [], ◌∷◌, ◌++◌, replicate,
}
use go_tari_lib.Common.Result.{ok, err}
use go_tari_lib.Stdlib.Endian.{uint16_be, put_uint16_be, put_uint16_le, uint16_le}
use go_tari_lib.P2p.Frame.{Conn, conn_write, conn_read_full, write_frame, read_frame}
use go_tari_lib.P2p.Session.{Session, send_frame, receive_frame}
use go_tari_lib.P2p.Ristretto.{KeyPair, key_pair}
use go_tari_lib.P2p.Handshake.{live, check_context, responder_handshake, responder_messages}
use go_tari_lib.P2p.Identity.{
  PeerInfo, info_of_msg, encode_identity_protocol_frame, decode_identity_protocol_frame,
  identity_frame_body,
}
use go_tari_lib.P2p.IdentitySignature.{build_our_identity_signature}
use go_tari_lib.P2p.Errors.{context_done as context_over}
use go_tari_lib.P2p.RistrettoDh.{dh}
use go_tari_lib.P2p.IdentityExchange as IdentityExchange
use go_tari_lib.P2p.IdentityExchange.{
  Exchange, in_channel, taken, begun, send, receive, select_done, select_sent, select_received,
  finish, our_message, outgoing_frame, our_peer_identity_msg_bytes, identified as with_key,
}
use go_tari_lib.P2p.Responder.{
  Event, accepting, ResponderConfig, Environment, Responder, context_done, accepted, exchanging,
  handshaken, known, handshake_done, exchange_begun, exchange_step, context_ended, exchange_failed,
  exchange_done, yamux_refused, accept, accept_failed, go_on, done, waited, start, next, Reachable,
  Step, returned, identified,
}
use go_tari_lib.P2p.Responder.Strays.{IsGivenUp}
use go_tari_lib.P2p.Responder.Events.{AllJustified}
use go_tari_lib.P2p.Responder.Invariant.{
  IsWindingDown, serve_returns-quiet, serve_reports-AllJustified,
}
use go_tari_lib.P2p.Tests.{plain}
use go_tari_lib.P2p.Tests.Session.{bits, zeros, counter, open_conn}
use go_tari_lib.P2p.Tests.Handshake.{toy, Toy}
use go_tari_lib.P2p.Tests.Exchange.{one_message, our_signature}

abbrev keys : KeyPair
keys = key_pair bits true

-- The network byte, two messages of the handshake, and the frame with the identity.
abbrev caller : Conn
caller = record open_conn {
  incoming = 82 ∷ 0 ∷ 0 ∷ 0 ∷ 32 ∷ (replicate 32 7 ++ (0 ∷ 6 ∷ 0 ∷ 0 ∷ 2 ∷ 0 ∷ 5 ∷ 6 ∷ []));
}

abbrev session : Session ℕ
session = record {
  conn = record {
    incoming = 0 ∷ 6 ∷ 0 ∷ 0 ∷ 2 ∷ 0 ∷ 5 ∷ 6 ∷ [];
    outgoing = 0 ∷ 32 ∷ keys.public_key;
    writable = true;
  };
  tx = 0;
  rx = 0;
  peer_static_key = replicate 32 7;
  local_static_keypair = keys;
}

shaken : responder_handshake toy live keys caller ≡ (ok session, session.conn)
unfolding responder_handshake responder_messages check_context conn_read_full write_frame read_frame
    conn_write uint16_be put_uint16_be dh
shaken = refl

abbrev info : PeerInfo
info = with_key session.peer_static_key (info_of_msg (our_message 3 ((4 ∷ []) ∷ []) our_signature))

abbrev frame : List ℕ
frame = 0 ∷ 2 ∷ 0 ∷ 5 ∷ 6 ∷ []

abbrev env : Environment Bool Bool Toy ℕ
env = record {
  noise = toy;
  cipher = counter;
  group = bits;
  blake2b_512 = zeros;
  codec = one_message;
  proto = plain;
}

abbrev cfg : ResponderConfig
cfg = record {
  static_keypair = keys;
  our_features = 3;
  our_addresses = (4 ∷ []) ∷ [];
  peer_list_provider = none;
}

frame_built :
    outgoing_frame bits zeros one_message keys
      (key_pair bits false)
      77
      (record { features = 3; addresses = (4 ∷ []) ∷ [] })
    ≡ ok frame
unfolding our_peer_identity_msg_bytes outgoing_frame build_our_identity_signature
    encode_identity_protocol_frame put_uint16_le
frame_built = refl

abbrev peer : PeerInfo
peer = info_of_msg (our_message 3 ((4 ∷ []) ∷ []) our_signature)

-- The exchange after each of its steps.
abbrev sent : Exchange ℕ
sent = record (begun session) {
  session = record session {
    conn = record session.conn { outgoing = session.conn.outgoing ++ (0 ∷ 6 ∷ 0 ∷ frame) };
    tx = 1;
  };
  sender = in_channel (ok tt);
}

abbrev both : Exchange ℕ
both = record sent {
  session = record sent.session { conn = record sent.session.conn { incoming = [] }; rx = 1 };
  receiver = in_channel (ok peer);
}

abbrev half : Exchange ℕ
half = record both { sender = taken; send_done = true }

abbrev whole : Exchange ℕ
whole = record half { receiver = taken; recv_result = some peer }

abbrev final : Exchange ℕ
final = record whole { outcome = some (ok info) }

sending : IdentityExchange.Step counter one_message frame (begun session) sent
unfolding send_frame write_frame conn_write put_uint16_be
sending = send refl

receiving : IdentityExchange.Step counter one_message frame sent both
unfolding receive_frame read_frame conn_read_full uint16_be uint16_le decode_identity_protocol_frame
    identity_frame_body
receiving = receive refl

abbrev address : List ℕ
address = 9 ∷ []

abbrev one_identified : List Event
one_identified = identified address session.peer_static_key info ∷ []

-- One connection in the exchange of identities, and no other goroutine.
abbrev alone : List Event → Exchange ℕ → Responder ℕ
alone events x = record {
  serving = accepting;
  wg = 1;
  running = exchanging address session frame x ∷ [];
  strays = [];
  events = events;
}

abbrev idle : List Event → Responder ℕ
idle events = record { serving = accepting; wg = 0; running = []; strays = []; events = events }

-- A connection comes as far as its exchange of identities.
comes :
    (events : List Event)
    → Reachable env cfg (idle events)
    → Reachable env cfg (alone events (begun session))
comes events reached =
    next
      (next (next reached (accept address caller refl)) (
        go_on [] [] (accepted address caller) (handshaken address session) [] refl
          (handshake_done session.conn live shaken)))
      (go_on [] [] (handshaken address session) (exchanging address session frame (begun session))
        [] refl (exchange_begun (key_pair bits false) 77 frame_built))

exchanges :
    (events : List Event) (x y : Exchange ℕ)
    → IdentityExchange.Step counter one_message frame x y
    → Reachable env cfg (alone events x)
    → Reachable env cfg (alone events y)
exchanges events x y stepped reached = next reached (
    go_on [] [] (exchanging address session frame x) (exchanging address session frame y) [] refl
      (exchange_step stepped))

abbrev busy : Responder ℕ
busy = record (idle one_identified) {
  wg = 1;
  running = known address session.peer_static_key info ∷ [];
}

busy-Reachable : Reachable env cfg busy
busy-Reachable =
    next
      (exchanges [] whole final (finish peer refl refl refl) (
        exchanges [] half whole (select_received peer (refl, inr refl) refl) (
          exchanges [] both half (select_sent (refl, inl refl) refl) (
            exchanges [] sent both receiving
              (exchanges [] (begun session) sent sending (comes [] start))))))
      (go_on [] [] (exchanging address session frame final)
        (known address session.peer_static_key info) one_identified refl (exchange_done refl))

-- An exchange that was given up before either goroutine ran.
abbrev expired : Exchange ℕ
expired = record (begun session) { expired = true }

abbrev given_up : Exchange ℕ
given_up = record expired { outcome = some (err context_over) }

abbrev over : Responder ℕ
over = record (idle one_identified) {
  serving = returned context_done;
  strays = (frame, given_up) ∷ [];
}

over-Reachable : Reachable env cfg over
over-Reachable =
    next
      (next
        (next
          (exchanges one_identified expired given_up (select_done (refl, inl refl) refl) (
            next
              (comes one_identified (
                next busy-Reachable (
                  done [] [] (known address session.peer_static_key info) [] [] refl
                    yamux_refused)))
              (go_on [] [] (exchanging address session frame (begun session))
                (exchanging address session frame expired) [] refl context_ended)))
          (done [] [] (exchanging address session frame given_up) [] ((frame, given_up) ∷ []) refl
            (exchange_failed context_over refl)))
        (accept_failed true refl))
      (waited context_done refl refl)

serve_reports-AllJustified_example : AllJustified env cfg one_identified
serve_reports-AllJustified_example = serve_reports-AllJustified env cfg busy busy-Reachable

serve_returns-quiet_example :
    (over.running ≡ [])
    × All IsGivenUp over.strays
    × ((t : Responder ℕ) → Step env cfg over t → IsWindingDown env cfg over t)
serve_returns-quiet_example = serve_returns-quiet env cfg over context_done over-Reachable refl
