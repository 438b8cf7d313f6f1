-- ===== src/P2p/Handshake.antt =====
-- p2p/handshake.go: the two sides of the handshake that makes a session. The handshake states and the cipher
-- states are those of github.com/flynn/noise, a parameter.
pub mod Agreement
pub mod Sessions
use go_tari_lib.Common.{
  ℕ, Bool, true, false, Option, some, none, List, [], ◌∷◌, ◌==◌, if◌then◌else◌, not, length, get_or,
}
use go_tari_lib.Common.Result.{Result, ok, err, some_or_fail}
use go_tari_lib.Common.Action.{Action, give, ◌>>=◌, ◌>>◌, pure, raise}
use go_tari_lib.P2p.Errors.{
  Error, context_done, liveness_mode, handshake_not_started, message_not_built, message_refused,
  handshake_incomplete, peer_key_length,
}
use go_tari_lib.P2p.Ristretto.{KeyPair}
use go_tari_lib.P2p.Frame.{Conn, conn_write, conn_read_full, write_frame, read_frame}
use go_tari_lib.P2p.Session.{Session}

abbrev pub network_byte_main_net : ℕ
network_byte_main_net = 0x00

abbrev pub network_byte_stage_net : ℕ
network_byte_stage_net = 0x01

abbrev pub network_byte_next_net : ℕ
network_byte_next_net = 0x52

abbrev pub network_byte_local_net : ℕ
network_byte_local_net = 0x10

abbrev pub network_byte_igor : ℕ
network_byte_igor = 0x24

abbrev pub network_byte_esmeralda : ℕ
network_byte_esmeralda = 0xca

abbrev pub default_network_wire_byte : ℕ
default_network_wire_byte = network_byte_main_net

abbrev pub live_wire_mode : ℕ
live_wire_mode = 0xa7

-- "com.tari.comms.noise.prologue"
abbrev pub tari_prologue : List ℕ
tari_prologue =
    99 ∷ 111 ∷ 109 ∷ 46 ∷ 116 ∷ 97 ∷ 114 ∷ 105 ∷ 46 ∷ 99 ∷ 111 ∷ 109 ∷ 109 ∷ 115 ∷ 46 ∷ 110 ∷ 111
    ∷ 105 ∷ 115 ∷ 101 ∷ 46 ∷ 112 ∷ 114 ∷ 111 ∷ 108 ∷ 111 ∷ 103 ∷ 117 ∷ 101 ∷ []

-- The context when it is looked at: there is none, it is live, or it is done.
pub data Context : Type 0 where
  no_context live done : Context

unfoldable pub check_context : Context → Result Error (Unit {0})
check_context no_context = ok tt
check_context live = ok tt
check_context done = err context_done

-- `noise.Config`, less the pattern and the suite, which are the same in every use.
pub record Config : Type 0 where
  pub initiator : Bool
  pub prologue : List ℕ
  pub static_keypair : KeyPair

-- `noise.NewHandshakeState`, `WriteMessage(nil, nil)`, `ReadMessage(nil, _)` and `PeerStatic`. The last message
-- gives the two cipher states; a state holds its own source of randomness.
pub record Noise (S K : Type 0) : Type 0 where
  pub new_handshake_state : Config → Option S
  pub write_message : S → Option (List ℕ × Option K × Option K × S)
  pub read_message : S → List ℕ → Option (Option K × Option K × S)
  pub peer_static : S → List ℕ

module _ {K : Type 0} where
  -- `cs1 == nil || cs2 == nil`
  abbrev pub both_ciphers : Option K → Option K → Result Error (K × K)
  both_ciphers (some cs1) (some cs2) = ok (cs1, cs2)
  both_ciphers (some cs1) none = err handshake_incomplete
  both_ciphers none cs2 = err handshake_incomplete

  abbrev pub new_session : K → K → List ℕ → KeyPair → Action Conn Error (Session K)
  new_session tx rx peer_static static_keypair conn = (
    if not (length peer_static == 32)
        then err peer_key_length
        else ok (record {
          conn = conn;
          tx = tx;
          rx = rx;
          peer_static_key = peer_static;
          local_static_keypair = static_keypair;
        }),
    conn,
  )

  -- The session's two ciphers, for sending and for receiving, and the key of the peer.
  abbrev pub session_of : KeyPair → K × K × List ℕ → Action Conn Error (Session K)
  session_of static_keypair (tx, rx, peer_static) = new_session tx rx peer_static static_keypair

module _ {S K : Type 0} where
  -- From the network byte to the last message.
  unfoldable pub initiator_messages : Noise S K → KeyPair → ℕ → Action Conn Error (K × K × List ℕ)
  initiator_messages noise static_keypair network_byte = do
    conn_write (network_byte ∷ [])
    hs ← give (
        some_or_fail
          (noise.new_handshake_state (record {
            initiator = true;
            prologue = tari_prologue;
            static_keypair = static_keypair;
          }))
          handshake_not_started)
    (msg1, _, _, hs1) ← give (some_or_fail (noise.write_message hs) message_not_built)
    write_frame msg1
    msg2 ← read_frame
    (_, _, hs2) ← give (some_or_fail (noise.read_message hs1 msg2) message_refused)
    (msg3, cs1, cs2, hs3) ← give (some_or_fail (noise.write_message hs2) message_not_built)
    (c1, c2) ← give (both_ciphers cs1 cs2)
    write_frame msg3
    pure (c1, c2, noise.peer_static hs3)

  unfoldable pub initiator_handshake :
      Noise S K → Context → KeyPair → ℕ → Action Conn Error (Session K)
  initiator_handshake noise ctx static_keypair network_byte = do
    give (check_context ctx)
    keys ← initiator_messages noise static_keypair network_byte
    session_of static_keypair keys

  -- From after the network byte to the last message.
  unfoldable pub responder_messages : Noise S K → KeyPair → Action Conn Error (K × K × List ℕ)
  responder_messages noise static_keypair = do
    hs ← give (
        some_or_fail
          (noise.new_handshake_state (record {
            initiator = false;
            prologue = tari_prologue;
            static_keypair = static_keypair;
          }))
          handshake_not_started)
    msg1 ← read_frame
    (_, _, hs1) ← give (some_or_fail (noise.read_message hs msg1) message_refused)
    (msg2, _, _, hs2) ← give (some_or_fail (noise.write_message hs1) message_not_built)
    write_frame msg2
    msg3 ← read_frame
    (cs1, cs2, hs3) ← give (some_or_fail (noise.read_message hs2 msg3) message_refused)
    (c1, c2) ← give (both_ciphers cs1 cs2)
    pure (c2, c1, noise.peer_static hs3)

  -- The network byte, and what is made of it.
  abbrev pub after_wire_byte : Noise S K → KeyPair → List ℕ → Action Conn Error (Session K)
  after_wire_byte noise static_keypair wire_byte =
      if get_or wire_byte 0 0 == live_wire_mode
      then raise liveness_mode
      else (responder_messages noise static_keypair >>= session_of static_keypair)

  unfoldable pub responder_handshake : Noise S K → Context → KeyPair → Action Conn Error (Session K)
  responder_handshake noise ctx static_keypair = do
    give (check_context ctx)
    wire_byte ← conn_read_full 1
    after_wire_byte noise static_keypair wire_byte
