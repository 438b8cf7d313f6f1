-- ===== src/P2p/Responder.antt =====
-- p2p/responder.go: `Serve`, its goroutines for connections and substreams and the group it waits for, as a step
-- relation. The listener and the multiplexer are outside: they accept or fail at any time.
pub mod Events
pub mod Strays
pub mod Invariant
use go_tari_lib.Common.{
  ℕ, zero, suc, ◌+◌, ◌-◌, ◌≡◌, Bool, true, false, if◌then◌else◌, Option, some, none, List, [], ◌∷◌,
  ◌++◌,
}
use go_tari_lib.Common.Result.{Result, ok, err}
use go_tari_lib.P2p.Errors.{Error}
use go_tari_lib.P2p.Frame.{Conn}
use go_tari_lib.P2p.Session.{Cipher, Session}
use go_tari_lib.P2p.Ristretto.{Ristretto, KeyPair}
use go_tari_lib.P2p.Handshake.{Noise, Context, responder_handshake}
use go_tari_lib.P2p.Identity.{PeerIdentityMsg, PeerInfo}
use go_tari_lib.P2p.IdentityExchange
use go_tari_lib.P2p.IdentityExchange.{IdentityOptions, Exchange, begun, outgoing_frame}
use go_tari_lib.P2p.Rpc.Errors as RpcErrors
use go_tari_lib.P2p.Rpc.Messages as Messages
use go_tari_lib.P2p.Rpc.Messages.{Protobuf, Codec}
use go_tari_lib.P2p.Rpc.StreamTransport.{StreamTransport, stream_transport, new_stream_transport}
use go_tari_lib.P2p.Rpc.ServeGetPeers.{serve_get_peers}

-- What the goroutines report through `Logf` and the callbacks: a peer whose identity was exchanged, and a
-- substream that was handled. The last one is in front.
pub data Event : Type 0 where
  identified : (remote key : List ℕ) → PeerInfo → Event
  handled : (remote : List ℕ) → Result RpcErrors.Error (Unit {0}) → Event

-- A callback that is nil does nothing.
-- The timeouts are left out. What the provider gives depends on what was reported before; `none` is nil.
pub record ResponderConfig : Type 0 where
  pub static_keypair : KeyPair
  pub our_features : ℕ
  pub our_addresses : List (List ℕ)
  pub peer_list_provider : Option (List Event → List (Option Messages.PeerInfo))

abbrev pub known_peers : ResponderConfig → List Event → List (Option Messages.PeerInfo)
known_peers cfg events = elim cfg.peer_list_provider [ none ↦ [] | some provider ↦ provider events ]

-- What is done on one substream, with the bytes that arrive on it.
unfoldable pub handle_responder_substream :
    Protobuf
    → List (Option Messages.PeerInfo)
    → List ℕ
    → Result RpcErrors.Error (Unit {0}) × StreamTransport
handle_responder_substream proto peers incoming =
    serve_get_peers proto stream_transport peers (new_stream_transport incoming)

-- The goroutines: a connection that was accepted, one behind its handshake, one in the exchange of identities with
-- the frame that it sends, one behind the exchange, one whose substreams are accepted, a substream, and one
-- for which the provider gave its list.
pub data Task (K : Type 0) : Type 0 where
  accepted : (remote : List ℕ) → Conn → Task K
  handshaken : (remote : List ℕ) → Session K → Task K
  exchanging : (remote : List ℕ) → Session K → (frame : List ℕ) → Exchange K → Task K
  known : (remote key : List ℕ) → PeerInfo → Task K
  multiplexed : (remote key : List ℕ) → PeerInfo → Task K
  substream : (remote : List ℕ) → List ℕ → Task K
  listed : (remote : List ℕ) → List ℕ → List (Option Messages.PeerInfo) → Task K

-- The goroutines of an exchange of identities, for the frame that is sent. The group does not count them, and those of
-- an exchange that failed may still run.
abbrev pub Stray : Type 0 → Type 0
Stray K = List ℕ × Exchange K

-- Why `Accept` stopped: `Serve` returns no error if the context is done, and else the listener's.
pub data Stop : Type 0 where
  context_done listener_failed : Stop

-- The loop of `Serve`, its wait for the group, and its return.
pub data Serving : Type 0 where
  accepting : Serving
  draining returned : Stop → Serving

pub record Responder (K : Type 0) : Type 0 where
  pub serving : Serving
  pub wg : ℕ
  pub running : List (Task K)
  pub strays : List (Stray K)
  pub events : List Event

abbrev pub started : {K : Type 0} → Responder K
started = record { serving = accepting; wg = 0; running = []; strays = []; events = [] }

-- `wg.Add(1)` and `go`
abbrev pub spawn : {K : Type 0} → Task K → Responder K → Responder K
spawn task s = record s { wg = s.wg + 1; running = task ∷ s.running }

abbrev pub options : ResponderConfig → IdentityOptions
options cfg = record { features = cfg.our_features; addresses = cfg.our_addresses }

-- What the connections' goroutines take from outside.
pub record Environment (Scalar Point S K : Type 0) : Type 0 where
  pub noise : Noise S K
  pub cipher : Cipher K
  pub group : Ristretto Scalar Point
  pub blake2b_512 : List ℕ → List ℕ
  pub codec : Codec PeerIdentityMsg
  pub proto : Protobuf

module _ {Scalar Point S K : Type 0} (env : Environment Scalar Point S K)
    (cfg : ResponderConfig) where
  -- What a goroutine does next: the events it reports, the exchange whose goroutines it leaves behind, and what it
  -- goes on as; `none` is its end. The two goroutines of an exchange take their steps with the connection's.
  pub data Move (events : List Event)
      : Task K → List Event → List (Stray K) → Option (Task K) → Type 0 where
    deadline_refused :
        {remote : List ℕ} {conn : Conn} → Move events (accepted remote conn) [] [] none
    handshake_failed :
        {remote : List ℕ} {conn : Conn} (conn' : Conn) (ctx : Context) (e : Error)
        → responder_handshake env.noise ctx cfg.static_keypair conn ≡ (err e, conn')
        → Move events (accepted remote conn) [] [] none
    handshake_done :
        {remote : List ℕ} {conn : Conn} (conn' : Conn) (ctx : Context) {session : Session K}
        → responder_handshake env.noise ctx cfg.static_keypair conn ≡ (ok session, conn')
        → Move events (accepted remote conn) [] [] (some (handshaken remote session))
    frame_refused :
        {remote : List ℕ} {session : Session K} (nonce_keypair : KeyPair) (updated_at : ℕ)
        (e : Error)
        → outgoing_frame env.group env.blake2b_512 env.codec session.local_static_keypair
            nonce_keypair updated_at
            (options cfg)
          ≡ err e
        → Move events (handshaken remote session) [] [] none
    exchange_begun :
        {remote : List ℕ} {session : Session K} (nonce_keypair : KeyPair) (updated_at : ℕ)
        {frame : List ℕ}
        → outgoing_frame env.group env.blake2b_512 env.codec session.local_static_keypair
            nonce_keypair updated_at
            (options cfg)
          ≡ ok frame
        → Move events
            (handshaken remote session)
            []
            []
            (some (exchanging remote session frame (begun session)))
    exchange_step :
        {remote frame : List ℕ} {session : Session K} {x y : Exchange K}
        → IdentityExchange.Step env.cipher env.codec frame x y
        → Move events
            (exchanging remote session frame x)
            []
            []
            (some (exchanging remote session frame y))
    context_ended :
        {remote frame : List ℕ} {session : Session K} {x : Exchange K}
        → Move events
            (exchanging remote session frame x)
            []
            []
            (some (exchanging remote session frame (record x { expired = true })))
    exchange_failed :
        {remote frame : List ℕ} {session : Session K} {x : Exchange K} (e : Error)
        → x.outcome ≡ some (err e)
        → Move events (exchanging remote session frame x) [] ((frame, x) ∷ []) none
    exchange_done :
        {remote frame : List ℕ} {session : Session K} {x : Exchange K} {info : PeerInfo}
        → x.outcome ≡ some (ok info)
        → Move events
            (exchanging remote session frame x)
            (identified remote session.peer_static_key info ∷ [])
            []
            (some (known remote session.peer_static_key info))
    deadline_stays :
        {remote key : List ℕ} {info : PeerInfo} → Move events (known remote key info) [] [] none
    yamux_refused :
        {remote key : List ℕ} {info : PeerInfo} → Move events (known remote key info) [] [] none
    upgraded :
        {remote key : List ℕ} {info : PeerInfo}
        → Move events (known remote key info) [] [] (some (multiplexed remote key info))
    session_ended :
        {remote key : List ℕ} {info : PeerInfo}
        → Move events (multiplexed remote key info) [] [] none
    peers_listed :
        {remote incoming : List ℕ}
        → Move events
            (substream remote incoming)
            []
            []
            (some (listed remote incoming (known_peers cfg events)))
    substream_done :
        {remote incoming : List ℕ} {peers : List (Option Messages.PeerInfo)}
        → Move events
            (listed remote incoming peers)
            (handled remote (handle_responder_substream env.proto peers incoming).0 ∷ [])
            []
            none

  pub data Step (s : Responder K) : Responder K → Type 0 where
    accept :
        (remote : List ℕ) (conn : Conn)
        → s.serving ≡ accepting
        → Step s (spawn (accepted remote conn) s)
    -- The listener fails, and the context is done or not.
    accept_failed :
        (done : Bool)
        → s.serving ≡ accepting
        → Step s (record s { serving = draining (if done then context_done else listener_failed) })
    accept_substream :
        (front back : List (Task K)) (remote key incoming : List ℕ) (info : PeerInfo)
        → s.running ≡ front ++ (multiplexed remote key info ∷ back)
        → Step s (spawn (substream remote incoming) s)
    go_on :
        (front back : List (Task K)) (task task' : Task K) (new : List Event)
        → s.running ≡ front ++ (task ∷ back)
        → Move s.events task new [] (some task')
        → Step s (record s { running = front ++ (task' ∷ back); events = new ++ s.events })
    -- `wg.Done()`
    done :
        (front back : List (Task K)) (task : Task K) (new : List Event) (left : List (Stray K))
        → s.running ≡ front ++ (task ∷ back)
        → Move s.events task new left none
        → Step s (record s {
          running = front ++ back;
          strays = left ++ s.strays;
          events = new ++ s.events;
          wg = s.wg - 1;
        })
    -- A goroutine of an exchange that failed.
    stray_goes_on :
        (front back : List (Stray K)) (frame : List ℕ) (x y : Exchange K)
        → s.strays ≡ front ++ ((frame, x) ∷ back)
        → IdentityExchange.Step env.cipher env.codec frame x y
        → Step s (record s { strays = front ++ ((frame, y) ∷ back) })
    -- `wg.Wait()`
    waited :
        (r : Stop) → s.serving ≡ draining r → s.wg ≡ 0 → Step s (record s { serving = returned r })

  pub data Reachable : Responder K → Type 0 where
    start : Reachable started
    next : {s t : Responder K} → Reachable s → Step s t → Reachable t
