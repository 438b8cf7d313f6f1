-- ===== src/P2p/Responder/Events.antt =====
-- p2p/responder.go: what is behind each event that a goroutine of `Serve` reports.
use go_tari_lib.Common.{ℕ, suc, ◌≡◌, refl, Option, some, none, List, [], ◌∷◌, ◌++◌, length, All}
use go_tari_lib.Common.Result.{Result, ok}
use go_tari_lib.P2p.Errors.{Error}
use go_tari_lib.P2p.Ristretto.{KeyPair}
use go_tari_lib.P2p.IdentityExchange.{Exchange, Reach, here, step, expire, begun, outgoing_frame}
use go_tari_lib.P2p.Frame.{Conn}
use go_tari_lib.P2p.Session.{Session}
use go_tari_lib.P2p.Handshake.{Context, responder_handshake}
use go_tari_lib.P2p.Handshake.Sessions.{responder_handshake-IsMade}
use go_tari_lib.P2p.Identity.{PeerInfo}
use go_tari_lib.P2p.Responder.{
  Event, identified, handled, ResponderConfig, Stray, Task, accepted, handshaken, exchanging, known,
  multiplexed, substream, listed, Environment, options, Move, deadline_refused, handshake_failed,
  handshake_done, frame_refused, exchange_begun, exchange_step, context_ended, exchange_failed,
  exchange_done, deadline_stays, yamux_refused, upgraded, session_ended, peers_listed,
  substream_done,
}

pub data IsIn (event : Event) : List Event → Type 0 where
  first : {events : List Event} → IsIn event (event ∷ events)
  later : {other : Event} {events : List Event} → IsIn event events → IsIn event (other ∷ events)

-- Some peer of this address was identified.
pub record IsIdentified (remote : List ℕ) (events : List Event) : Type 0 where
  pub key : List ℕ
  pub info : PeerInfo
  pub reported : IsIn (identified remote key info) events

module _ {Scalar Point S K : Type 0} (env : Environment Scalar Point S K)
    (cfg : ResponderConfig) where
  -- A handshake gave the session.
  pub record IsShaken (session : Session K) : Type 0 where
    pub conn : Conn
    pub left_conn : Conn
    pub ctx : Context
    pub made : responder_handshake env.noise ctx cfg.static_keypair conn ≡ (ok session, left_conn)

  size : {session : Session K} → IsShaken session → length session.peer_static_key ≡ 32
  size {session = session} b =
      let (looked, other, made) =
        responder_handshake-IsMade env.noise b.ctx cfg.static_keypair b.conn b.left_conn session
          b.made in
      made.key_size

  -- An exchange of identities over the session came to this, with this frame.
  pub record IsExchange (session : Session K) (frame : List ℕ) (final : Exchange K) : Type 0 where
    pub nonce_keypair : KeyPair
    pub updated_at : ℕ
    pub built :
        outgoing_frame env.group env.blake2b_512 env.codec session.local_static_keypair
          nonce_keypair updated_at
          (options cfg)
        ≡ ok frame
    pub exchange_steps : ℕ
    pub run : Reach env.cipher env.codec frame (begun session) exchange_steps final

  -- An exchange of identities ended with this result.
  pub record Exchanged (session : Session K) (result : Result Error PeerInfo) : Type 0 where
    pub frame : List ℕ
    pub final : Exchange K
    pub exchange : IsExchange session frame final
    pub ended : final.outcome ≡ some result

  -- The session of a handshake whose exchange of identities gave this.
  pub record IsAdmitted (key : List ℕ) (info : PeerInfo) : Type 0 where
    pub session : Session K
    pub shaken : IsShaken session
    pub exchanged : Exchanged session (ok info)
    pub same_key : session.peer_static_key ≡ key
    pub key_size : length key ≡ 32

  -- What is behind an event, given those before it.
  abbrev pub Justified : List Event → Event → Type 0
  Justified before (identified remote key info) = IsAdmitted key info
  Justified before (handled remote r) = IsIdentified remote before

  abbrev pub AllJustified : List Event → Type 0
  AllJustified [] = Unit
  AllJustified (event ∷ before) = Justified before event × AllJustified before

  abbrev pub Backed : List Event → Task K → Type 0
  Backed events (accepted remote conn) = Unit
  Backed events (handshaken remote session) = IsShaken session
  Backed events (exchanging remote session frame x) = IsShaken session × IsExchange session frame x
  Backed events (known remote key info) = IsIdentified remote events
  Backed events (multiplexed remote key info) = IsIdentified remote events
  Backed events (substream remote incoming) = IsIdentified remote events
  Backed events (listed remote incoming peers) = IsIdentified remote events

  still :
      {remote : List ℕ} (events : List Event) (event : Event)
      → IsIdentified remote events
      → IsIdentified remote (event ∷ events)
  still events event i = record { key = i.key; info = i.info; reported = later i.reported }

  Backed-later :
      (new events : List Event) (task : Task K) → Backed events task → Backed (new ++ events) task
  Backed-later [] events task b = b
  Backed-later (event ∷ new) events (accepted remote conn) b = tt
  Backed-later (event ∷ new) events (handshaken remote session) b = b
  Backed-later (event ∷ new) events (exchanging remote session frame x) b = b
  Backed-later (event ∷ new) events (known remote key info) b =
      still (new ++ events) event (Backed-later new events (known remote key info) b)
  Backed-later (event ∷ new) events (multiplexed remote key info) b =
      still (new ++ events) event (Backed-later new events (multiplexed remote key info) b)
  Backed-later (event ∷ new) events (substream remote incoming) b =
      still (new ++ events) event (Backed-later new events (substream remote incoming) b)
  Backed-later (event ∷ new) events (listed remote incoming peers) b =
      still (new ++ events) event (Backed-later new events (listed remote incoming peers) b)

  pub All-Backed-later :
      (new events : List Event) (tasks : List (Task K))
      → All (Backed events) tasks
      → All (Backed (new ++ events)) tasks
  All-Backed-later new events [] bs = tt
  All-Backed-later new events (task ∷ tasks) (b, bs) =
      (Backed-later new events task b, All-Backed-later new events tasks bs)

  -- What a goroutine reports is justified, and what it goes on as is backed.
  abbrev pub NextBacked : List Event → Option (Task K) → Type 0
  NextBacked events none = Unit
  NextBacked events (some task) = Backed events task

  pub Move-Backed :
      (events new : List Event) (left : List (Stray K)) (task : Task K) (after : Option (Task K))
      → Move env cfg events task new left after
      → Backed events task
      → AllJustified events
      → AllJustified (new ++ events) × NextBacked (new ++ events) after
  Move-Backed events new left task after deadline_refused b j = (j, tt)
  Move-Backed events new left task after (handshake_failed {conn = conn} conn' ctx e made) b j =
      (j, tt)
  Move-Backed events new left task after (handshake_done {conn = conn} conn' ctx e) b j =
      (j, record { conn = conn; left_conn = conn'; ctx = ctx; made = e })
  Move-Backed events new left task after (frame_refused nonce_keypair updated_at e made) b j =
      (j, tt)
  Move-Backed events new left task after
        (exchange_begun {session = session} nonce_keypair updated_at {frame = frame} made) b j =
      (
        j,
        (
          b,
          record {
            nonce_keypair = nonce_keypair;
            updated_at = updated_at;
            built = made;
            exchange_steps = 0;
            run = here;
          },
        ),
      )
  Move-Backed events new left task after (exchange_step taken) (b, r) j = (
    j,
    (
      b,
      record {
        nonce_keypair = r.nonce_keypair;
        updated_at = r.updated_at;
        built = r.built;
        exchange_steps = suc r.exchange_steps;
        run = step r.run taken;
      },
    ),
  )
  Move-Backed events new left task after context_ended (b, r) j = (
    j,
    (
      b,
      record {
        nonce_keypair = r.nonce_keypair;
        updated_at = r.updated_at;
        built = r.built;
        exchange_steps = r.exchange_steps;
        run = expire r.run;
      },
    ),
  )
  Move-Backed events new left task after (exchange_failed e h) b j = (j, tt)
  Move-Backed events new left task after
        (exchange_done {frame = frame} {session = session} {x = x} {info = info} h) (b, run) j =
      (
        (
          record {
            session = session;
            shaken = b;
            exchanged = record { frame = frame; final = x; exchange = run; ended = h };
            same_key = refl;
            key_size = size b;
          },
          j,
        ),
        record { key = session.peer_static_key; info = info; reported = first },
      )
  Move-Backed events new left task after deadline_stays b j = (j, tt)
  Move-Backed events new left task after yamux_refused b j = (j, tt)
  Move-Backed events new left task after upgraded b j = (j, b)
  Move-Backed events new left task after session_ended b j = (j, tt)
  Move-Backed events new left task after peers_listed b j = (j, b)
  Move-Backed events new left task after substream_done b j = ((b, j), tt)
