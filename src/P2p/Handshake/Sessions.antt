-- ===== src/P2p/Handshake/Sessions.antt =====
-- p2p/handshake.go and p2p/session.go: what holds of every session that a handshake made.
use go_tari_lib.Common.{
  ℕ, ◌≡◌, refl, sym, ap, ◌∙◌, Bool, true, false, not, Option, List, [], ◌∷◌, ◌++◌, arith, ◌==◌,
  if◌then◌else◌, length, get_or, All, take, drop, ltb,
}
use go_tari_lib.Common.Result.{Result, ok, err, ok-injective}
use go_tari_lib.Common.Action.{give, ◌>>=◌, raise, bind-eq-ok}
use go_tari_lib.P2p.Errors.{Error, peer_key_length, liveness_mode, read_failed}
use go_tari_lib.P2p.Ristretto.{Ristretto, IsGroup, KeyPair}
use go_tari_lib.P2p.RistrettoDh.{generate_keypair}
use go_tari_lib.P2p.Frame.{Conn, conn_read_full}
use go_tari_lib.P2p.Session.{Cipher, Session, IsInStep, IsDelivered, Fits, send_frames-IsDelivered}
use go_tari_lib.P2p.Handshake.{
  Noise, Context, check_context, live_wire_mode, new_session, session_of, initiator_messages,
  responder_messages, initiator_handshake, responder_handshake, after_wire_byte,
}
use go_tari_lib.P2p.Handshake.Agreement.{IsNoise, handshake_agreement, moved}

-- A session with a key of the right size, our own keys, and the connection as it was left.
pub record IsMade {K : Type 0} (keys : KeyPair) (conn : Conn) (s : Session K) : Type 0 where
  pub key_size : length s.peer_static_key ≡ 32
  pub own_keys : s.local_static_keypair ≡ keys
  pub left_as : s.conn ≡ conn

module _ {K : Type 0} (keys : KeyPair) where
  new_session_success :
      (tx rx : K) (peer_static : List ℕ) (c c' : Conn) (s : Session K)
      → new_session tx rx peer_static keys c ≡ (ok s, c')
      → IsMade keys c' s
  new_session_success tx rx peer_static c c' s e = by_test (length peer_static == 32) refl e
    where
      wanted : Session K
      wanted = record {
        conn = c;
        tx = tx;
        rx = rx;
        peer_static_key = peer_static;
        local_static_keypair = keys;
      }

      clash : ◌≡◌ {A = Result Error (Session K) × Conn} (err peer_key_length, c) (ok s, c') → ⊥
      clash k = cc

      by_test :
          (b : Bool)
          → (length peer_static == 32) ≡ b
          → ◌≡◌ {A = Result Error (Session K) × Conn}
              (if not b then err peer_key_length else ok wanted, c)
              (ok s, c')
          → IsMade keys c' s
      by_test true t k = record {
        key_size = rw (sym same) (ground arith);
        own_keys = ap (λ t. t.local_static_keypair) (sym same);
        left_as = ap (λ t. t.conn) (sym same) ∙ ap (λ p. p.1) k;
      }
        where
          same : wanted ≡ s
          same = cc
      by_test false t k = absurd (clash k)

first_byte :
    (c c' : Conn) (wire_byte : List ℕ)
    → conn_read_full 1 c ≡ (ok wire_byte, c')
    → get_or wire_byte 0 0 ≡ get_or c.incoming 0 0
unfolding conn_read_full
first_byte c c' wire_byte e = by_incoming c.incoming e
  where
    clash :
        (d : Conn)
        → ◌≡◌ {A = Result Error (List ℕ) × Conn} (err read_failed, d) (ok wire_byte, c')
        → ⊥
    clash d k = cc

    by_incoming :
        (i : List ℕ)
        → ◌≡◌ {A = Result Error (List ℕ) × Conn}
            (if ltb (length i) 1
              then (err read_failed, record c { incoming = [] })
              else (ok (take 1 i), record c { incoming = drop 1 i }))
            (ok wire_byte, c')
        → get_or wire_byte 0 0 ≡ get_or i 0 0
    by_incoming [] k = absurd (clash (record c { incoming = [] }) k)
    by_incoming (b ∷ i) k = get_or_of (sym (ap taken enough) ∙ k)
      where
        enough : ltb (length (b ∷ i)) 1 ≡ false
        enough = ground arith

        taken : Bool → Result Error (List ℕ) × Conn
        taken t =
            if t
            then (err read_failed, record c { incoming = [] })
            else (ok (b ∷ []), record c { incoming = i })

        get_or_of :
            ◌≡◌ {A = Result Error (List ℕ) × Conn}
              (ok (b ∷ []), record c { incoming = i })
              (ok wire_byte, c')
            → get_or wire_byte 0 0 ≡ b
        get_or_of h =
            ap (λ w. get_or w 0 0) (sym (ok-injective (b ∷ []) wire_byte (ap (λ p. p.0) h)))

module _ {S K : Type 0} (noise : Noise S K) where
  -- A session that the initiator made: the context was not done, the peer's key has 32 bytes, the keys are
  -- those that were given, and the session holds the connection as the handshake left it.
  pub initiator_handshake-IsMade :
      (ctx : Context) (keys : KeyPair) (network_byte : ℕ) (c c' : Conn) (s : Session K)
      → initiator_handshake noise ctx keys network_byte c ≡ (ok s, c')
      → (check_context ctx ≡ ok tt) × IsMade keys c' s
  unfolding initiator_handshake
  initiator_handshake-IsMade ctx keys network_byte c c' s e =
      let (u, c1, looked, k) =
        bind-eq-ok (give (check_context ctx))
          (λ _. initiator_messages noise keys network_byte >>= session_of keys) c c' s e in
      let ((tx, rx, key), c2, _, made) =
        bind-eq-ok (initiator_messages noise keys network_byte) (session_of keys) c1 c' s k in
      (ap (λ p. p.0) looked, new_session_success keys tx rx key c2 c' s made)

  -- Whatever the byte, a session that is made after it.
  after_wire_byte_lem :
      (keys : KeyPair) (wire_byte : List ℕ) (c c' : Conn) (s : Session K)
      → after_wire_byte noise keys wire_byte c ≡ (ok s, c')
      → ((get_or wire_byte 0 0 == live_wire_mode) ≡ false) × IsMade keys c' s
  after_wire_byte_lem keys wire_byte c c' s = by_test (get_or wire_byte 0 0 == live_wire_mode)
    where
      clash : ◌≡◌ {A = Result Error (Session K) × Conn} (err liveness_mode, c) (ok s, c') → ⊥
      clash k = cc

      by_test :
          (b : Bool)
          → (if b then raise liveness_mode else (responder_messages noise keys >>= session_of keys))
              c
            ≡ (ok s, c')
          → (b ≡ false) × IsMade keys c' s
      by_test true e = absurd (clash e)
      by_test false e =
          let ((tx, rx, key), c2, _, made) =
            bind-eq-ok (responder_messages noise keys) (session_of keys) c c' s e in
          (refl, new_session_success keys tx rx key c2 c' s made)

  pub responder_handshake-IsMade :
      (ctx : Context) (keys : KeyPair) (c c' : Conn) (s : Session K)
      → responder_handshake noise ctx keys c ≡ (ok s, c')
      → (check_context ctx ≡ ok tt)
        × ((get_or c.incoming 0 0 == live_wire_mode) ≡ false)
        × IsMade keys c' s
  unfolding responder_handshake
  responder_handshake-IsMade ctx keys c c' s e =
      let (u, c1, looked, k) =
        bind-eq-ok (give (check_context ctx)) (λ _. conn_read_full 1 >>= after_wire_byte noise keys)
          c c' s e in
      let (wire_byte, c2, read, made) =
        bind-eq-ok (conn_read_full 1) (after_wire_byte noise keys) c1 c' s k in
      let (other, is_made) = after_wire_byte_lem keys wire_byte c2 c' s made in
      let first = first_byte c1 c2 wire_byte read in
      let same : c ≡ c1 = ap (λ p. p.1) looked in
      (
        ap (λ p. p.0) looked,
        ap (λ d. get_or d.incoming 0 0 == live_wire_mode) same
            ∙ ap (λ w. w == live_wire_mode) (sym first)
            ∙ other,
        is_made,
      )

module _ {Scalar Point S K : Type 0} (group : Ristretto Scalar Point) (group_law : IsGroup group)
    (blake2b_256 : List ℕ → List ℕ) (noise : Noise S K) (cipher : Cipher K)
    (Paired : K → K → Type 0) (law : IsNoise group blake2b_256 noise Paired)
    (steps : IsInStep cipher Paired) where
  -- Given the laws of the group and the library's descriptions of the ciphers and of a run, which completes
  -- for key pairs that the program's own `DH` takes: on two connections that can be written to, with
  -- contexts that are not done, key pairs that `GenerateKeypair` made and a network byte that is not the one
  -- for liveness, the sessions that the two sides make, each on what the other sent, deliver any messages
  -- that fit in frames, in their order, from the initiator to the responder and from the responder to the
  -- initiator, whatever follows on the connections.
  pub handshake-IsDelivered :
      (ctx ctx' : Context) (random random' : Option (List ℕ)) (system system' : List ℕ)
      (ours theirs : KeyPair) (network_byte : ℕ) (a b : Conn) (rest rest' behind behind' : List ℕ)
      (ms ns : List (List ℕ))
      → check_context ctx ≡ ok tt
      → check_context ctx' ≡ ok tt
      → (network_byte == live_wire_mode) ≡ false
      → generate_keypair group random system ≡ ok ours
      → generate_keypair group random' system' ≡ ok theirs
      → a.writable ≡ true
      → b.writable ≡ true
      → All Fits ms
      → All Fits ns
      → (s : Session K) × (t : Session K) × (sent : List ℕ) × (answer : List ℕ)
        × (initiator_handshake noise ctx ours network_byte (record a { incoming = answer ++ rest })
            ≡ (ok s, s.conn))
        × (responder_handshake noise ctx' theirs (record b { incoming = sent ++ rest' })
            ≡ (ok t, t.conn))
        × IsDelivered cipher Paired s t ms behind
        × IsDelivered cipher Paired t s ns behind'
  handshake-IsDelivered ctx ctx' random random' system system' ours theirs network_byte a b rest
        rest' behind behind' ms ns h h' other l l' w w' fits fits' =
      let agreed =
        handshake_agreement group group_law blake2b_256 noise Paired law ctx ctx' random random'
          system system' ours theirs network_byte a b rest rest' h h' other l l' w w' in
      let s : Session K = record {
        conn = moved a rest agreed.sent;
        tx = agreed.tx;
        rx = agreed.rx;
        peer_static_key = theirs.public_key;
        local_static_keypair = ours;
      } in
      let t : Session K = record {
        conn = moved b rest' agreed.answer;
        tx = agreed.tx';
        rx = agreed.rx';
        peer_static_key = ours.public_key;
        local_static_keypair = theirs;
      } in
      (
        s,
        t,
        agreed.sent,
        agreed.answer,
        agreed.initiated,
        agreed.responded,
        send_frames-IsDelivered cipher Paired steps s t ms behind agreed.forward fits w,
        send_frames-IsDelivered cipher Paired steps t s ns behind' agreed.backward fits' w',
      )
