-- ===== src/P2p/Handshake/Agreement.antt =====
-- p2p/handshake.go: the two sides against each other, and the session that comes of it.
use mathlib.Core.Path.{subst}
use go_tari_lib.Common.{
  ℕ, ◌≤◌, ◌≡◌, refl, ap, ◌∙◌, true, false, Option, some, none, List, [], ◌∷◌, ◌++◌, arith, ltb,
  ◌==◌, length, append_assoc,
}
use go_tari_lib.Common.Result.{Result, ok}
use go_tari_lib.P2p.Errors.{Error}
use go_tari_lib.P2p.Ristretto.{Ristretto, IsGroup, KeyPair, key_pair}
use go_tari_lib.P2p.RistrettoDh.{
  generate_keypair, dh, generate_keypair-key_pair, shared_key, shared_key_comm, dh_lem,
}
use go_tari_lib.P2p.Frame.{
  Conn, write_frame, max_frame_length, framed, conn_read_full_lem, conn_write_lem, write_frame_lem,
  read_frame-framed,
}
use go_tari_lib.P2p.Session.{Session}
use go_tari_lib.P2p.Handshake.{
  Noise, Context, check_context, tari_prologue, live_wire_mode, initiator_messages,
  responder_messages, initiator_handshake, responder_handshake,
}

-- The three messages of one run between an initiator and a responder, as the noise library describes them:
-- each fits in a frame, each is read by the other side, the last one gives both sides their ciphers, in
-- step, and each side then knows the public key of the other.
pub record IsRun {S K : Type 0} (noise : Noise S K) (Paired : K → K → Type 0) (prologue : List ℕ)
    (ours theirs : KeyPair) : Type 0 where
  pub s0 : S
  pub s1 : S
  pub s2 : S
  pub s3 : S
  pub t0 : S
  pub t1 : S
  pub t2 : S
  pub t3 : S
  pub msg1 : List ℕ
  pub msg2 : List ℕ
  pub msg3 : List ℕ
  pub cs1 : K
  pub cs2 : K
  pub ds1 : K
  pub ds2 : K
  pub initiator_starts :
      noise.new_handshake_state
        (record { initiator = true; prologue = prologue; static_keypair = ours })
      ≡ some s0
  pub responder_starts :
      noise.new_handshake_state
        (record { initiator = false; prologue = prologue; static_keypair = theirs })
      ≡ some t0
  pub first : noise.write_message s0 ≡ some (msg1, none, none, s1)
  pub first_read : noise.read_message t0 msg1 ≡ some (none, none, t1)
  pub second : noise.write_message t1 ≡ some (msg2, none, none, t2)
  pub second_read : noise.read_message s1 msg2 ≡ some (none, none, s2)
  pub third : noise.write_message s2 ≡ some (msg3, some cs1, some cs2, s3)
  pub third_read : noise.read_message t2 msg3 ≡ some (some ds1, some ds2, t3)
  pub fits1 : length msg1 ≤ max_frame_length
  pub fits2 : length msg2 ≤ max_frame_length
  pub fits3 : length msg3 ≤ max_frame_length
  pub initiator_knows : noise.peer_static s3 ≡ theirs.public_key
  pub responder_knows : noise.peer_static t3 ≡ ours.public_key
  pub forward : Paired cs1 ds1
  pub backward : Paired ds2 cs2

-- Key pairs that the program's own `DH` takes: with the key pair of whatever scalar the library makes for one
-- run, both sides get one and the same secret.
pub record Suits {Scalar Point : Type 0} (group : Ristretto Scalar Point)
    (blake2b_256 : List ℕ → List ℕ) (keys : KeyPair) : Type 0 where
  pub size : length keys.public_key ≡ 32
  pub exchanges :
      (e : Scalar)
      → (shared : List ℕ) × (dh group blake2b_256 keys.private_key (key_pair group e).public_key
          ≡ ok shared)
        × (dh group blake2b_256 (key_pair group e).private_key keys.public_key ≡ ok shared)

-- What the library documents, for states with a source of randomness that gives enough: a run completes whenever both
-- sides mix in the same prologue and the suite's `DH` takes the key pairs of both.
pub record IsNoise {Scalar Point S K : Type 0} (group : Ristretto Scalar Point)
    (blake2b_256 : List ℕ → List ℕ) (noise : Noise S K) (Paired : K → K → Type 0) : Type 0 where
  pub completes :
      (prologue : List ℕ) (ours theirs : KeyPair)
      → Suits group blake2b_256 ours
      → Suits group blake2b_256 theirs
      → IsRun noise Paired prologue ours theirs

-- A generated key pair is taken.
pub generated-Suits :
    {Scalar Point : Type 0} (group : Ristretto Scalar Point)
    → IsGroup group
    → (blake2b_256 : List ℕ → List ℕ) (random : Option (List ℕ)) (system : List ℕ) (keys : KeyPair)
    → generate_keypair group random system ≡ ok keys
    → Suits group blake2b_256 keys
generated-Suits group law blake2b_256 random system keys made =
    let (a, same) = generate_keypair-key_pair group random system keys made in
    subst (Suits group blake2b_256) same (record {
      size = law.point_size (group.scalar_base_mult a);
      exchanges = λ e. (
        shared_key group law blake2b_256 a e,
        dh_lem group law blake2b_256 a e,
        dh_lem group law blake2b_256 e a ∙ ap ok (shared_key_comm group law blake2b_256 e a),
      );
    })

-- A handshake that made a session, and left the connection as the session has it.
abbrev pub made : {K : Type 0} → Conn → K → K → List ℕ → KeyPair → Result Error (Session K) × Conn
made conn tx rx peer_static_key local_static_keypair = (
  ok (record {
    conn = conn;
    tx = tx;
    rx = rx;
    peer_static_key = peer_static_key;
    local_static_keypair = local_static_keypair;
  }),
  conn,
)

abbrev pub moved : Conn → List ℕ → List ℕ → Conn
moved c rest sent = record c { incoming = rest; outgoing = c.outgoing ++ sent }

-- Both sides made a session: what one side sent is what the other side was given, each knows the other's key,
-- and the cipher that one side sends with is in step with the one the other side receives with.
pub record IsAgreed {S K : Type 0} (noise : Noise S K) (Paired : K → K → Type 0)
    (ctx ctx' : Context) (ours theirs : KeyPair) (network_byte : ℕ) (a b : Conn)
    (rest rest' : List ℕ) : Type 0 where
  pub sent : List ℕ
  pub answer : List ℕ
  pub tx : K
  pub rx : K
  pub tx' : K
  pub rx' : K
  pub initiated :
      initiator_handshake noise ctx ours network_byte (record a { incoming = answer ++ rest })
      ≡ made (moved a rest sent) tx rx theirs.public_key ours
  pub responded :
      responder_handshake noise ctx' theirs (record b { incoming = sent ++ rest' })
      ≡ made (moved b rest' answer) tx' rx' ours.public_key theirs
  pub forward : Paired tx rx'
  pub backward : Paired tx' rx

written :
    (c : Conn) (payload : List ℕ)
    → c.writable ≡ true
    → length payload ≤ max_frame_length
    → write_frame payload c ≡ (ok tt, record c { outgoing = c.outgoing ++ framed payload })
written c payload w h = rw (write_frame_lem c payload w) (rw short refl)
  where
    short : ltb 65535 (length payload) ≡ false
    short = ground arith

-- All that the initiator sends.
abbrev sent_by_initiator : ℕ → List ℕ → List ℕ → List ℕ
sent_by_initiator network_byte msg1 msg3 = network_byte ∷ (framed msg1 ++ framed msg3)

sent_in_order :
    (before msg1 msg3 : List ℕ) (network_byte : ℕ)
    → ((before ++ (network_byte ∷ [])) ++ framed msg1) ++ framed msg3
      ≡ before ++ sent_by_initiator network_byte msg1 msg3
sent_in_order before msg1 msg3 network_byte =
    append_assoc (before ++ (network_byte ∷ [])) (framed msg1) (framed msg3)
    ∙ append_assoc before (network_byte ∷ []) (framed msg1 ++ framed msg3)

module _ {S K : Type 0} (noise : Noise S K) (Paired : K → K → Type 0) (ours theirs : KeyPair)
    (run : IsRun noise Paired tari_prologue ours theirs) where
  initiator_handshake_lem :
      (ctx : Context) (network_byte : ℕ) (a : Conn) (rest : List ℕ)
      → check_context ctx ≡ ok tt
      → length theirs.public_key ≡ 32
      → a.writable ≡ true
      → initiator_handshake noise ctx ours network_byte
          (record a { incoming = framed run.msg2 ++ rest })
        ≡ made
            (moved a rest (sent_by_initiator network_byte run.msg1 run.msg3))
            run.cs1
            run.cs2
            theirs.public_key
            ours
  unfolding initiator_handshake initiator_messages
  initiator_handshake_lem ctx network_byte a rest live l w = rw live (
      rw (conn_write_lem a0 (network_byte ∷ []) w) (
        rw run.initiator_starts (
          rw run.first (
            rw (written a1 run.msg1 w run.fits1) (
              rw (read_frame-framed a2 run.msg2 rest run.fits2) (
                rw run.second_read (
                  rw run.third (
                    rw (written a3 run.msg3 w run.fits3) (
                      rw run.initiator_knows (
                        rw l (
                          ap
                            (λ o.
                              made (record a { incoming = rest; outgoing = o }) run.cs1 run.cs2
                                theirs.public_key ours)
                            (sent_in_order a.outgoing run.msg1 run.msg3 network_byte))))))))))))
    where
      a0 : Conn
      a0 = record a { incoming = framed run.msg2 ++ rest }

      a1 : Conn
      a1 = record a0 { outgoing = a.outgoing ++ (network_byte ∷ []) }

      a2 : Conn
      a2 = record a1 { outgoing = a1.outgoing ++ framed run.msg1 }

      a3 : Conn
      a3 = record a2 { incoming = rest }

  responder_handshake_lem :
      (ctx : Context) (network_byte : ℕ) (b : Conn) (rest : List ℕ)
      → check_context ctx ≡ ok tt
      → (network_byte == live_wire_mode) ≡ false
      → length ours.public_key ≡ 32
      → b.writable ≡ true
      → responder_handshake noise ctx theirs
          (record b { incoming = sent_by_initiator network_byte run.msg1 run.msg3 ++ rest })
        ≡ made (moved b rest (framed run.msg2)) run.ds2 run.ds1 ours.public_key theirs
  unfolding responder_handshake responder_messages
  responder_handshake_lem ctx network_byte b rest live other l w = rw live (
      rw
        (conn_read_full_lem b ((framed run.msg1 ++ framed run.msg3) ++ rest) (network_byte ∷ []) 1
          refl)
        (rw other (
          rw run.responder_starts (
            rw (append_assoc (framed run.msg1) (framed run.msg3) rest) (
              rw (read_frame-framed b run.msg1 (framed run.msg3 ++ rest) run.fits1) (
                rw run.first_read (
                  rw run.second (
                    rw (written b1 run.msg2 w run.fits2) (
                      rw (read_frame-framed b2 run.msg3 rest run.fits3)
                        (rw run.third_read (rw run.responder_knows (rw l refl))))))))))))
    where
      b1 : Conn
      b1 = record b { incoming = framed run.msg3 ++ rest }

      b2 : Conn
      b2 = record b1 { outgoing = b.outgoing ++ framed run.msg2 }

module _ {Scalar Point S K : Type 0} (group : Ristretto Scalar Point) (group_law : IsGroup group)
    (blake2b_256 : List ℕ → List ℕ) (noise : Noise S K) (Paired : K → K → Type 0)
    (law : IsNoise group blake2b_256 noise Paired) where
  -- Given the laws of the group and the library's description of a run, which completes for key pairs that the
  -- program's own `DH` takes: on two connections that can be written to, with two contexts that are not done, key pairs that `GenerateKeypair` made, and a network byte that
  -- is not the one for liveness, both sides finish, each on what the other one sent. Their sessions hold
  -- each other's public keys, and in each direction the sender's cipher is in step with the receiver's. What
  -- follows on either connection is left there.
  pub handshake_agreement :
      (ctx ctx' : Context) (random random' : Option (List ℕ)) (system system' : List ℕ)
      (ours theirs : KeyPair) (network_byte : ℕ) (a b : Conn) (rest rest' : List ℕ)
      → check_context ctx ≡ ok tt
      → check_context ctx' ≡ ok tt
      → (network_byte == live_wire_mode) ≡ false
      → generate_keypair group random system ≡ ok ours
      → generate_keypair group random' system' ≡ ok theirs
      → a.writable ≡ true
      → b.writable ≡ true
      → IsAgreed noise Paired ctx ctx' ours theirs network_byte a b rest rest'
  handshake_agreement ctx ctx' random random' system system' ours theirs network_byte a b rest rest'
        h h' other made_ours made_theirs w w' =
      let u = generated-Suits group group_law blake2b_256 random system ours made_ours in
      let u' = generated-Suits group group_law blake2b_256 random' system' theirs made_theirs in
      let run = law.completes tari_prologue ours theirs u u' in
      record {
        sent = sent_by_initiator network_byte run.msg1 run.msg3;
        answer = framed run.msg2;
        tx = run.cs1;
        rx = run.cs2;
        tx' = run.ds2;
        rx' = run.ds1;
        initiated =
            initiator_handshake_lem noise Paired ours theirs run ctx network_byte a rest h u'.size
              w;
        responded =
            responder_handshake_lem noise Paired ours theirs run ctx' network_byte b rest' h' other
              u.size w';
        forward = run.forward;
        backward = run.backward;
      }
