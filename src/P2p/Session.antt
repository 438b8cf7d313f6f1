-- ===== src/P2p/Session.antt =====
-- p2p/session.go: frames over the connection, encrypted. The cipher states are those of
-- github.com/flynn/noise, a parameter.
use go_tari_lib.Common.{
  ℕ, zero, suc, ◌+◌, ◌≤◌, ◌≡◌, refl, sym, ap, ◌∙◌, true, false, Option, some, none, List, [], ◌∷◌,
  ◌++◌, length, All, append_assoc, append-nil, ltb, arith,
}
use go_tari_lib.Common.Result.{Result, ok, err}
use go_tari_lib.Common.Action.{Action, ◌>>=◌, ◌>>◌, pure}
use go_tari_lib.P2p.Errors.{Error, encrypt_failed, decrypt_failed}
use go_tari_lib.P2p.Ristretto.{KeyPair}
use go_tari_lib.P2p.Frame.{
  Conn, write_frame, read_frame, write_frame_lem, read_frame-framed, read_frame_takes,
  max_frame_length, framed,
}

-- `noise.CipherState`: what is encrypted or decrypted, and the state after it.
pub record Cipher (K : Type 0) : Type 0 where
  pub encrypt : K → List ℕ → Option (List ℕ × K)
  pub decrypt : K → List ℕ → Option (List ℕ × K)

pub record Session (K : Type 0) : Type 0 where
  pub conn : Conn
  pub tx : K
  pub rx : K
  pub peer_static_key : List ℕ
  pub local_static_keypair : KeyPair

module _ {K : Type 0} (cipher : Cipher K) where
  unfoldable pub send_frame : List ℕ → Action (Session K) Error Unit
  send_frame plaintext s = elim (cipher.encrypt s.tx plaintext) [
    | none ↦ (err encrypt_failed, s)
    | some (ciphertext, tx) ↦
        let (r, conn) = write_frame ciphertext s.conn in (r, record s { conn = conn; tx = tx })
  ]

  abbrev decrypted : Session K → Result Error (List ℕ) → Result Error (List ℕ) × Session K
  decrypted s (err e) = (err e, s)
  decrypted s (ok ciphertext) = elim (cipher.decrypt s.rx ciphertext) [
    | none ↦ (err decrypt_failed, s)
    | some (plaintext, rx) ↦ (ok plaintext, record s { rx = rx })
  ]

  unfoldable pub receive_frame : Action (Session K) Error (List ℕ)
  receive_frame s = let (r, conn) = read_frame s.conn in decrypted (record s { conn = conn }) r

-- The longest plaintext that fits in a frame with the 16 bytes of its authentication tag.
abbrev pub max_plaintext_length : ℕ
max_plaintext_length = 65519

-- What the package documents of the two ends of one direction: as long as they are in step, what one
-- encrypts fits in a frame, the other decrypts it to what it was, and they are in step again.
pub record IsInStep {K : Type 0} (cipher : Cipher K) (Paired : K → K → Type 0) : Type 0 where
  pub in_step :
      (tx rx : K) (m : List ℕ)
      → Paired tx rx
      → length m ≤ max_plaintext_length
      → (c : List ℕ) × (tx' : K) × (rx' : K) × (cipher.encrypt tx m ≡ some (c, tx'))
        × (cipher.decrypt rx c ≡ some (m, rx'))
        × (length c ≤ max_frame_length)
        × Paired tx' rx'

abbrev pub Fits : List ℕ → Type 0
Fits m = length m ≤ max_plaintext_length

module _ {K : Type 0} (cipher : Cipher K) where
  abbrev pub send_frames : List (List ℕ) → Action (Session K) Error Unit
  send_frames [] = pure tt
  send_frames (m ∷ ms) = send_frame cipher m >> send_frames ms

  abbrev pub receive_frames : ℕ → Action (Session K) Error (List (List ℕ))
  receive_frames zero = pure []
  receive_frames (suc n) = do m ← receive_frame cipher; ms ← receive_frames n; pure (m ∷ ms)

  -- What becomes of the messages that `a` sends, where `b` is the other end.
  pub record IsDelivered (Paired : K → K → Type 0) (a b : Session K) (ms : List (List ℕ))
      (rest : List ℕ) : Type 0 where
    pub wire : List ℕ
    pub tx' : K
    pub rx' : K
    pub sent : send_frames ms a ≡ (
      ok tt,
      record a { conn = record a.conn { outgoing = a.conn.outgoing ++ wire }; tx = tx' },
    )
    pub received :
        receive_frames (length ms) (record b { conn = record b.conn { incoming = wire ++ rest } })
        ≡ (ok ms, record b { conn = record b.conn { incoming = rest }; rx = rx' })
    pub paired : Paired tx' rx'

module _ {K : Type 0} (cipher : Cipher K) where
  pub send_frame_lem :
      (a : Session K) (m c : List ℕ) (tx' : K)
      → a.conn.writable ≡ true
      → cipher.encrypt a.tx m ≡ some (c, tx')
      → length c ≤ max_frame_length
      → send_frame cipher m a ≡ (
        ok tt,
        record a { conn = record a.conn { outgoing = a.conn.outgoing ++ framed c }; tx = tx' },
      )
  unfolding send_frame
  send_frame_lem a m c tx' w e l =
      rw (e, send_frame) (rw (write_frame_lem a.conn c w) (rw short refl))
    where
      short : ltb 65535 (length c) ≡ false
      short = ground arith

  pub receive_frame_lem :
      (b : Session K) (m c rest : List ℕ) (rx' : K)
      → cipher.decrypt b.rx c ≡ some (m, rx')
      → length c ≤ max_frame_length
      → receive_frame cipher (record b { conn = record b.conn { incoming = framed c ++ rest } })
        ≡ (ok m, record b { conn = record b.conn { incoming = rest }; rx = rx' })
  unfolding receive_frame
  receive_frame_lem b m c rest rx' d l =
      rw (read_frame-framed b.conn c rest l) (rw (d, decrypted) refl)

module _ {K : Type 0} (cipher : Cipher K) (Paired : K → K → Type 0)
    (law : IsInStep cipher Paired) where
  -- Given two ends whose ciphers are in step: any messages that fit in frames, sent by one end over a
  -- connection that can be written to, are received by the other end in their order, whatever follows
  -- them on the connection, and the ciphers are in step again.
  pub send_frames-IsDelivered :
      (a b : Session K) (ms : List (List ℕ)) (rest : List ℕ)
      → Paired a.tx b.rx
      → All Fits ms
      → a.conn.writable ≡ true
      → IsDelivered cipher Paired a b ms rest
  send_frames-IsDelivered a b [] rest p h w = record {
    wire = [];
    tx' = a.tx;
    rx' = b.rx;
    sent =
        ap (λ o. (ok tt, record a { conn = record a.conn { outgoing = o } }))
          (sym (append-nil a.conn.outgoing));
    received = refl;
    paired = p;
  }
  send_frames-IsDelivered a b (m ∷ ms) rest p (l, h) w =
      let (c, tx', rx', e, d, short, p') = law.in_step a.tx b.rx m p l in
      let a' : Session K = record a {
        conn = record a.conn { outgoing = a.conn.outgoing ++ framed c };
        tx = tx';
      } in
      let b' : Session K = record b { rx = rx' } in
      let later = send_frames-IsDelivered a' b' ms rest p' h w in
      record {
        wire = framed c ++ later.wire;
        tx' = later.tx';
        rx' = later.rx';
        sent = rw (send_frame_lem cipher a m c tx' w e short) (
            later.sent
            ∙ ap (λ o. (ok tt, record a { conn = record a.conn { outgoing = o }; tx = later.tx' }))
                (append_assoc a.conn.outgoing (framed c) later.wire));
        received =
            ap
              (λ i.
                receive_frames cipher (suc (length ms))
                  (record b { conn = record b.conn { incoming = i } }))
              (append_assoc (framed c) later.wire rest)
            ∙ rw (receive_frame_lem cipher b m c (later.wire ++ rest) rx' d short)
                (rw later.received refl);
        paired = later.paired;
      }

-- A frame that is received takes two bytes off the connection at least.
module _ {K : Type 0} (cipher : Cipher K) where
  decrypted_conn :
      (s s' : Session K) (r : Result Error (List ℕ)) (m : List ℕ)
      → decrypted cipher s r ≡ (ok m, s')
      → (c : List ℕ) × (r ≡ ok c) × (s'.conn ≡ s.conn)
  decrypted_conn s s' (err e) m h = absurd (clash h)
    where
      clash : ◌≡◌ {A = Result Error (List ℕ) × Session K} (err e, s) (ok m, s') → ⊥
      clash k = cc
  decrypted_conn s s' (ok c) m h = (c, refl, by_option (cipher.decrypt s.rx c) h)
    where
      by_option :
          (o : Option (List ℕ × K))
          → ◌≡◌ {A = Result Error (List ℕ) × Session K}
              (elim o [
                | none ↦ (err decrypt_failed, s)
                | some (plaintext, rx) ↦ (ok plaintext, record s { rx = rx })
              ])
              (ok m, s')
          → s'.conn ≡ s.conn
      by_option none k = absurd (clash k)
        where
          clash : ◌≡◌ {A = Result Error (List ℕ) × Session K} (err decrypt_failed, s) (ok m, s') → ⊥
          clash k = cc
      by_option (some (plaintext, rx)) k = sym (ap (λ p. p.1.conn) k)

  pub receive_frame_takes :
      (s s' : Session K) (m : List ℕ)
      → receive_frame cipher s ≡ (ok m, s')
      → length s'.conn.incoming + 2 ≤ length s.conn.incoming
  unfolding receive_frame
  receive_frame_takes s s' m h =
      let (c, e, k) =
        decrypted_conn (record s { conn = (read_frame s.conn).1 }) s' (read_frame s.conn).0 m h in
      omega (
        arith,
        read_frame_takes s.conn (read_frame s.conn).1 c (ap (λ r. (r, (read_frame s.conn).1)) e),
        ap (λ d. length d.incoming) k,
      )
