-- ===== src/P2p/IdentityExchange/Invariant.antt =====
-- p2p/session.go: what every interleaving of an identity exchange keeps, when the frame can be sent and the
-- peer's frame is there.
use mathlib.Core.Path.{subst}
use go_tari_lib.Common.{
  ℕ, ◌≤◌, ◌≡◌, refl, sym, ap, ◌∙◌, Bool, true, false, Option, some, none, List, ◌++◌, length,
}
use go_tari_lib.Common.Result.{Result, ok, err, ◌>>=◌, ok-injective}
use go_tari_lib.P2p.Errors.{Error, context_done}
use go_tari_lib.P2p.Rpc.Messages.{Codec}
use go_tari_lib.P2p.Frame.{framed, max_frame_length}
use go_tari_lib.P2p.Identity.{PeerIdentityMsg, PeerInfo, decode_identity_protocol_frame}
use go_tari_lib.P2p.Session.{Cipher, Session, receive_frame, send_frame_lem, receive_frame_lem}
use go_tari_lib.P2p.IdentityExchange.{
  Half, pending, in_channel, taken, Exchange, begun, identified, after_send, after_receive, Step,
  send, receive, select_done, select_sent, select_send_failed, select_received,
  select_receive_failed, finish, Reach, here, step, expire,
}

-- The frame encrypts to what fits in a frame of the connection, which can be written to, and what arrives first
-- decrypts to a frame that decodes to what the peer says of itself.
pub record IsReady {K : Type 0} (cipher : Cipher K) (codec : Codec PeerIdentityMsg) (frame : List ℕ)
    (s : Session K) (info : PeerInfo) : Type 0 where
  pub ciphertext : List ℕ
  pub tx' : K
  pub encrypts : cipher.encrypt s.tx frame ≡ some (ciphertext, tx')
  pub fits : length ciphertext ≤ max_frame_length
  pub writable : s.conn.writable ≡ true
  pub arriving : List ℕ
  pub rest : List ℕ
  pub plaintext : List ℕ
  pub rx' : K
  pub arrives : s.conn.incoming ≡ framed arriving ++ rest
  pub arriving_fits : length arriving ≤ max_frame_length
  pub decrypts : cipher.decrypt s.rx arriving ≡ some (plaintext, rx')
  pub decodes : decode_identity_protocol_frame codec plaintext ≡ ok info

-- What the peer says of itself, marked as reachable and with this key.
abbrev pub the_peer : List ℕ → PeerInfo → PeerInfo
the_peer key info = record {
  reachable = true;
  remote_static_pub_key = key;
  addresses = info.addresses;
  features = info.features;
  supported_protocols = info.supported_protocols;
  user_agent = info.user_agent;
  identity_signature = info.identity_signature;
}

some_is_none : (i : PeerInfo) → ◌≡◌ {A = Option PeerInfo} (some i) none → ⊥
some_is_none i h = cc

same_info : (i j : PeerInfo) → ◌≡◌ {A = Option PeerInfo} (some i) (some j) → i ≡ j
same_info i j h = cc

error_is_ok {ℓ} : {A : Type ℓ} → (e : Error) (a : A) → ◌≡◌ {A = Result Error A} (err e) (ok a) → ⊥
error_is_ok e a h = cc

module _ {K : Type 0} (s : Session K) (info : PeerInfo) where
  abbrev pub IsSending : Half (Result Error Unit) → Bool → Session K → Type 0
  IsSending pending d t = (d ≡ false) × (t.tx ≡ s.tx) × (t.conn.writable ≡ true)
  IsSending (in_channel r) d t = (d ≡ false) × (r ≡ ok tt)
  IsSending taken d t = d ≡ true

  abbrev pub IsReceiving : Half (Result Error PeerInfo) → Option PeerInfo → Session K → Type 0
  IsReceiving pending o t = (o ≡ none) × (t.rx ≡ s.rx) × (t.conn.incoming ≡ s.conn.incoming)
  IsReceiving (in_channel r) o t = (o ≡ none) × (r ≡ ok info)
  IsReceiving taken o t = o ≡ some info

  -- Nothing was returned, or the peer's identity, or the context's error and then it is done.
  abbrev pub IsOutcome : Option (Result Error PeerInfo) → Bool → Type 0
  IsOutcome none expired = Unit
  IsOutcome (some (ok i)) expired = i ≡ the_peer s.peer_static_key info
  IsOutcome (some (err e)) expired = (e ≡ context_done) × (expired ≡ true)

  pub record IsGood (x : Exchange K) : Type 0 where
    pub same_key : x.session.peer_static_key ≡ s.peer_static_key
    pub sending : IsSending x.sender x.send_done x.session
    pub receiving : IsReceiving x.receiver x.recv_result x.session
    pub good_outcome : IsOutcome x.outcome x.expired

  -- What the other goroutine leaves as it was.
  IsReceiving-kept :
      (h : Half (Result Error PeerInfo)) (o : Option PeerInfo) (t u : Session K)
      → u.rx ≡ t.rx
      → u.conn.incoming ≡ t.conn.incoming
      → IsReceiving h o t
      → IsReceiving h o u
  IsReceiving-kept pending o t u e i (n, r, a) = (n, e ∙ r, i ∙ a)
  IsReceiving-kept (in_channel r) o t u e i h = h
  IsReceiving-kept taken o t u e i h = h

  IsSending-kept :
      (h : Half (Result Error Unit)) (d : Bool) (t u : Session K)
      → u.tx ≡ t.tx
      → u.conn.writable ≡ t.conn.writable
      → IsSending h d t
      → IsSending h d u
  IsSending-kept pending d t u e i (n, r, a) = (n, e ∙ r, i ∙ a)
  IsSending-kept (in_channel r) d t u e i h = h
  IsSending-kept taken d t u e i h = h

  IsOutcome-expired :
      (o : Option (Result Error PeerInfo)) (b : Bool) → IsOutcome o b → IsOutcome o true
  IsOutcome-expired none b h = tt
  IsOutcome-expired (some (ok i)) b h = h
  IsOutcome-expired (some (err e)) b (h, k) = (h, refl)

module _ {K : Type 0} (cipher : Cipher K) (codec : Codec PeerIdentityMsg) (frame : List ℕ)
    (s : Session K) (info : PeerInfo) (ready : IsReady cipher codec frame s info) where
  send-IsGood :
      (x : Exchange K)
      → IsGood s info x
      → x.sender ≡ pending
      → IsGood s info (after_send cipher codec frame x)
  send-IsGood x good h =
      let (not_done, tx, w) : IsSending s info pending x.send_done x.session =
        subst (λ p. IsSending s info p x.send_done x.session) h good.sending in
      let sent =
        send_frame_lem cipher x.session frame ready.ciphertext ready.tx' w
          (ap (λ k. cipher.encrypt k frame) tx ∙ ready.encrypts) ready.fits in
      subst (λ p. IsGood s info (record x { session = p.1; sender = in_channel p.0 })) (sym sent)
        (record {
          same_key = good.same_key;
          sending = (not_done, refl);
          receiving =
              IsReceiving-kept s info x.receiver x.recv_result x.session
                (record x.session {
                  conn = record x.session.conn {
                    outgoing = x.session.conn.outgoing ++ framed ready.ciphertext;
                  };
                  tx = ready.tx';
                })
                refl refl good.receiving;
          good_outcome = good.good_outcome;
        })

  receive-IsGood :
      (x : Exchange K)
      → IsGood s info x
      → x.receiver ≡ pending
      → IsGood s info (after_receive cipher codec frame x)
  receive-IsGood x good h =
      let (nothing, rx, i) : IsReceiving s info pending x.recv_result x.session =
        subst (λ p. IsReceiving s info p x.recv_result x.session) h good.receiving in
      let received =
        ap
          (λ q.
            receive_frame cipher
              (record x.session { conn = record x.session.conn { incoming = q } }))
          (i ∙ ready.arrives)
        ∙ receive_frame_lem cipher x.session ready.plaintext ready.arriving ready.rest ready.rx'
            (ap (λ k. cipher.decrypt k ready.arriving) rx ∙ ready.decrypts) ready.arriving_fits in
      subst
        (λ p. IsGood s info (record x {
          session = p.1;
          receiver = in_channel (p.0 >>= decode_identity_protocol_frame codec);
        }))
        (sym received)
        (record {
          same_key = good.same_key;
          sending =
              IsSending-kept s info x.sender x.send_done x.session
                (record x.session {
                  conn = record x.session.conn { incoming = ready.rest };
                  rx = ready.rx';
                })
                refl refl good.sending;
          receiving = (nothing, ready.decodes);
          good_outcome = good.good_outcome;
        })

  select_sent-IsGood :
      (x : Exchange K) (r : Result Error Unit)
      → IsGood s info x
      → x.sender ≡ in_channel r
      → (r ≡ ok tt) × IsGood s info (record x { sender = taken; send_done = true })
  select_sent-IsGood x r good h =
      let (not_done, fine) : IsSending s info (in_channel r) x.send_done x.session =
        subst (λ p. IsSending s info p x.send_done x.session) h good.sending in
      (
        fine,
        record {
          same_key = good.same_key;
          sending = refl;
          receiving = good.receiving;
          good_outcome = good.good_outcome;
        },
      )

  select_received-IsGood :
      (x : Exchange K) (r : Result Error PeerInfo)
      → IsGood s info x
      → x.receiver ≡ in_channel r
      → (r ≡ ok info) × IsGood s info (record x { receiver = taken; recv_result = some info })
  select_received-IsGood x r good h =
      let (nothing, fine) : IsReceiving s info (in_channel r) x.recv_result x.session =
        subst (λ p. IsReceiving s info p x.recv_result x.session) h good.receiving in
      (
        fine,
        record {
          same_key = good.same_key;
          sending = good.sending;
          receiving = refl;
          good_outcome = good.good_outcome;
        },
      )

  received_info :
      (h : Half (Result Error PeerInfo)) (o : Option PeerInfo) (t : Session K) (i : PeerInfo)
      → IsReceiving s info h o t
      → o ≡ some i
      → i ≡ info
  received_info pending o t i (n, r, a) e = absurd (some_is_none i (sym e ∙ n))
  received_info (in_channel r) o t i (n, a) e = absurd (some_is_none i (sym e ∙ n))
  received_info taken o t i h e = same_info i info (sym e ∙ h)

  finish-IsGood :
      (x : Exchange K) (i : PeerInfo)
      → IsGood s info x
      → x.recv_result ≡ some i
      → IsGood s info (record x { outcome = some (ok (identified x.session.peer_static_key i)) })
  finish-IsGood x i good h = record {
    same_key = good.same_key;
    sending = good.sending;
    receiving = good.receiving;
    good_outcome =
        ap (λ k. identified k i) good.same_key
        ∙ ap (identified s.peer_static_key)
            (received_info x.receiver x.recv_result x.session i good.receiving h);
  }

  Step-IsGood : (x y : Exchange K) → IsGood s info x → Step cipher codec frame x y → IsGood s info y
  Step-IsGood x _ good (send h) = send-IsGood x good h
  Step-IsGood x _ good (receive h) = receive-IsGood x good h
  Step-IsGood x _ good (select_done w e) = record {
    same_key = good.same_key;
    sending = good.sending;
    receiving = good.receiving;
    good_outcome = (refl, e);
  }
  Step-IsGood x _ good (select_sent w h) = (select_sent-IsGood x (ok tt) good h).1
  Step-IsGood x _ good (select_send_failed e w h) =
      absurd (error_is_ok e tt (select_sent-IsGood x (err e) good h).0)
  Step-IsGood x _ good (select_received i w h) =
      let (same, good') = select_received-IsGood x (ok i) good h in
      subst (λ j. IsGood s info (record x { receiver = taken; recv_result = some j }))
        (sym (ok-injective i info same)) good'
  Step-IsGood x _ good (select_receive_failed e w h) =
      absurd (error_is_ok e info (select_received-IsGood x (err e) good h).0)
  Step-IsGood x _ good (finish i n d r) = finish-IsGood x i good r

  begun-IsGood : IsGood s info (begun s)
  begun-IsGood = record {
    same_key = refl;
    sending = (refl, refl, ready.writable);
    receiving = (refl, refl, refl);
    good_outcome = tt;
  }

  pub Reach-IsGood :
      (n : ℕ) (x : Exchange K) → Reach cipher codec frame (begun s) n x → IsGood s info x
  Reach-IsGood _ _ here = begun-IsGood
  Reach-IsGood _ z (step {n} {y} r taken_step) = Step-IsGood y z (Reach-IsGood n y r) taken_step
  Reach-IsGood n _ (expire {y} r) =
      let good = Reach-IsGood n y r in
      record {
        same_key = good.same_key;
        sending = good.sending;
        receiving = good.receiving;
        good_outcome = IsOutcome-expired s info y.outcome y.expired good.good_outcome;
      }
