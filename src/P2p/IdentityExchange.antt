-- ===== src/P2p/IdentityExchange.antt =====
-- p2p/session.go: `ExchangeIdentityWithOptions`, its two goroutines and the loop that waits for them as a step
-- relation; p2p/identity.go: the message that it sends.
pub mod Invariant
pub mod Outcome
pub mod Verified
use go_tari_lib.Common.{ℕ, suc, ◌≡◌, ◌⊎◌, Bool, true, false, Option, some, none, List, [], ◌∷◌}
use go_tari_lib.Common.Result.{Result, ok, err, ◌>>=◌, some_or_fail}
use go_tari_lib.P2p.Errors.{Error, context_done, identity_not_marshalled}
use go_tari_lib.P2p.Ristretto.{Ristretto, KeyPair}
use go_tari_lib.P2p.Rpc.Messages.{Codec, IdentitySignature}
use go_tari_lib.P2p.IdentitySignature.{build_our_identity_signature}
use go_tari_lib.P2p.Identity.{
  PeerIdentityMsg, PeerInfo, encode_identity_protocol_frame, decode_identity_protocol_frame,
}
use go_tari_lib.P2p.Session.{Cipher, Session, send_frame, receive_frame}

-- "go-tari-lib-p2p-probe/0.1"
abbrev pub outgoing_user_agent : List ℕ
outgoing_user_agent =
    103 ∷ 111 ∷ 45 ∷ 116 ∷ 97 ∷ 114 ∷ 105 ∷ 45 ∷ 108 ∷ 105 ∷ 98 ∷ 45 ∷ 112 ∷ 50 ∷ 112 ∷ 45 ∷ 112
    ∷ 114 ∷ 111 ∷ 98 ∷ 101 ∷ 47 ∷ 48 ∷ 46 ∷ 49 ∷ []

abbrev pub features_communication_node : ℕ
features_communication_node = 3

pub record IdentityOptions : Type 0 where
  pub features : ℕ
  pub addresses : List (List ℕ)

-- `ExchangeIdentity` takes none.
abbrev pub no_options : IdentityOptions
no_options = record { features = 0; addresses = [] }

abbrev pub our_message : ℕ → List (List ℕ) → IdentitySignature → PeerIdentityMsg
our_message features addresses sig = record {
  addresses = addresses;
  features = features;
  supported_protocols = [];
  user_agent = outgoing_user_agent;
  identity_signature = some sig;
}

module _ {Scalar Point : Type 0} (group : Ristretto Scalar Point) (blake2b_512 : List ℕ → List ℕ)
    (codec : Codec PeerIdentityMsg) where
  -- The nonce's keys and the time are what the generator and the clock gave.
  unfoldable pub our_peer_identity_msg_bytes :
      KeyPair → KeyPair → ℕ → ℕ → List (List ℕ) → Result Error (List ℕ)
  our_peer_identity_msg_bytes static_keypair nonce_keypair updated_at features addresses = do
    sig ←
        build_our_identity_signature group blake2b_512 static_keypair nonce_keypair updated_at
          features addresses
    some_or_fail (codec.marshal (our_message features addresses sig)) identity_not_marshalled

  unfoldable pub outgoing_frame : KeyPair → KeyPair → ℕ → IdentityOptions → Result Error (List ℕ)
  outgoing_frame static_keypair nonce_keypair updated_at opts = do
    our_msg_bytes ←
        our_peer_identity_msg_bytes static_keypair nonce_keypair updated_at opts.features
          opts.addresses
    encode_identity_protocol_frame our_msg_bytes

-- A goroutine that has yet to run, whose result is in its channel, or whose result was taken out of it.
pub data Half (A : Type 0) : Type 0 where
  pending : Half A
  in_channel : A → Half A
  taken : Half A

pub record Exchange (K : Type 0) : Type 0 where
  pub session : Session K
  pub sender : Half (Result Error Unit)
  pub receiver : Half (Result Error PeerInfo)
  pub send_done : Bool
  pub recv_result : Option PeerInfo
  pub expired : Bool
  pub outcome : Option (Result Error PeerInfo)

module _ {K : Type 0} where
  abbrev pub begun : Session K → Exchange K
  begun session = record {
    session = session;
    sender = pending;
    receiver = pending;
    send_done = false;
    recv_result = none;
    expired = false;
    outcome = none;
  }

  -- `!recvDone || !sendDone`, before anything was returned
  abbrev pub Waiting : Exchange K → Type 0
  Waiting x = (x.outcome ≡ none) × ((x.send_done ≡ false) ⊎ (x.recv_result ≡ none))

abbrev pub identified : List ℕ → PeerInfo → PeerInfo
identified peer_static_key info = record info {
  reachable = true;
  remote_static_pub_key = peer_static_key;
}

module _ {K : Type 0} (cipher : Cipher K) (codec : Codec PeerIdentityMsg) (frame : List ℕ) where
  abbrev pub after_send : Exchange K → Exchange K
  after_send x =
      let (r, session) = send_frame cipher frame x.session in
      record x { session = session; sender = in_channel r }

  abbrev pub after_receive : Exchange K → Exchange K
  after_receive x =
      let (r, session) = receive_frame cipher x.session in
      record x {
        session = session;
        receiver = in_channel (r >>= decode_identity_protocol_frame codec);
      }

  -- The goroutines, the three cases of the select, and the return behind the loop.
  pub data Step (x : Exchange K) : Exchange K → Type 0 where
    send : x.sender ≡ pending → Step x (after_send x)
    receive : x.receiver ≡ pending → Step x (after_receive x)
    select_done :
        Waiting x → x.expired ≡ true → Step x (record x { outcome = some (err context_done) })
    select_sent :
        Waiting x
        → x.sender ≡ in_channel (ok tt)
        → Step x (record x { sender = taken; send_done = true })
    select_send_failed :
        (e : Error)
        → Waiting x
        → x.sender ≡ in_channel (err e)
        → Step x (record x { sender = taken; send_done = true; outcome = some (err e) })
    select_received :
        (info : PeerInfo)
        → Waiting x
        → x.receiver ≡ in_channel (ok info)
        → Step x (record x { receiver = taken; recv_result = some info })
    select_receive_failed :
        (e : Error)
        → Waiting x
        → x.receiver ≡ in_channel (err e)
        → Step x (record x { receiver = taken; outcome = some (err e) })
    finish :
        (info : PeerInfo)
        → x.outcome ≡ none
        → x.send_done ≡ true
        → x.recv_result ≡ some info
        → Step x (record x { outcome = some (ok (identified x.session.peer_static_key info)) })

  -- States that are reached by so many steps. The context may be done at any time, by its deadline, which is
  -- 10 seconds away if the caller set none.
  pub data Reach (x : Exchange K) : ℕ → Exchange K → Type 0 where
    here : Reach x 0 x
    step : {n : ℕ} {y z : Exchange K} → Reach x n y → Step y z → Reach x (suc n) z
    expire : {n : ℕ} {y : Exchange K} → Reach x n y → Reach x n (record y { expired = true })
