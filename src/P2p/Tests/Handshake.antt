-- ===== src/P2p/Tests/Handshake.antt =====
-- Concrete runs of p2p/handshake.go and p2p/ristretto_dh.go, with stand-ins for the noise library and the group.
use go_tari_lib.Common.{
  ℕ, ◌≡◌, refl, Bool, true, false, Option, some, none, List, [], ◌∷◌, ◌++◌, arith, replicate,
}
use go_tari_lib.Common.Result.{Result, ok, err}
use go_tari_lib.P2p.Errors.{Error}
use go_tari_lib.P2p.Ristretto.{KeyPair, key_pair}
use go_tari_lib.P2p.RistrettoDh.{generate_keypair, dh, dh-generate_keypair}
use go_tari_lib.P2p.Session.{Session, IsDelivered}
use go_tari_lib.P2p.Handshake.{
  Noise, Config, live, no_context, check_context, initiator_handshake, responder_handshake,
}
use go_tari_lib.P2p.Handshake.Agreement.{
  Suits, IsRun, IsNoise, IsAgreed, handshake_agreement, moved,
}
use go_tari_lib.P2p.Handshake.Sessions.{handshake-IsDelivered}
use go_tari_lib.P2p.Tests.Session.{bits, bits-IsGroup, counter, Same, counter-IsInStep, open_conn}

dh-generate_keypair_example :
    (ours : KeyPair) × (theirs : KeyPair) × (shared : List ℕ) × (generate_keypair bits
        (some (replicate 64 1))
        []
      ≡ ok ours)
    × (generate_keypair bits (some (replicate 70 2)) [] ≡ ok theirs)
    × (dh bits (λ b. b) ours.private_key theirs.public_key ≡ ok shared)
    × (dh bits (λ b. b) theirs.private_key ours.public_key ≡ ok shared)
dh-generate_keypair_example =
    dh-generate_keypair bits bits-IsGroup (λ b. b) (replicate 64 1) (replicate 70 2) []
      (omega arith) (omega arith)

-- A handshake in the clear: the first message is empty, the other two are the public keys.
pub data Phase : Type 0 where
  calling called told waiting asked answered finished : Phase

pub record Toy : Type 0 where
  phase : Phase
  own : List ℕ
  peer : List ℕ

-- A state is made only for a private key that `DH` takes.
abbrev toy_begin : Config → Result Error (List ℕ) → Option Toy
toy_begin config (err e) = none
toy_begin config (ok secret) = some (record {
  phase = elim config.initiator [ true ↦ calling | false ↦ waiting ];
  own = config.static_keypair.public_key;
  peer = [];
})

abbrev toy_start : Config → Option Toy
toy_start config =
    toy_begin config
      (dh bits (λ b. b) config.static_keypair.private_key (key_pair bits true).public_key)

abbrev toy_write : Phase → Toy → Option (List ℕ × Option ℕ × Option ℕ × Toy)
toy_write calling s = some ([], none, none, record s { phase = called })
toy_write asked s = some (s.own, none, none, record s { phase = answered })
toy_write told s = some (s.own, some 0, some 0, record s { phase = finished })
toy_write p s = none

abbrev toy_read : Phase → Toy → List ℕ → Option (Option ℕ × Option ℕ × Toy)
toy_read waiting s m = some (none, none, record s { phase = asked })
toy_read called s m = some (none, none, record s { phase = told; peer = m })
toy_read answered s m = some (some 0, some 0, record s { phase = finished; peer = m })
toy_read p s m = none

abbrev pub toy : Noise Toy ℕ
toy = record {
  new_handshake_state = toy_start;
  write_message = λ s. toy_write s.phase s;
  read_message = λ s m. toy_read s.phase s m;
  peer_static = λ s. s.peer;
}

abbrev toy_at : Phase → List ℕ → List ℕ → Toy
toy_at phase own peer = record { phase = phase; own = own; peer = peer }

abbrev toy_run :
    (prologue : List ℕ) (ours theirs : KeyPair)
    → Suits bits (λ b. b) ours
    → Suits bits (λ b. b) theirs
    → IsRun toy Same prologue ours theirs
toy_run prologue ours theirs u u' = record {
  s0 = toy_at calling ours.public_key [];
  s1 = toy_at called ours.public_key [];
  s2 = toy_at told ours.public_key theirs.public_key;
  s3 = toy_at finished ours.public_key theirs.public_key;
  t0 = toy_at waiting theirs.public_key [];
  t1 = toy_at asked theirs.public_key [];
  t2 = toy_at answered theirs.public_key [];
  t3 = toy_at finished theirs.public_key ours.public_key;
  msg1 = [];
  msg2 = theirs.public_key;
  msg3 = ours.public_key;
  cs1 = 0;
  cs2 = 0;
  ds1 = 0;
  ds2 = 0;
  initiator_starts = starts true ours u;
  responder_starts = starts false theirs u';
  first = refl;
  first_read = refl;
  second = refl;
  second_read = refl;
  third = refl;
  third_read = refl;
  fits1 = omega arith;
  fits2 = omega (arith, u'.size);
  fits3 = omega (arith, u.size);
  initiator_knows = refl;
  responder_knows = refl;
  forward = refl;
  backward = refl;
}
  where
    starts :
        (b : Bool) (keys : KeyPair)
        → Suits bits (λ b. b) keys
        → toy_start (record { initiator = b; prologue = prologue; static_keypair = keys })
          ≡ some (toy_at (elim b [ true ↦ calling | false ↦ waiting ]) keys.public_key [])
    starts b keys v = let (secret, here, there) = v.exchanges true in rw here refl

abbrev toy-IsNoise : IsNoise bits (λ b. b) toy Same
toy-IsNoise = record { completes = toy_run }

-- The key pair of 64 random bytes.
abbrev some_keys : KeyPair
some_keys = key_pair bits true

generated : generate_keypair bits (some (replicate 64 1)) [] ≡ ok some_keys
unfolding generate_keypair
generated = refl

handshake_agreement_example :
    IsAgreed toy Same live no_context some_keys some_keys 82 open_conn open_conn (5 ∷ []) []
unfolding check_context
handshake_agreement_example =
    handshake_agreement bits bits-IsGroup (λ b. b) toy Same toy-IsNoise live no_context
      (some (replicate 64 1)) (some (replicate 64 1)) [] [] some_keys some_keys 82 open_conn
      open_conn (5 ∷ []) [] refl refl refl generated generated refl refl

handshake-IsDelivered_example :
    (s : Session ℕ) × (t : Session ℕ) × (sent : List ℕ) × (answer : List ℕ) × (initiator_handshake
        toy live some_keys 82
        (record open_conn { incoming = answer ++ [] })
      ≡ (ok s, s.conn))
    × (responder_handshake toy live some_keys (record open_conn { incoming = sent ++ [] })
        ≡ (ok t, t.conn))
    × IsDelivered counter Same s t ((1 ∷ 2 ∷ []) ∷ []) (9 ∷ [])
    × IsDelivered counter Same t s ([] ∷ (3 ∷ []) ∷ []) []
unfolding check_context
handshake-IsDelivered_example =
    handshake-IsDelivered bits bits-IsGroup (λ b. b) toy counter Same toy-IsNoise counter-IsInStep
      live live (some (replicate 64 1)) (some (replicate 64 1)) [] [] some_keys some_keys 82
      open_conn open_conn [] [] (9 ∷ []) [] ((1 ∷ 2 ∷ []) ∷ []) ([] ∷ (3 ∷ []) ∷ []) refl refl refl
      generated generated refl refl (omega arith, tt) (omega arith, (omega arith, tt))

-- What the responder makes of the initiator's side above.
abbrev agreed : IsAgreed toy Same live live some_keys some_keys 82 open_conn open_conn [] []
unfolding check_context
agreed =
    handshake_agreement bits bits-IsGroup (λ b. b) toy Same toy-IsNoise live live
      (some (replicate 64 1)) (some (replicate 64 1)) [] [] some_keys some_keys 82 open_conn
      open_conn [] [] refl refl refl generated generated refl refl

abbrev accepted : Session ℕ
accepted = record {
  conn = moved open_conn [] agreed.answer;
  tx = agreed.tx';
  rx = agreed.rx';
  peer_static_key = some_keys.public_key;
  local_static_keypair = some_keys;
}
