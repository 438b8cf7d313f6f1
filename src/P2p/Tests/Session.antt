-- ===== src/P2p/Tests/Session.antt =====
-- Concrete runs of package `p2p`: frames, sessions, identities and their signatures.
use go_tari_lib.Common.{
  ℕ, zero, suc, ◌≡◌, refl, Bool, true, false, Option, some, none, List, [], ◌∷◌, ◌++◌, arith, ◌==◌,
  if◌then◌else◌, ◌&&◌, replicate, length,
}
use go_tari_lib.Common.Result.{ok}
use go_tari_lib.P2p.Frame.{Conn}
use go_tari_lib.P2p.Session.{Cipher, Session, IsInStep, IsDelivered, send_frames-IsDelivered}
use go_tari_lib.P2p.Rpc.Messages.{IdentitySignature}
use go_tari_lib.P2p.Ristretto.{KeyPair, Ristretto, IsGroup, key_pair}
use go_tari_lib.P2p.IdentitySignature.{build_our_identity_signature, verify_identity_signature}
use go_tari_lib.P2p.YamuxAdapter.{
  SessionReadWriteCloser, IsPending, IsNextChunk, adapter_read-IsNextChunk,
}
use go_tari_lib.P2p.IdentitySignature.Challenge.{challenge_bytes_injective}
use go_tari_lib.P2p.IdentitySignature.Schnorr.{verify-build_identity_signature}

abbrev pub open_conn : Conn
open_conn = record { incoming = []; outgoing = []; writable = true }

-- A cipher that puts a counter in front of the plaintext.
abbrev counter_decrypt : ℕ → List ℕ → Option (List ℕ × ℕ)
counter_decrypt k [] = none
counter_decrypt k (t ∷ m) = if t == k then some (m, suc k) else none

abbrev pub counter : Cipher ℕ
counter = record { encrypt = λ k m. some (k ∷ m, suc k); decrypt = counter_decrypt }

abbrev pub Same : ℕ → ℕ → Type 0
Same k l = k ≡ l

counter_reads : (k l : ℕ) (m : List ℕ) → k ≡ l → counter_decrypt l (k ∷ m) ≡ some (m, suc l)
counter_reads k l m h = ground arith

pub counter-IsInStep : IsInStep counter Same
counter-IsInStep = record {
  in_step = λ tx rx m p l.
      (tx ∷ m, suc tx, suc rx, refl, counter_reads tx rx m p, omega arith, omega arith);
}

abbrev some_bytes : List ℕ
some_bytes = 1 ∷ 2 ∷ []

abbrev no_keys : KeyPair
no_keys = record { private_key = []; public_key = [] }

abbrev pub here : Session ℕ
here = record {
  conn = open_conn;
  tx = 4;
  rx = 0;
  peer_static_key = some_bytes;
  local_static_keypair = no_keys;
}

abbrev pub there : Session ℕ
there = record here { tx = 0; rx = 4 }

send_frames-IsDelivered_example : IsDelivered counter Same here there ((1 ∷ []) ∷ [] ∷ []) (9 ∷ [])
send_frames-IsDelivered_example =
    send_frames-IsDelivered counter Same counter-IsInStep here there ((1 ∷ []) ∷ [] ∷ []) (9 ∷ [])
      refl (omega arith, (omega arith, tt)) refl

abbrev stamp : ℕ
stamp = 77

abbrev one_address : List (List ℕ)
one_address = some_bytes ∷ []

challenge_bytes_injective_example :
    (some_bytes ≡ some_bytes)
    × (some_bytes ≡ some_bytes)
    × (stamp ≡ stamp)
    × (stamp ≡ stamp)
    × (stamp ≡ stamp)
    × (one_address ≡ one_address)
challenge_bytes_injective_example =
    challenge_bytes_injective some_bytes some_bytes some_bytes some_bytes stamp stamp stamp stamp
      stamp stamp one_address one_address (omega arith) (omega arith) (omega arith, tt)
      (omega arith) (omega arith) (omega arith, tt) refl

-- The field of two elements, as a group over itself.
abbrev flip : Bool → Bool → Bool
flip true true = false
flip true false = true
flip false b = b

abbrev bit_bytes : Bool → List ℕ
bit_bytes true = 1 ∷ replicate 31 0
bit_bytes false = 0 ∷ replicate 31 0

abbrev bit_of_bytes : List ℕ → Option Bool
bit_of_bytes (zero ∷ b) = some false
bit_of_bytes (suc n ∷ b) = some true
bit_of_bytes [] = none

abbrev pub bits : Ristretto Bool Bool
bits = record {
  uniform_scalar = λ b. some true;
  scalar_of_bytes = bit_of_bytes;
  scalar_bytes = bit_bytes;
  multiply = λ a b. a && b;
  add = flip;
  point_of_bytes = bit_of_bytes;
  point_bytes = bit_bytes;
  scalar_base_mult = λ a. a;
  scalar_mult = λ a b. a && b;
  add_points = flip;
}

bit_read : (b : Bool) → bit_of_bytes (bit_bytes b) ≡ some b
bit_read true = refl
bit_read false = refl

flip_comm : (a b : Bool) → flip a b ≡ flip b a
flip_comm true true = refl
flip_comm true false = refl
flip_comm false true = refl
flip_comm false false = refl

both_comm : (a b : Bool) → (a && b) ≡ (b && a)
both_comm true true = refl
both_comm true false = refl
both_comm false true = refl
both_comm false false = refl

bit_size : (b : Bool) → length (bit_bytes b) ≡ 32
bit_size true = refl
bit_size false = refl

pub bits-IsGroup : IsGroup bits
bits-IsGroup = record {
  uniform = λ b h. (true, refl);
  canonical_scalar = bit_read;
  canonical_point = bit_read;
  base_add = λ s r. refl;
  base_multiply = λ s r. refl;
  multiply_comm = both_comm;
  scalar_size = bit_size;
  point_size = bit_size;
  add_comm = flip_comm;
}

abbrev pub zeros : List ℕ → List ℕ
zeros b = replicate 64 0

verify-build_identity_signature_example :
    (sig : IdentitySignature) × (build_our_identity_signature bits zeros
        (key_pair bits true)
        (key_pair bits false)
        77
        3
        ((4 ∷ []) ∷ [])
      ≡ ok sig)
    × (verify_identity_signature bits zeros
          (key_pair bits true).public_key
          3
          ((4 ∷ []) ∷ [])
          (some sig)
        ≡ ok true)
verify-build_identity_signature_example =
    verify-build_identity_signature bits bits-IsGroup zeros (λ b. refl) true false 77 3
      ((4 ∷ []) ∷ [])

-- An empty frame and one of two bytes, of which one is read.
abbrev delivery : IsDelivered counter Same here there ([] ∷ (7 ∷ 8 ∷ []) ∷ []) []
delivery =
    send_frames-IsDelivered counter Same counter-IsInStep here there ([] ∷ (7 ∷ 8 ∷ []) ∷ []) []
      refl (omega arith, (omega arith, tt)) refl

abbrev arriving : SessionReadWriteCloser ℕ
arriving = record {
  session = record there { conn = record open_conn { incoming = delivery.wire ++ [] } };
  read_buf = [];
}

arriving-IsPending : IsPending counter arriving ([] ∷ (7 ∷ 8 ∷ []) ∷ [])
arriving-IsPending = record {
  after = record there { conn = open_conn; rx = delivery.rx' };
  received = delivery.received;
}

adapter_read-IsNextChunk_example : IsNextChunk counter 1 arriving ([] ∷ (7 ∷ 8 ∷ []) ∷ [])
adapter_read-IsNextChunk_example =
    adapter_read-IsNextChunk counter 1 arriving ([] ∷ (7 ∷ 8 ∷ []) ∷ []) arriving-IsPending
      (omega arith) (omega arith)
