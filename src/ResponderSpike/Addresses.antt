-- ===== src/ResponderSpike/Addresses.antt =====
-- cmd/p2p-responder-spike/main.go: the addresses that the flags advertise.
use go_tari_lib.Common.{ℕ, List, [], ◌∷◌, ◌++◌}
use go_tari_lib.Common.Result.{Result, ok, err, ◌>>=◌, or_fail}
use go_tari_lib.P2p.Multiaddr.{Library, encode_multiaddr_string}
use go_tari_lib.ResponderSpike.Errors.{
  StartupError, no_address, bad_public_tcp_addr, bad_onion3_addr,
}

-- A flag that is empty adds nothing.
abbrev pub advertised : Library → StartupError → List ℕ → Result StartupError (List (List ℕ))
advertised library e [] = ok []
advertised library e (c ∷ flag) = do
  encoded ← or_fail (encode_multiaddr_string library (c ∷ flag)) e
  ok (encoded ∷ [])

unfoldable pub parse_advertised_addresses :
    Library → List ℕ → List ℕ → Result StartupError (List (List ℕ))
parse_advertised_addresses library [] [] = err no_address
parse_advertised_addresses library public_tcp_addr onion3_addr = do
  tcp ← advertised library bad_public_tcp_addr public_tcp_addr
  onion3 ← advertised library bad_onion3_addr onion3_addr
  ok (tcp ++ onion3)
