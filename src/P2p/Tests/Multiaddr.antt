-- ===== src/P2p/Tests/Multiaddr.antt =====
-- Concrete runs of p2p/multiaddr.go, with a stand-in for the IP parser and base32.
use go_tari_lib.Common.{ℕ, ◌≡◌, refl, some, List, [], ◌∷◌, ◌++◌, arith, replicate}
use go_tari_lib.Common.Result.{ok}
use go_tari_lib.P2p.Hashing.{decimal}
use go_tari_lib.P2p.Rpc.Negotiation.{bytes_equal}
use go_tari_lib.P2p.Multiaddr.{Library, to4, encode_multiaddr_string, ip4_prefix, slash, tcp_name}
use go_tari_lib.P2p.Multiaddr.Form.{
  Multiaddr, ip4_tcp, IsMultiaddr, multiaddr_bytes, encode_multiaddr_string-Encodes,
}
use go_tari_lib.P2p.Multiaddr.Texts.{IsText, ip4_text, encode_multiaddr_string-IsText}

abbrev one_host : Library
one_host = record {
  parse_ip = λ s. some (replicate 10 0 ++ (255 ∷ 255 ∷ 1 ∷ 2 ∷ 3 ∷ 4 ∷ []));
  to_upper = λ s. s;
  base32_decode = λ s. some (replicate 35 9);
}

-- "/ip4/1.2.3.4/tcp/18189"
abbrev text : List ℕ
text =
    ip4_prefix
    ++ ((49 ∷ 46 ∷ 50 ∷ 46 ∷ 51 ∷ 46 ∷ 52 ∷ []) ++ (slash ∷ (tcp_name ++ (slash ∷ decimal 18189))))

abbrev address : Multiaddr
address = ip4_tcp (1 ∷ 2 ∷ 3 ∷ 4 ∷ []) 18189

abbrev text_of_address : IsText one_host text address
unfolding to4 bytes_equal
text_of_address =
    ip4_text (49 ∷ 46 ∷ 50 ∷ 46 ∷ 51 ∷ 46 ∷ 52 ∷ [])
      (replicate 10 0 ++ (255 ∷ 255 ∷ 1 ∷ 2 ∷ 3 ∷ 4 ∷ [])) (1 ∷ 2 ∷ 3 ∷ 4 ∷ []) 18189 refl refl refl
      (omega arith)

encode_multiaddr_string-IsText_example :
    encode_multiaddr_string one_host text ≡ ok (multiaddr_bytes address)
encode_multiaddr_string-IsText_example =
    encode_multiaddr_string-IsText one_host text address text_of_address

encode_multiaddr_string-Encodes_example :
    (a : Multiaddr) × IsMultiaddr a × (multiaddr_bytes address ≡ multiaddr_bytes a)
encode_multiaddr_string-Encodes_example =
    encode_multiaddr_string-Encodes one_host text (multiaddr_bytes address)
      (encode_multiaddr_string-IsText one_host text address text_of_address)
