-- ===== src/P2p/Multiaddr.antt =====
-- p2p/multiaddr.go. `net.ParseIP`, `strings.ToUpper` and base32 are a parameter.
pub mod Form
pub mod Texts
use go_tari_lib.Common.{
  ℕ, ◌%◌, ◌^◌, ◌≡◌, Bool, true, false, not, ◌||◌, ◌==◌, if◌then◌else◌, Option, some, none, List, [],
  ◌∷◌, ◌++◌, length, take, drop,
}
use go_tari_lib.Common.Result.{Result, ok, err, ◌>>=◌, some_or_fail}
use go_tari_lib.Stdlib.Endian.{put_uint16_be}
use go_tari_lib.Stdlib.Strings.{
  has_prefix, trim_prefix, contains_byte, split, cut_last, parse_uint16, append_uvarint,
}
use go_tari_lib.P2p.Errors.{
  Error, unsupported_multiaddr, malformed_multiaddr, invalid_ip, invalid_port, onion_address_length,
  invalid_base32, onion_hash_length,
}
use go_tari_lib.P2p.Rpc.Negotiation.{bytes_equal}

abbrev pub multiaddr_proto_ip4 : ℕ
multiaddr_proto_ip4 = 4

abbrev pub multiaddr_proto_tcp : ℕ
multiaddr_proto_tcp = 6

abbrev pub multiaddr_proto_onion3 : ℕ
multiaddr_proto_onion3 = 445

abbrev pub onion3_hash_len : ℕ
onion3_hash_len = 35

abbrev pub onion3_encoded_len : ℕ
onion3_encoded_len = 56

-- '/' and ':'
abbrev pub slash : ℕ
slash = 47

abbrev pub colon : ℕ
colon = 58

-- "ip4", "tcp", "onion3"
abbrev pub ip4_name : List ℕ
ip4_name = 105 ∷ 112 ∷ 52 ∷ []

abbrev pub tcp_name : List ℕ
tcp_name = 116 ∷ 99 ∷ 112 ∷ []

abbrev pub onion3_name : List ℕ
onion3_name = 111 ∷ 110 ∷ 105 ∷ 111 ∷ 110 ∷ 51 ∷ []

abbrev pub ip4_prefix : List ℕ
ip4_prefix = slash ∷ (ip4_name ++ (slash ∷ []))

abbrev pub onion3_prefix : List ℕ
onion3_prefix = slash ∷ (onion3_name ++ (slash ∷ []))

-- `net.ParseIP`, which gives 16 bytes, `strings.ToUpper`, and the reading of base32 without padding.
pub record Library : Type 0 where
  pub parse_ip : List ℕ → Option (List ℕ)
  pub to_upper : List ℕ → List ℕ
  pub base32_decode : List ℕ → Option (List ℕ)

-- "::ffff:0:0/96"
abbrev pub v4_in_v6_prefix : List ℕ
v4_in_v6_prefix = 0 ∷ 0 ∷ 0 ∷ 0 ∷ 0 ∷ 0 ∷ 0 ∷ 0 ∷ 0 ∷ 0 ∷ 255 ∷ 255 ∷ []

-- `IP.To4`
unfoldable pub to4 : List ℕ → Option (List ℕ)
to4 ip =
    if length ip == 4
    then some ip
    else if length ip == 16
    then (if bytes_equal (take 12 ip) v4_in_v6_prefix then some (drop 12 ip) else none)
    else none

unfoldable pub encode_ip4_tcp_multiaddr : List ℕ → ℕ → List ℕ
encode_ip4_tcp_multiaddr ip4 port =
    append_uvarint (append_uvarint [] multiaddr_proto_ip4 ++ take 4 ip4) multiaddr_proto_tcp
    ++ put_uint16_be port

unfoldable pub encode_onion3_multiaddr : List ℕ → ℕ → List ℕ
encode_onion3_multiaddr hash port =
    (append_uvarint [] multiaddr_proto_onion3 ++ hash) ++ put_uint16_be port

abbrev pub onion3_port : List ℕ → ℕ → Result Error (List ℕ)
onion3_port hash port =
    if port == 0 then err invalid_port else ok (encode_onion3_multiaddr hash (port % 2 ^ 16))

module _ (library : Library) where
  abbrev pub ip4_tcp_of : List ℕ → List ℕ → Result Error (List ℕ)
  ip4_tcp_of ip_text port_text = do
    ip ← some_or_fail (library.parse_ip ip_text) invalid_ip
    ip4 ← some_or_fail (to4 ip) invalid_ip
    port ← some_or_fail (parse_uint16 port_text) invalid_port
    ok (encode_ip4_tcp_multiaddr ip4 (port % 2 ^ 16))

  -- The five parts.
  abbrev pub ip4_tcp_of_parts : List (List ℕ) → Result Error (List ℕ)
  ip4_tcp_of_parts (p0 ∷ p1 ∷ p2 ∷ p3 ∷ p4 ∷ []) =
      if not (length p0 == 0) || not (bytes_equal p1 ip4_name) || not (bytes_equal p3 tcp_name)
      then err malformed_multiaddr
      else ip4_tcp_of p2 p4
  ip4_tcp_of_parts parts = err malformed_multiaddr

  unfoldable pub encode_ip4_tcp_multiaddr_string : List ℕ → Result Error (List ℕ)
  encode_ip4_tcp_multiaddr_string s = ip4_tcp_of_parts (split slash s)

  abbrev pub onion3_of : List ℕ → List ℕ → Result Error (List ℕ)
  onion3_of addr_part port_part =
      if not (length addr_part == onion3_encoded_len) then err onion_address_length else (do
        decoded ← some_or_fail (library.base32_decode (library.to_upper addr_part)) invalid_base32
        if not (length decoded == onion3_hash_len) then err onion_hash_length else (do
          port ← some_or_fail (parse_uint16 port_part) invalid_port
          onion3_port decoded port))

  unfoldable pub encode_onion3_multiaddr_string : List ℕ → Result Error (List ℕ)
  encode_onion3_multiaddr_string s =
      let rest = trim_prefix s onion3_prefix in
      if contains_byte slash rest then err malformed_multiaddr else (do
        (addr_part, port_part) ← some_or_fail (cut_last colon rest) malformed_multiaddr
        onion3_of addr_part port_part)

  unfoldable pub encode_multiaddr_string : List ℕ → Result Error (List ℕ)
  encode_multiaddr_string s =
      if has_prefix s ip4_prefix
      then encode_ip4_tcp_multiaddr_string s
      else if has_prefix s onion3_prefix
      then encode_onion3_multiaddr_string s
      else err unsupported_multiaddr
