-- ===== src/P2p/Multiaddr/Texts.antt =====
-- p2p/multiaddr.go: the texts of addresses.
use go_tari_lib.Common.{ℕ, ◌≤◌, ◌≡◌, ap, false, ◌==◌, arith, some, List, ◌∷◌, ◌++◌, length}
use go_tari_lib.Common.Result.{ok}
use go_tari_lib.Stdlib.Strings.{contains_byte, trim_prefix}
use go_tari_lib.Stdlib.Strings.Cut.{contains_byte-append, split_one, split-append, cut_last-append}
use go_tari_lib.Stdlib.Strings.Decimal.{
  decimal_without_slash, decimal_without_colon, parse_uint16-decimal,
}
use go_tari_lib.P2p.Hashing.{decimal}
use go_tari_lib.P2p.Rpc.Negotiation.{bytes_equal}
use go_tari_lib.P2p.Multiaddr.{
  Library, to4, slash, colon, ip4_prefix, onion3_prefix, tcp_name, encode_ip4_tcp_multiaddr_string,
  encode_onion3_multiaddr_string, encode_multiaddr_string,
}
use go_tari_lib.P2p.Multiaddr.Form.{
  Multiaddr, ip4_tcp, onion3, multiaddr_bytes, encode_ip4_tcp_multiaddr_lem,
  encode_onion3_multiaddr_lem, to4-length,
}

-- The texts that say an address: "/ip4/…/tcp/…" and "/onion3/…:…", with the port in decimal.
pub data IsText (library : Library) : List ℕ → Multiaddr → Type 0 where
  ip4_text :
      (text ip octets : List ℕ) (port : ℕ)
      → contains_byte slash text ≡ false
      → library.parse_ip text ≡ some ip
      → to4 ip ≡ some octets
      → port ≤ 65535
      → IsText library
          (ip4_prefix ++ (text ++ (slash ∷ (tcp_name ++ (slash ∷ decimal port)))))
          (ip4_tcp octets port)
  onion3_text :
      (text hash : List ℕ) (port : ℕ)
      → contains_byte slash text ≡ false
      → length text ≡ 56
      → library.base32_decode (library.to_upper text) ≡ some hash
      → length hash ≡ 35
      → 1 ≤ port
      → port ≤ 65535
      → IsText library (onion3_prefix ++ (text ++ (colon ∷ decimal port))) (onion3 hash port)

ip4_text_read :
    (library : Library) (text ip octets : List ℕ) (port : ℕ)
    → contains_byte slash text ≡ false
    → library.parse_ip text ≡ some ip
    → to4 ip ≡ some octets
    → port ≤ 65535
    → encode_multiaddr_string library
        (ip4_prefix ++ (text ++ (slash ∷ (tcp_name ++ (slash ∷ decimal port)))))
      ≡ ok (multiaddr_bytes (ip4_tcp octets port))
unfolding encode_multiaddr_string encode_ip4_tcp_multiaddr_string bytes_equal
ip4_text_read library text ip octets port h parsed four fits =
    rw (split-append slash text (tcp_name ++ (slash ∷ decimal port)) h) (
      rw (split_one slash (decimal port) (decimal_without_slash port)) (
        rw parsed (
          rw four (
            rw (parse_uint16-decimal port fits) (
              ap ok (encode_ip4_tcp_multiaddr_lem octets port (to4-length ip octets four) fits))))))

onion3_text_read :
    (library : Library) (text hash : List ℕ) (port : ℕ)
    → contains_byte slash text ≡ false
    → length text ≡ 56
    → library.base32_decode (library.to_upper text) ≡ some hash
    → length hash ≡ 35
    → 1 ≤ port
    → port ≤ 65535
    → encode_multiaddr_string library (onion3_prefix ++ (text ++ (colon ∷ decimal port)))
      ≡ ok (multiaddr_bytes (onion3 hash port))
unfolding encode_multiaddr_string encode_onion3_multiaddr_string trim_prefix
onion3_text_read library text hash port h size decoded hash_size low high =
    rw (contains_byte-append slash text (colon ∷ decimal port) h) (
      rw (decimal_without_slash port) (
        rw (cut_last-append colon text (decimal port) (decimal_without_colon port)) (
          rw size (
            rw decoded (
              rw hash_size (
                rw (parse_uint16-decimal port high)
                  (rw some_port (ap ok (encode_onion3_multiaddr_lem hash port high)))))))))
  where
    some_port : (port == 0) ≡ false
    some_port = ground arith

-- A text of one of the two forms, whose parts the library reads, with the port in decimal, is encoded to the
-- bytes of the address that it says: the port is one of 16 bits, and not 0 for an onion address.
pub encode_multiaddr_string-IsText :
    (library : Library) (s : List ℕ) (a : Multiaddr)
    → IsText library s a
    → encode_multiaddr_string library s ≡ ok (multiaddr_bytes a)
encode_multiaddr_string-IsText library _ _ (ip4_text text ip octets port h parsed four fits) =
    ip4_text_read library text ip octets port h parsed four fits
encode_multiaddr_string-IsText library _ _
      (onion3_text text hash port h size decoded hash_size low high) =
    onion3_text_read library text hash port h size decoded hash_size low high
