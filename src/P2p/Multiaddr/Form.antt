-- ===== src/P2p/Multiaddr/Form.antt =====
-- p2p/multiaddr.go: the addresses that are encoded, and that their bytes tell them apart.
use go_tari_lib.Common.{
  ℕ, ◌/◌, ◌%◌, ◌^◌, ◌≤◌, ◌≡◌, refl, sym, ap, ◌∙◌, Bool, true, false, not, ◌||◌, ◌==◌, if◌then◌else◌,
  arith, Option, some, none, List, [], ◌∷◌, ◌++◌, length, take, drop, append_assoc, append_cancel,
  length-drop, take_all,
}
use go_tari_lib.Common.Result.{
  Result, ok, err, ◌>>=◌, some_or_fail, bind-eq-ok, some_or_fail-eq-ok, guard-eq-ok, ok-injective,
}
use go_tari_lib.Stdlib.Endian.{put_uint16_be}
use go_tari_lib.Stdlib.Strings.{
  has_prefix, trim_prefix, contains_byte, split, cut_last, parse_uint16, parse_uint16_bounded,
  append_uvarint,
}
use go_tari_lib.P2p.Errors.{
  Error, unsupported_multiaddr, malformed_multiaddr, invalid_ip, invalid_port, onion_address_length,
  invalid_base32, onion_hash_length,
}
use go_tari_lib.P2p.Rpc.Negotiation.{bytes_equal}
use go_tari_lib.P2p.Multiaddr.{
  Library, to4, v4_in_v6_prefix, encode_ip4_tcp_multiaddr, encode_onion3_multiaddr, ip4_tcp_of,
  ip4_tcp_of_parts, encode_ip4_tcp_multiaddr_string, onion3_port, onion3_of,
  encode_onion3_multiaddr_string, encode_multiaddr_string, slash, colon, ip4_prefix, onion3_prefix,
  ip4_name, tcp_name, onion3_encoded_len, onion3_hash_len,
}

-- What an address says.
pub data Multiaddr : Type 0 where
  ip4_tcp : (octets : List ℕ) (port : ℕ) → Multiaddr
  onion3 : (hash : List ℕ) (port : ℕ) → Multiaddr

-- An onion address has no port 0.
abbrev pub IsMultiaddr : Multiaddr → Type 0
IsMultiaddr (ip4_tcp octets port) = (length octets ≡ 4) × (port ≤ 65535)
IsMultiaddr (onion3 hash port) = (length hash ≡ 35) × (1 ≤ port) × (port ≤ 65535)

-- Its bytes, by the table of the format: the code of each protocol, and its payload.
abbrev pub multiaddr_bytes : Multiaddr → List ℕ
multiaddr_bytes (ip4_tcp octets port) = 4 ∷ (octets ++ (6 ∷ port / 256 ∷ port % 256 ∷ []))
multiaddr_bytes (onion3 hash port) = 189 ∷ 3 ∷ (hash ++ (port / 256 ∷ port % 256 ∷ []))

-- Different addresses have different bytes.
multiaddr_bytes_injective :
    (a b : Multiaddr)
    → IsMultiaddr a
    → IsMultiaddr b
    → multiaddr_bytes a ≡ multiaddr_bytes b
    → a ≡ b
multiaddr_bytes_injective (ip4_tcp o p) (ip4_tcp q r) (l, h) (m, k) e =
    let (same, ports) =
      append_cancel o q (6 ∷ p / 256 ∷ p % 256 ∷ []) (6 ∷ r / 256 ∷ r % 256 ∷ []) (l ∙ sym m)
        (ap (drop 1) e) in
    rw same (ap (ip4_tcp q) (ground arith))
multiaddr_bytes_injective (ip4_tcp o p) (onion3 q r) h k e = absurd (ground arith)
multiaddr_bytes_injective (onion3 o p) (ip4_tcp q r) h k e = absurd (ground arith)
multiaddr_bytes_injective (onion3 o p) (onion3 q r) (l, h, i) (m, k, j) e =
    let (same, ports) =
      append_cancel o q (p / 256 ∷ p % 256 ∷ []) (r / 256 ∷ r % 256 ∷ []) (l ∙ sym m)
        (ap (drop 2) e) in
    rw same (ap (onion3 q) (ground arith))

pub encode_ip4_tcp_multiaddr_lem :
    (o : List ℕ) (p : ℕ)
    → length o ≡ 4
    → p ≤ 65535
    → encode_ip4_tcp_multiaddr o (p % 2 ^ 16) ≡ multiaddr_bytes (ip4_tcp o p)
unfolding encode_ip4_tcp_multiaddr append_uvarint put_uint16_be
encode_ip4_tcp_multiaddr_lem o p l h =
    rw (take_all o 4 (omega (arith, l)))
      (rw small (ap (λ l. 4 ∷ l) (append_assoc o (6 ∷ []) (put_uint16_be p))))
  where
    small : p % 2 ^ 16 ≡ p
    small = omega arith

pub encode_onion3_multiaddr_lem :
    (hash : List ℕ) (p : ℕ)
    → p ≤ 65535
    → encode_onion3_multiaddr hash (p % 2 ^ 16) ≡ multiaddr_bytes (onion3 hash p)
unfolding encode_onion3_multiaddr append_uvarint put_uint16_be
encode_onion3_multiaddr_lem hash p h = rw small refl
  where
    small : p % 2 ^ 16 ≡ p
    small = omega arith

some_bytes : (a b : List ℕ) → ◌≡◌ {A = Option (List ℕ)} (some a) (some b) → a ≡ b
some_bytes a b h = cc

no_bytes : (b : List ℕ) → ◌≡◌ {A = Option (List ℕ)} none (some b) → ⊥
no_bytes b h = cc

no_result : (b : List ℕ) → ◌≡◌ {A = Result Error (List ℕ)} (err malformed_multiaddr) (ok b) → ⊥
no_result b h = cc

pub to4-length : (ip o : List ℕ) → to4 ip ≡ some o → length o ≡ 4
unfolding to4
to4-length ip o e =
    by_size (length ip == 4) (length ip == 16) (bytes_equal (take 12 ip) v4_in_v6_prefix) refl refl
      e
  where
    by_size :
        (b c d : Bool)
        → (length ip == 4) ≡ b
        → (length ip == 16) ≡ c
        → (if b then some ip else if c then (if d then some (drop 12 ip) else none) else none)
          ≡ some o
        → length o ≡ 4
    by_size true c d h k q = ground (arith, ap length (some_bytes ip o q))
    by_size false true true h k q =
        ground (arith, length-drop 12 ip, ap length (some_bytes (drop 12 ip) o q))
    by_size false true false h k q = absurd (no_bytes o q)
    by_size false false d h k q = absurd (no_bytes o q)

-- What was encoded, and that it is one of the two addresses.
abbrev Encodes : List ℕ → Type 0
Encodes b = (a : Multiaddr) × IsMultiaddr a × (b ≡ multiaddr_bytes a)

ip4_tcp_of-Encodes :
    (library : Library) (ip_text port_text b : List ℕ)
    → ip4_tcp_of library ip_text port_text ≡ ok b
    → Encodes b
ip4_tcp_of-Encodes library ip_text port_text b e =
    let (ip, parsed, e1) =
      bind-eq-ok
        (λ ip. do
          ip4 ← some_or_fail (to4 ip) invalid_ip
          port ← some_or_fail (parse_uint16 port_text) invalid_port
          ok (encode_ip4_tcp_multiaddr ip4 (port % 2 ^ 16)))
        (some_or_fail (library.parse_ip ip_text) invalid_ip) b e in
    let (ip4, four, e2) =
      bind-eq-ok
        (λ ip4. do
          port ← some_or_fail (parse_uint16 port_text) invalid_port
          ok (encode_ip4_tcp_multiaddr ip4 (port % 2 ^ 16)))
        (some_or_fail (to4 ip) invalid_ip) b e1 in
    let (port, read, e3) =
      bind-eq-ok (λ port. ok (encode_ip4_tcp_multiaddr ip4 (port % 2 ^ 16)))
        (some_or_fail (parse_uint16 port_text) invalid_port) b e2 in
    let size = to4-length ip ip4 (some_or_fail-eq-ok (to4 ip) invalid_ip four) in
    let fits =
      parse_uint16_bounded port_text port
        (some_or_fail-eq-ok (parse_uint16 port_text) invalid_port read) in
    (
      ip4_tcp ip4 port,
      (size, fits),
      ok-injective b (encode_ip4_tcp_multiaddr ip4 (port % 2 ^ 16)) (sym e3)
          ∙ encode_ip4_tcp_multiaddr_lem ip4 port size fits,
    )

ip4_tcp_of_parts-Encodes :
    (library : Library) (parts : List (List ℕ)) (b : List ℕ)
    → ip4_tcp_of_parts library parts ≡ ok b
    → Encodes b
ip4_tcp_of_parts-Encodes library [] b e = absurd (no_result b e)
ip4_tcp_of_parts-Encodes library (p0 ∷ []) b e = absurd (no_result b e)
ip4_tcp_of_parts-Encodes library (p0 ∷ p1 ∷ []) b e = absurd (no_result b e)
ip4_tcp_of_parts-Encodes library (p0 ∷ p1 ∷ p2 ∷ []) b e = absurd (no_result b e)
ip4_tcp_of_parts-Encodes library (p0 ∷ p1 ∷ p2 ∷ p3 ∷ []) b e = absurd (no_result b e)
ip4_tcp_of_parts-Encodes library (p0 ∷ p1 ∷ p2 ∷ p3 ∷ p4 ∷ []) b e =
    ip4_tcp_of-Encodes library p2 p4 b
      (guard-eq-ok
        (not (length p0 == 0) || not (bytes_equal p1 ip4_name) || not (bytes_equal p3 tcp_name))
        malformed_multiaddr (ip4_tcp_of library p2 p4) e).1
ip4_tcp_of_parts-Encodes library (p0 ∷ p1 ∷ p2 ∷ p3 ∷ p4 ∷ p5 ∷ ps) b e = absurd (no_result b e)

onion3_port-Encodes :
    (hash b : List ℕ) (port : ℕ)
    → length hash ≡ 35
    → port ≤ 65535
    → onion3_port hash port ≡ ok b
    → Encodes b
onion3_port-Encodes hash b port size fits e =
    let (some_port, done) =
      guard-eq-ok (port == 0) invalid_port (ok (encode_onion3_multiaddr hash (port % 2 ^ 16))) e in
    (
      onion3 hash port,
      (size, ground (arith, some_port), fits),
      ok-injective b (encode_onion3_multiaddr hash (port % 2 ^ 16)) (sym done)
          ∙ encode_onion3_multiaddr_lem hash port fits,
    )

onion3_of-Encodes :
    (library : Library) (addr_part port_part b : List ℕ)
    → onion3_of library addr_part port_part ≡ ok b
    → Encodes b
onion3_of-Encodes library addr_part port_part b e =
    let (_, e1) =
      guard-eq-ok (not (length addr_part == onion3_encoded_len)) onion_address_length
        (do
          decoded ← some_or_fail (library.base32_decode (library.to_upper addr_part)) invalid_base32
          sized decoded)
        e in
    let (decoded, _, e2) =
      bind-eq-ok sized
        (some_or_fail (library.base32_decode (library.to_upper addr_part)) invalid_base32) b e1 in
    let (size, e3) =
      guard-eq-ok (not (length decoded == onion3_hash_len)) onion_hash_length
        (do port ← some_or_fail (parse_uint16 port_part) invalid_port; onion3_port decoded port)
        e2 in
    let (port, read, e4) =
      bind-eq-ok (onion3_port decoded) (some_or_fail (parse_uint16 port_part) invalid_port) b e3 in
    onion3_port-Encodes decoded b port (ground (arith, size))
      (parse_uint16_bounded port_part port
        (some_or_fail-eq-ok (parse_uint16 port_part) invalid_port read))
      e4
  where
    sized : List ℕ → Result Error (List ℕ)
    sized decoded = if not (length decoded == onion3_hash_len) then err onion_hash_length else (do
      port ← some_or_fail (parse_uint16 port_part) invalid_port
      onion3_port decoded port)

encode_onion3-Encodes :
    (library : Library) (s b : List ℕ) → encode_onion3_multiaddr_string library s ≡ ok b → Encodes b
unfolding encode_onion3_multiaddr_string
encode_onion3-Encodes library s b e =
    let rest = trim_prefix s onion3_prefix in
    let (_, e1) =
      guard-eq-ok (contains_byte slash rest) malformed_multiaddr
        (do
          cut ← some_or_fail (cut_last colon rest) malformed_multiaddr
          onion3_of library cut.0 cut.1)
        e in
    let (cut, _, e2) =
      bind-eq-ok (λ cut. onion3_of library cut.0 cut.1)
        (some_or_fail (cut_last colon rest) malformed_multiaddr) b e1 in
    onion3_of-Encodes library cut.0 cut.1 b e2

-- A text that is encoded, whatever the library reads in it, says an IPv4 address of four bytes with a port, or an
-- onion address of 35 bytes with a port that is not 0, and the bytes are those that the table of the format
-- gives for it; the port fits in 16 bits.
pub encode_multiaddr_string-Encodes :
    (library : Library) (s b : List ℕ)
    → encode_multiaddr_string library s ≡ ok b
    → (a : Multiaddr) × IsMultiaddr a × (b ≡ multiaddr_bytes a)
unfolding encode_multiaddr_string encode_ip4_tcp_multiaddr_string
encode_multiaddr_string-Encodes library s b =
    by_prefix (has_prefix s ip4_prefix) (has_prefix s onion3_prefix)
  where
    unsupported : ◌≡◌ {A = Result Error (List ℕ)} (err unsupported_multiaddr) (ok b) → ⊥
    unsupported h = cc

    by_prefix :
        (p q : Bool)
        → (if p
            then ip4_tcp_of_parts library (split slash s)
            else if q
            then encode_onion3_multiaddr_string library s
            else err unsupported_multiaddr)
          ≡ ok b
        → Encodes b
    by_prefix true q e = ip4_tcp_of_parts-Encodes library (split slash s) b e
    by_prefix false true e = encode_onion3-Encodes library s b e
    by_prefix false false e = absurd (unsupported e)
