-- ===== src/P2p/Socks.antt =====
-- p2p/socks.go: whom a probe dials. The network, the proxy's dialer and the clock are outside.
use go_tari_lib.Common.{
  ℕ, ◌≡◌, ap, Bool, true, false, ◌||◌, Option, some, none, List, [], ◌∷◌, ◌==◌, if◌then◌else◌,
  length, drop,
}
use go_tari_lib.Common.Result.{Result, ok, err}
use go_tari_lib.Stdlib.Strings.{contains_byte, cut_last, has_prefix}
use go_tari_lib.Stdlib.Trim.{reverse}
use go_tari_lib.Stdlib.Text.{codes, to_lower}

-- The text before the first such byte, and the text behind it.
abbrev pub cut_first : ℕ → List ℕ → Option (List ℕ × List ℕ)
cut_first sep [] = none
cut_first sep (c ∷ s) = elim (cut_first sep s) [
  | some (front, back) ↦ if c == sep then some ([], s) else some (c ∷ front, back)
  | none ↦ if c == sep then some ([], s) else none
]

-- The host in brackets: the port's colon is right behind them, and there are no more brackets.
abbrev bracketed : List ℕ → Option (List ℕ)
bracketed s = elim (cut_first b']' s) [
  | none ↦ none
  | some (host, rest) ↦
      if has_prefix rest (b':' ∷ [])
      then (if contains_byte b':' (drop 1 rest) || (contains_byte b'[' s || contains_byte b']' rest)
          then none
          else some host)
      else none
]

abbrev plain_host : List ℕ → Option (List ℕ)
plain_host s = elim (cut_last b':' s) [
  | none ↦ none
  | some (host, port) ↦
      if contains_byte b':' host || (contains_byte b'[' s || contains_byte b']' s)
      then none
      else some host
]

-- The host that `net.SplitHostPort` gives; `none` is its error.
unfoldable pub split_host : List ℕ → Option (List ℕ)
split_host [] = none
split_host (c ∷ s) = if c == b'[' then bracketed s else plain_host (c ∷ s)

-- `strings.HasSuffix(s, suffix)`
abbrev pub has_suffix : List ℕ → List ℕ → Bool
has_suffix s suffix = has_prefix (reverse s) (reverse suffix)

abbrev pub onion_suffix : List ℕ
onion_suffix = codes ".onion"

unfoldable pub is_onion_addr : List ℕ → Bool
is_onion_addr addr = elim (split_host addr) [
  | none ↦ false
  | some host ↦ has_suffix (to_lower host) onion_suffix
]

pub record ProbeOptions : Type 0 where
  pub socks_proxy_addr : List ℕ
  pub network_byte : ℕ

-- The two dialers, each from a world to a connection or its error. The proxy's dialer looks at the
-- context itself, as the version of the library does that is used. `none` is a proxy for which there is no dialer.
pub record Dialers (W C E : Type 0) : Type 0 where
  pub direct : List ℕ → W → Result E C × W
  pub socks5 : List ℕ → Result E (List ℕ → W → Result E C × W)

pub data DialError (E : Type 0) : Type 0 where
  no_proxy : DialError E
  proxy_refused dial_failed : E → DialError E

module _ {W C E : Type 0} (net : Dialers W C E) where
  abbrev dialled : Result E C × W → Result (DialError E) C × W
  dialled (ok c, w) = (ok c, w)
  dialled (err e, w) = (err (dial_failed e), w)

  abbrev through : Result E (List ℕ → W → Result E C × W) → List ℕ → W → Result (DialError E) C × W
  through (ok dialer) addr w = dialled (dialer addr w)
  through (err e) addr w = (err (proxy_refused e), w)

  unfoldable pub dial_for_probe : List ℕ → ProbeOptions → W → Result (DialError E) C × W
  dial_for_probe addr opts w =
      if is_onion_addr addr
      then (if length opts.socks_proxy_addr == 0
          then (err no_proxy, w)
          else through (net.socks5 opts.socks_proxy_addr) addr w)
      else dialled (net.direct addr w)

-- Two networks and options that agree on all that an address may be dialled by: the proxy for an onion
-- address, and the direct dialer for any other.
pub data SameRoute {W C E : Type 0} (addr : List ℕ) (net net' : Dialers W C E)
    (opts opts' : ProbeOptions) : Type 0 where
  onion :
      is_onion_addr addr ≡ true
      → net.socks5 ≡ net'.socks5
      → opts.socks_proxy_addr ≡ opts'.socks_proxy_addr
      → SameRoute addr net net' opts opts'
  clear : is_onion_addr addr ≡ false → net.direct ≡ net'.direct → SameRoute addr net net' opts opts'

-- What `dialForProbe` does for an onion address does not depend on the direct dialer, and for any other
-- address not on the proxy nor on the options.
pub dial_for_probe_routed :
    {W C E : Type 0} (addr : List ℕ) (net net' : Dialers W C E) (opts opts' : ProbeOptions) (w : W)
    → SameRoute addr net net' opts opts'
    → dial_for_probe net addr opts w ≡ dial_for_probe net' addr opts' w
unfolding dial_for_probe
dial_for_probe_routed addr net net' opts opts' w (onion h s o) = rw h (
    rw o (
      ap
        (λ d.
          if length opts'.socks_proxy_addr == 0
          then (err no_proxy, w)
          else through net (d opts'.socks_proxy_addr) addr w)
        s))
dial_for_probe_routed addr net net' opts opts' w (clear h d) =
    rw h (ap (λ f. dialled net (f addr w)) d)
