-- ===== src/P2p/Tests/Socks.antt =====
-- Hosts of addresses, and which of them are onion services.
use go_tari_lib.Common.{◌≡◌, refl, true, false, some, none}
use go_tari_lib.Stdlib.Text.{codes, to_lower}
use go_tari_lib.Stdlib.Utf8.{runes, string_of_runes}
use go_tari_lib.P2p.Socks.{split_host, is_onion_addr}

host_in_brackets : split_host (codes "[::1]:80") ≡ some (codes "::1")
unfolding split_host
host_in_brackets = refl

two_colons : split_host (codes "a:b:80") ≡ none
unfolding split_host
two_colons = refl

upper_case : is_onion_addr (codes "ab.ONIon:18141") ≡ true
unfolding is_onion_addr split_host to_lower runes string_of_runes
upper_case = refl

no_port : is_onion_addr (codes "ab.onion") ≡ false
unfolding is_onion_addr split_host
no_port = refl
