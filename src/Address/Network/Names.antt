-- ===== src/Address/Network/Names.antt =====
-- The names of the networks, in both directions.
use go_tari_lib.Common.{ℕ, ◌≡◌, ◌↔◌, ◌⊎◌, List, arith}
use go_tari_lib.Common.Result.{ok}
use go_tari_lib.Stdlib.Text.{codes, ◌===◌, ===_sound, to_lower}
use go_tari_lib.Address.Network.{
  esmeralda, IsNetwork, network_string, network_of_key, network_from_string,
}

-- The names that stand for a network, in lower case.
abbrev pub IsNetworkKey : List ℕ → ℕ → Type 0
IsNetworkKey key n =
    IsNetwork n × ((key ≡ network_string n) ⊎ ((key ≡ codes "esme") × (n ≡ esmeralda)))

switch_sound : (key value : List ℕ) (n : ℕ) → network_of_key key value ≡ ok n → IsNetworkKey key n
unfolding network_of_key network_string
switch_sound key value n h = ground (
  arith,
  ===_sound key (codes "mainnet"),
  ===_sound key (codes "nextnet"),
  ===_sound key (codes "stagenet"),
  ===_sound key (codes "localnet"),
  ===_sound key (codes "igor"),
  ===_sound key (codes "esmeralda"),
  ===_sound key (codes "esme"),
)

switch_complete :
    (key value : List ℕ) (n : ℕ) → IsNetworkKey key n → network_of_key key value ≡ ok n
unfolding network_of_key network_string ◌===◌
switch_complete key value n h = ground arith

-- A text is read as a network exactly if, in lower case, it is that network's own name, or `esme` for
-- Esmeralda: names are read back in every mix of cases, and nothing else is read.
pub network_from_string_iff :
    (value : List ℕ) (n : ℕ) → (network_from_string value ≡ ok n) ↔ IsNetworkKey (to_lower value) n
unfolding network_from_string
network_from_string_iff value n =
    (switch_sound (to_lower value) value n, switch_complete (to_lower value) value n)
