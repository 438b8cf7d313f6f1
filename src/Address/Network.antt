-- ===== src/Address/Network.antt =====
-- address/network.go: the network byte and its names. A `Network` is a uint8, as in Go.
pub mod Names
use go_tari_lib.Common.{ℕ, ◌≡◌, ◌↔◌, ◌⊎◌, ◌<◌, List, ◌++◌, ◌||◌, arith, ◌==◌, if◌then◌else◌}
use go_tari_lib.Common.Result.{Result, ok, err}
use go_tari_lib.Stdlib.Text.{codes, ◌===◌, to_lower}
use go_tari_lib.Address.Errors.{Error, invalid_network, creation_error}

abbrev pub main_net : ℕ
main_net = 0x00

abbrev pub stage_net : ℕ
stage_net = 0x01

abbrev pub next_net : ℕ
next_net = 0x02

abbrev pub local_net : ℕ
local_net = 0x10

abbrev pub igor : ℕ
igor = 0x24

abbrev pub esmeralda : ℕ
esmeralda = 0x26

abbrev pub network_as_byte : ℕ → ℕ
network_as_byte n = n

unfoldable pub network_string : ℕ → List ℕ
network_string n =
    if n == main_net
    then codes "mainnet"
    else if n == stage_net
    then codes "stagenet"
    else if n == next_net
    then codes "nextnet"
    else if n == igor
    then codes "igor"
    else if n == esmeralda
    then codes "esmeralda"
    else if n == local_net
    then codes "localnet"
    else codes "unknown"

unfoldable pub network_from_byte : ℕ → Result Error ℕ
network_from_byte v =
    if v == main_net
    then ok main_net
    else if v == stage_net
    then ok stage_net
    else if v == next_net
    then ok next_net
    else if v == local_net
    then ok local_net
    else if v == igor
    then ok igor
    else if v == esmeralda
    then ok esmeralda
    else err invalid_network

-- The switch of `NetworkFromString`, on the lowered text; `value` goes into the message.
network_of_key : List ℕ → List ℕ → Result Error ℕ
network_of_key key value =
    if key === codes "mainnet"
    then ok main_net
    else if key === codes "nextnet"
    then ok next_net
    else if key === codes "stagenet"
    then ok stage_net
    else if key === codes "localnet"
    then ok local_net
    else if key === codes "igor"
    then ok igor
    else if key === codes "esmeralda" || key === codes "esme"
    then ok esmeralda
    else err (creation_error (codes "invalid network option: " ++ value))

unfoldable pub network_from_string : List ℕ → Result Error ℕ
unfolding network_of_key
network_from_string value = network_of_key (to_lower value) value

-- The six networks.
abbrev pub IsNetwork : ℕ → Type 0
IsNetwork n =
    (n ≡ main_net)
    ⊎ (n ≡ stage_net)
    ⊎ (n ≡ next_net)
    ⊎ (n ≡ local_net)
    ⊎ (n ≡ igor)
    ⊎ (n ≡ esmeralda)

-- A byte is read as a network exactly if it is one of the six, and then it is that network.
pub network_from_byte_iff : (v n : ℕ) → (network_from_byte v ≡ ok n) ↔ ((n ≡ v) × IsNetwork v)
unfolding network_from_byte
network_from_byte_iff v n = ground arith

pub IsNetwork-IsByte : (n : ℕ) → IsNetwork n → n < 256
IsNetwork-IsByte n h = ground arith
