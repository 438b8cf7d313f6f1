-- ===== src/NodeGrpc/Tests.antt =====
-- Concrete runs of nodeGRPC, against a node that counts its calls.
use go_tari_lib.Common.{ℕ, suc, ◌≡◌, some, none, List, [], ◌∷◌, arith}
use go_tari_lib.Common.Result.{ok, err}
use go_tari_lib.Grpc.{eof, status, Dialer}
use go_tari_lib.Grpc.Stream.{Collects, message, ended}
use go_tari_lib.NodeGrpc.Messages.{BaseNodeClient}
use go_tari_lib.NodeGrpc.Client.{Client, get_block_by_height, get_network_diff}
use go_tari_lib.NodeGrpc.Streams.{the_block, first_of, streamed_replies}

abbrev counting : BaseNodeClient ℕ (List ℕ) Unit
counting = record {
  unary = λ conn ctx q w. (err (status 14 []), suc w);
  get_blocks = λ conn ctx heights most w.
      (ok (message (record { block = some (1 ∷ []) }) (ended eof)), suc w);
  get_network_difficulty = λ conn ctx request w. (ok (message (2 ∷ []) (ended eof)), suc w);
}

abbrev at_home : Client (List ℕ)
at_home = record { conn = 7 ∷ [] }

abbrev by_address : Dialer (List ℕ)
by_address = record { new_client = λ address opts. (address, none) }

streamed_replies_example :
    let (blocks, w1) = counting.get_blocks at_home.conn tt (4 ∷ []) 16777216 0 in
    let (tip, w2) =
      counting.get_network_difficulty at_home.conn tt
        (record { from_tip = 1; start_height = 0; end_height = 0 })
        0 in
    let (one, w3) =
      counting.get_network_difficulty at_home.conn tt
        (record { from_tip = 0; start_height = 5; end_height = 5 })
        0 in
    Collects the_block blocks (get_block_by_height counting tt at_home (4 ∷ []) 0).0
    × ((get_block_by_height counting tt at_home (4 ∷ []) 0).1 ≡ w1)
    × (get_network_diff counting tt at_home 0 0 ≡ (first_of tip, w2))
    × (get_network_diff counting tt at_home 5 0 ≡ (first_of one, w3))
streamed_replies_example = streamed_replies counting tt at_home (4 ∷ []) 5 0 (λ h. ground arith)
