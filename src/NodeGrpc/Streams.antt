-- ===== src/NodeGrpc/Streams.antt =====
-- nodeGRPC/client.go: the two functions that read a stream.
use go_tari_lib.Common.{ℕ, ◌≡◌, ◌≢◌, refl, false, ◌==◌, arith, Option, List}
use go_tari_lib.Common.Result.{Result, ok, err}
use go_tari_lib.Common.Action.{give, ◌>>=◌}
use go_tari_lib.Grpc.{CallError, Message}
use go_tari_lib.Grpc.Stream.{
  Stream, message, ended, Collects, not_opened, drain, drain-Collects, recv,
}
use go_tari_lib.NodeGrpc.Messages.{HistoricalBlock, BaseNodeClient}
use go_tari_lib.NodeGrpc.Client.{Client, get_block, get_block_by_height, get_network_diff}

-- What is taken from each message.
abbrev pub the_block : HistoricalBlock → Option Message
the_block m = m.block

-- The first message of a stream, or the error that stands in its place.
abbrev pub first_of : Result CallError (Stream Message) → Result CallError Message
first_of (ok (message m stream)) = ok m
first_of (ok (ended e)) = err e
first_of (err e) = err e

module _ {World Conn Ctx : Type 0} (node : BaseNodeClient World Conn Ctx) (background : Ctx)
    (c : Client Conn) where
  blocks_of :
      (r : Result CallError (Stream HistoricalBlock)) (w : World)
      → let out = ((λ s. (r, s)) >>= λ stream. give (drain get_block stream)) w in
        Collects the_block r out.0 × (out.1 ≡ w)
  blocks_of (ok stream) w = (drain-Collects the_block stream, refl)
  blocks_of (err e) w = (not_opened e, refl)

  difficulty_of :
      (r : Result CallError (Stream Message)) (w : World)
      → ((λ s. (r, s)) >>= λ stream. give (recv stream)) w ≡ (first_of r, w)
  difficulty_of (ok (message m stream)) w = refl
  difficulty_of (ok (ended e)) w = refl
  difficulty_of (err e) w = refl

  -- For some heights: the block of each message of the stream, in their order, if the stream was opened and ended
  -- cleanly, and else the error and no block. The difficulty is the first message of the stream, or the
  -- error in its place: for height 0 the stream of the one block at the tip, and for any other height the
  -- stream from this height to this height.
  pub streamed_replies :
      (block_ids : List ℕ) (height : ℕ) (w : World)
      → height ≢ 0
      → let (blocks, w1) = node.get_blocks c.conn background block_ids 16777216 w in
        let (tip, w2) =
          node.get_network_difficulty c.conn background
            (record { from_tip = 1; start_height = 0; end_height = 0 })
            w in
        let (one, w3) =
          node.get_network_difficulty c.conn background
            (record { from_tip = 0; start_height = height; end_height = height })
            w in
        Collects the_block blocks (get_block_by_height node background c block_ids w).0
        × ((get_block_by_height node background c block_ids w).1 ≡ w1)
        × (get_network_diff node background c 0 w ≡ (first_of tip, w2))
        × (get_network_diff node background c height w ≡ (first_of one, w3))
  unfolding get_block_by_height get_network_diff
  streamed_replies block_ids height w h = (
    (let (r, w') = node.get_blocks c.conn background block_ids 16777216 w in
        let (collects, same) = blocks_of r w' in collects),
    (let (r, w') = node.get_blocks c.conn background block_ids 16777216 w in
        let (collects, same) = blocks_of r w' in same),
    (let (r, w') =
          node.get_network_difficulty c.conn background
            (record { from_tip = 1; start_height = 0; end_height = 0 }) w in
        difficulty_of r w'),
    rw other (
        let (r, w') =
          node.get_network_difficulty c.conn background
            (record { from_tip = 0; start_height = height; end_height = height }) w in
        difficulty_of r w'),
  )
    where
      other : (height == 0) ≡ false
      other = ground arith
