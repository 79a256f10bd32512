-- ===== src/Propagation/Narrowing.antt =====
-- services/propagation/propagator.go: the broadcast of one chunk, and its halving. A message stands
-- for its index in the chunk, in the raw transactions and in the results, which are aligned.
use arcade.Prelude.{
  ℕ, zero, suc, ◌/◌, Bool, ◌&&◌, List, [], ◌∷◌, ◌++◌, if◌then◌else◌, ltb, length, take, drop,
}
pub mod Settled

-- The built-in copy into a slice of the same length or longer.
unfoldable pub copy {ℓ} : {A : Type ℓ} → List A → List A → List A
copy [] results = []
copy (o ∷ out) [] = o ∷ out
copy (o ∷ out) (r ∷ results) = r ∷ copy out results

-- `broadcast` is broadcastBatchToEndpoints over a state of the network: the results of a chunk, and
-- whether it needs narrowing. The fuel is the length of the chunk.
module _ {Net Msg TxResult : Type 0}
    (broadcast : Net → List Msg → Net × (List TxResult × Bool)) where
  unfoldable pub broadcast_chunk : ℕ → Net → List Msg → List TxResult → Net × List TxResult
  broadcast_chunk zero net chunk out = (net, out)
  broadcast_chunk (suc fuel) net chunk out =
      let (net', (results, needs_narrowing)) = broadcast net chunk in
      let mid = length chunk / 2 in
      let (left, out_left) = broadcast_chunk fuel net' (take mid chunk) (take mid out) in
      let (right, out_right) = broadcast_chunk fuel left (drop mid chunk) (drop mid out) in
      if needs_narrowing && ltb 1 (length chunk)
      then (right, out_left ++ out_right)
      else (net', copy out results)
