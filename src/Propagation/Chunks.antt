-- ===== src/Propagation/Chunks.antt =====
-- services/propagation/chunking.go: the plan that cuts a batch of raw transactions into chunks. A
-- transaction is its length in bytes; a cap that is not positive is 0.
use arcade.Prelude.{
  ℕ, ◌+◌, ◌-◌, Bool, ◌&&◌, ◌||◌, List, [], ◌∷◌, ◌++◌, if◌then◌else◌, ltb, leb, length,
}
pub mod Cover

pub record ChunkSpan : Type 0 where
  pub start : ℕ
  pub end : ℕ

unfoldable pub span_full : ℕ → ℕ → ℕ → ℕ → ℕ → Bool
span_full count bytes next max_count max_bytes =
    (ltb 0 max_count && leb max_count count) || (ltb 0 max_bytes && ltb max_bytes (bytes + next))

-- The loop of planChunks at transaction `i`, in a span from `start` that holds `bytes` bytes; the
-- spans that it appends from here on, the last one included.
unfoldable pub plan_from : ℕ → ℕ → ℕ → ℕ → ℕ → List ℕ → List ChunkSpan
plan_from max_count max_bytes i start bytes [] = record { start = start; end = i } ∷ []
plan_from max_count max_bytes i start bytes (n ∷ rest) =
    if ltb 0 (i - start) && span_full (i - start) bytes n max_count max_bytes
    then record { start = start; end = i } ∷ plan_from max_count max_bytes (i + 1) i n rest
    else plan_from max_count max_bytes (i + 1) start (bytes + n) rest

unfoldable pub plan_chunks : ℕ → ℕ → List ℕ → List ChunkSpan
plan_chunks max_count max_bytes [] = []
plan_chunks max_count max_bytes (n ∷ rest) = plan_from max_count max_bytes 0 0 0 (n ∷ rest)

-- rawTxsBytes
unfoldable pub raw_txs_bytes : List ℕ → ℕ
raw_txs_bytes [] = 0
raw_txs_bytes (n ∷ rest) = n + raw_txs_bytes rest
