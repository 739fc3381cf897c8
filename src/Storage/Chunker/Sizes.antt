-- ===== src/Storage/Chunker/Sizes.antt =====
-- src/storage/chunker.rs: what the choice of the chunk size promises.
use share_dash.Common.{ℕ, ◌*◌, ◌≤◌, arith}
use share_dash.Storage.Chunker.{min_chunk_size, calculate_chunk_size}

-- The chosen size is between 1 MB and 16 MB, so it fits in one frame and in a u32; it does not fall
-- when the transfer grows; and a transfer of up to 320 GB has at most 20480 chunks' worth of bytes.
pub calculate_chunk_size_bounds :
    (a b : ℕ)
    → a ≤ b
    → (min_chunk_size ≤ calculate_chunk_size a)
      × (calculate_chunk_size a ≤ 16 * 1024 * 1024)
      × (calculate_chunk_size a ≤ calculate_chunk_size b)
      × (b ≤ 320 * 1024 * 1024 * 1024 → b ≤ 20480 * calculate_chunk_size b)
unfolding calculate_chunk_size
calculate_chunk_size_bounds a b h = ground arith
