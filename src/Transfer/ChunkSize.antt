-- ===== src/Transfer/ChunkSize.antt =====
-- The choice of the chunk size, and the percentage that is reported.
use native.Mathlib.Nat.{div-le_of_le-mul, mod-eq_of_lt}
use local_chat_xxx.Common.{◌↔◌, lt→ltb, ℕ, ◌*◌, ◌/◌, ◌^◌, ◌≤◌, ◌<◌, ◌≡◌, ◌⊎◌, arith}
use local_chat_xxx.Transfer.Defs.{determine_chunk_size, percent, max_file_chunk_size_bytes_1mb}

-- Every chunk size is at least 64 bytes and at most 1048676, so a frame's length fits 32 bits.
pub determine_chunk_size_bounds :
    (fsize : ℕ) → (64 ≤ determine_chunk_size fsize) × (determine_chunk_size fsize ≤ 1048676)
unfolding determine_chunk_size
determine_chunk_size_bounds fsize = ground arith

-- Below five million bytes exactly these sizes get chunks of a megabyte: they fall between the
-- ranges of the ladder.
pub one_megabyte_chunks :
    (fsize : ℕ)
    → fsize < 5000000
    → (determine_chunk_size fsize ≡ max_file_chunk_size_bytes_1mb) ↔ (
        ((1000 ≤ fsize) × (fsize ≤ 1024))
        ⊎ ((fsize ≡ 8000) ⊎ ((fsize ≡ 64000) ⊎ ((fsize ≡ 256000) ⊎ (fsize ≡ 1000000)))))
unfolding determine_chunk_size
one_megabyte_chunks fsize h = (λ e. ground arith, λ e. ground arith)

-- The reported percentage is the exact quotient, does not wrap, and is at most 100.
pub percent_lem :
    (done total : ℕ)
    → 0 < total
    → done ≤ total
    → total < 2 ^ 32
    → (percent done total ≡ done * 100 / total) × (percent done total ≤ 100)
unfolding percent
percent_lem done total p h k = (exact, rw exact capped)
  where
    capped : done * 100 / total ≤ 100
    capped = div-le_of_le-mul total (omega arith)

    exact : percent done total ≡ done * 100 / total
    exact = rw (lt→ltb 0 total p, mod-eq_of_lt wide) (mod-eq_of_lt (omega (arith, capped)))
      where
        wide : done * 100 < 2 ^ 64
        wide = omega arith
