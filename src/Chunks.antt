-- ===== src/Chunks.antt =====
-- `count_duplicate_data_chunks` (src/core/common/misc.cpp).
use znode.Common.{
  ℕ, zero, suc, ◌+◌, ◌/◌, Bool, false, not, ◌||◌, ◌&&◌, List, [], ◌∷◌, length, take, drop,
  if◌then◌else◌, ltb, ◌==◌,
}
use znode.Common.Bytes.{bytes_eq}

-- `std::set::contains`.
unfoldable pub contains_chunk : List ℕ → List (List ℕ) → Bool
contains_chunk chunk [] = false
contains_chunk chunk (x ∷ seen) = bytes_eq x chunk || contains_chunk chunk seen

-- The loop over the chunks that are left, from the first byte that is left on.
unfoldable pub count_loop : ℕ → ℕ → ℕ → List ℕ → List (List ℕ) → ℕ → ℕ
unfolding contains_chunk
count_loop zero chunk_size max_count bytes seen count = count
count_loop (suc chunks) chunk_size max_count bytes seen count =
    let chunk = take chunk_size bytes in
    let rest = drop chunk_size bytes in
    let stop = not (max_count == 0) && (count + 1 == max_count) in
    let next_dup = count_loop chunks chunk_size max_count rest seen (count + 1) in
    let next_new = count_loop chunks chunk_size max_count rest (chunk ∷ seen) count in
    if contains_chunk chunk seen then (if stop then count + 1 else next_dup) else next_new

unfoldable pub count_duplicate_data_chunks : List ℕ → ℕ → ℕ → ℕ
unfolding count_loop
count_duplicate_data_chunks bytes chunk_size max_count =
    if (chunk_size == 0) || ltb (length bytes) chunk_size
    then 0
    else count_loop (length bytes / chunk_size) chunk_size max_count bytes [] 0
