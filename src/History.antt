-- ===== src/History.antt =====
-- The circular history of raw bytes: `ctx_ring_append` of src/core/netc_compress.c and its mirror
-- `decomp_ring_append` of src/core/netc_decompress.c.
use netc.Prelude.{
  ℕ, ◌+◌, ◌-◌, ◌%◌, List, [], ◌++◌, Bool, ◌||◌, leb, ◌==◌, if◌then◌else◌, length, take, drop,
}
pub mod Parts
pub mod Moves
pub mod Append
mod Tests

-- `ring`, whose length is `ring_size`, and `ring_pos` of a context. A context with no ring has an empty one.
pub record Ring : Type 0 where
  pub ring : List ℕ
  pub ring_pos : ℕ

-- `memcpy(xs + at, bytes, length bytes)`.
abbrev pub splice : ℕ → List ℕ → List ℕ → List ℕ
splice at bytes xs = take at xs ++ (bytes ++ drop (at + length bytes) xs)

-- The copies of the bytes that are left to write, fewer than the ring has or as many.
unfoldable pub copy_in : List ℕ → ℕ → List ℕ → List ℕ
copy_in ring start bytes =
    let tail = length ring - start in
    if leb (length bytes) tail
    then splice start bytes ring
    else splice 0 (drop tail bytes) (splice start (take tail bytes) ring)

unfoldable pub ring_append : Ring → List ℕ → Ring
unfolding copy_in
ring_append r bytes =
    let rs = length r.ring in
    let len = length bytes in
    let kept = (if leb rs len then drop (len - rs) bytes else bytes) in
    let start = (if leb rs len then 0 else r.ring_pos) in
    if rs == 0 || len == 0
    then r
    else record { ring = copy_in r.ring start kept; ring_pos = (start + length kept) % rs }
