-- ===== src/Lzp.antt =====
-- The predictor of src/algo/netc_lzp.h. Its table is a function of the slot, which the hash keeps below
-- the table's size; a slot is the predicted byte and the confidence, 0 for an empty one.
use netc.Prelude.{
  ℕ, zero, suc, ◌+◌, ◌-◌, ◌*◌, ◌/◌, ◌^◌, List, [], ◌∷◌, ◌++◌, Bool, true, false, ◌&&◌, not,
}
use netc.Prelude.{
  Option, none, some, ltb, leb, ◌==◌, ◌!=◌, if◌then◌else◌, u8, u16, u32, ◌<<<◌, ◌>>>◌,
}
use netc.Prelude.{bit_and, bit_or, bit_xor, length, get_or, set, take, drop, replicate}
use netc.Prelude.Fallible.{◌>>=◌}
pub mod Filter
pub mod Sync
mod Tests

-- `netc_lzp_entry_t`.
pub record LzpEntry : Type 0 where
  pub value : ℕ
  pub valid : ℕ

abbrev pub LzpTable : Type 0
LzpTable = ℕ → LzpEntry

-- `netc_lzp_hash`.
unfoldable pub lzp_hash : ℕ → ℕ → ℕ
lzp_hash prev_byte offset =
    let h0 = u32 (bit_xor 2166136261 prev_byte * 16777619) in
    let h1 = u32 (bit_xor h0 (bit_and offset 0xffff) * 16777619) in
    let h2 = u32 (bit_xor h1 (offset >>> 16) * 16777619) in bit_and h2 (2 ^ 17 - 1)

-- `netc_lzp_hash3`.
unfoldable pub lzp_hash3 : ℕ → ℕ → ℕ → ℕ
lzp_hash3 p0 p1 p2 =
    let h0 = u32 (bit_xor 2166136261 p0 * 16777619) in
    let h1 = u32 (bit_xor h0 p1 * 16777619) in
    let h2 = u32 (bit_xor h1 p2 * 16777619) in bit_and h2 (2 ^ 17 - 1)

unfoldable pub prediction : LzpTable → ℕ → ℕ → ℕ
prediction lzp_table prev i =
    let e = lzp_table (lzp_hash prev (u32 i)) in if e.valid != 0 then e.value else 0

-- `netc_lzp_xor_filter` from offset `i` on, after the byte `prev`.
unfoldable pub xor_filter_from : LzpTable → ℕ → ℕ → List ℕ → List ℕ
xor_filter_from lzp_table i prev [] = []
xor_filter_from lzp_table i prev (byte ∷ src) =
    bit_xor byte (prediction lzp_table prev i) ∷ xor_filter_from lzp_table (i + 1) byte src

unfoldable pub xor_filter : LzpTable → List ℕ → List ℕ
unfolding xor_filter_from
xor_filter lzp_table src = xor_filter_from lzp_table 0 0 src

-- `netc_lzp_xor_unfilter`: the byte before is the one just restored.
unfoldable pub xor_unfilter_from : LzpTable → ℕ → ℕ → List ℕ → List ℕ
xor_unfilter_from lzp_table i prev [] = []
xor_unfilter_from lzp_table i prev (byte ∷ src) =
    let restored = bit_xor byte (prediction lzp_table prev i) in
    restored ∷ xor_unfilter_from lzp_table (i + 1) restored src

unfoldable pub xor_unfilter : LzpTable → List ℕ → List ℕ
unfolding xor_unfilter_from
xor_unfilter lzp_table src = xor_unfilter_from lzp_table 0 0 src

-- The slot after the byte that followed its context.
unfoldable pub learn : LzpEntry → ℕ → LzpEntry
learn e byte =
    if e.valid == 0
    then record { value = byte; valid = 1 }
    else if e.value != byte
    then (if ltb 1 e.valid
        then record e { valid = e.valid - 1 }
        else record { value = byte; valid = 1 })
    else if ltb e.valid 255
    then record e { valid = e.valid + 1 }
    else e

-- `netc_lzp_adaptive_update` from offset `i` on, after the byte `prev`.
unfoldable pub adaptive_update_from : LzpTable → ℕ → ℕ → List ℕ → LzpTable
unfolding learn
adaptive_update_from lzp_table i prev [] = lzp_table
adaptive_update_from lzp_table i prev (byte ∷ bytes) =
    let h = lzp_hash prev (u32 i) in
    let updated = (λ (slot : ℕ). if h == slot then learn (lzp_table h) byte else lzp_table slot) in
    adaptive_update_from updated (i + 1) byte bytes

unfoldable pub adaptive_update : LzpTable → List ℕ → LzpTable
unfolding adaptive_update_from
adaptive_update lzp_table bytes = adaptive_update_from lzp_table 0 0 bytes

-- The loop of `netc_lzp_predict`: the flag bits and the literals, in order.
abbrev is_hit : LzpTable → ℕ → ℕ → ℕ → Bool
is_hit lzp_table i prev byte =
    let e = lzp_table (lzp_hash prev (u32 i)) in e.valid != 0 && e.value == byte

-- `flag_dst[i >> 3] |= 0x80 >> (i & 7)` where the prediction is right, and a literal where not.
unfoldable pub predict_loop : LzpTable → ℕ → ℕ → List ℕ → List ℕ → List ℕ × List ℕ
predict_loop lzp_table i prev [] flags = (flags, [])
predict_loop lzp_table i prev (byte ∷ src) flags =
    let flagged = set flags (i / 8) (bit_or (get_or flags (i / 8) 0) (0x80 >>> bit_and i 7)) in
    let hit = predict_loop lzp_table (i + 1) byte src flagged in
    let miss = predict_loop lzp_table (i + 1) byte src flags in
    if is_hit lzp_table i prev byte then hit else (miss.0, byte ∷ miss.1)

-- `netc_lzp_predict`; `none` is the return value -1. `n_literals` is a `uint16_t`, which a source of at most
-- 65535 bytes does not take over its limit.
unfoldable pub predict : LzpTable → List ℕ → ℕ → Option (List ℕ)
unfolding predict_loop
predict lzp_table src dst_cap =
    let src_size = length src in
    let flag_bytes = (src_size + 7) / 8 in
    let (flags, literals) = predict_loop lzp_table 0 0 src (replicate flag_bytes 0) in
    let n_literals = u16 (length literals) in
    let total = 2 + flag_bytes + n_literals in
    if ltb src_size 2
    then none
    else if ltb dst_cap (2 + flag_bytes + src_size)
    then none
    else if ltb total src_size
    then some (bit_and n_literals 0xff ∷ n_literals >>> 8 ∷ (flags ++ literals))
    else none

-- The next literal, if one is left.
abbrev uncons : List ℕ → Option (ℕ × List ℕ)
uncons [] = none
uncons (byte ∷ lits) = some (byte, lits)

-- The loop of `netc_lzp_reconstruct` for the offsets from `i` on: the bytes and the literals left.
unfoldable pub reconstruct_loop : LzpTable → List ℕ → ℕ → ℕ → ℕ → List ℕ → Option (List ℕ × List ℕ)
reconstruct_loop lzp_table flags zero i prev lits = some ([], lits)
reconstruct_loop lzp_table flags (suc left) i prev lits =
    let flag = bit_and (get_or flags (i / 8) 0 >>> (7 - bit_and i 7)) 1 in
    let e = lzp_table (lzp_hash prev (u32 i)) in
    let hit = (do
      (dst, rest) ← reconstruct_loop lzp_table flags left (i + 1) e.value lits
      some (e.value ∷ dst, rest)) in
    let miss = (do
      (byte, lits') ← uncons lits
      (dst, rest) ← reconstruct_loop lzp_table flags left (i + 1) byte lits'
      some (byte ∷ dst, rest)) in
    if flag != 0 then (if e.valid == 0 then none else hit) else miss

-- `netc_lzp_reconstruct`; `none` is the return value -1. All `n_literals` have to be used.
unfoldable pub reconstruct : LzpTable → List ℕ → ℕ → Option (List ℕ)
unfolding reconstruct_loop
reconstruct lzp_table src dst_size =
    let n_literals = get_or src 0 0 + get_or src 1 0 * 256 in
    let flag_bytes = (dst_size + 7) / 8 in
    let flags = take flag_bytes (drop 2 src) in
    let literals = take n_literals (drop (2 + flag_bytes) src) in
    if ltb dst_size 2
    then none
    else if ltb (length src) 2
    then none
    else if ltb (length src) (2 + flag_bytes + n_literals)
    then none
    else (do
      (dst, rest) ← reconstruct_loop lzp_table flags dst_size 0 0 literals
      if length rest == 0 then some dst else none)
