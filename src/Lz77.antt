-- ===== src/Lz77.antt =====
-- `lz77_decode` of src/core/netc_decompress.c.
use netc.Prelude.{
  ℕ, zero, suc, ◌+◌, ◌-◌, ◌*◌, List, [], ◌∷◌, ◌++◌, Bool, ltb, ◌==◌, ◌!=◌, if◌then◌else◌,
}
use netc.Prelude.{bit_and, length, get_or, take, drop}
use netc.Result.{Result, ok, err, corrupt}
pub mod Encode
pub mod Leads
pub mod Prefixes
pub mod Rounds
pub mod RoundTrip
pub mod Tokens
mod Tests

-- `dst[out + k] = dst[copy_from + k]`, one byte after the other, so that a copy may read what it wrote.
unfoldable pub copy : ℕ → ℕ → List ℕ → List ℕ
copy zero copy_from dst = dst
copy (suc left) copy_from dst = copy left (copy_from + 1) (dst ++ (get_or dst copy_from 0 ∷ []))

-- The loop, with the bytes still to read and those written. Each round reads a byte, so that the
-- length of the input is enough fuel.
unfoldable pub decode_loop : ℕ → ℕ → List ℕ → List ℕ → Result (List ℕ)
decode_loop fuel orig_size [] dst = if length dst == orig_size then ok dst else err corrupt
decode_loop zero orig_size (tok ∷ lz_src) dst = err corrupt
decode_loop (suc fuel) orig_size (tok ∷ lz_src) dst =
    let out = length dst in
    let match_len = bit_and tok 0x7f + 3 in
    let offset = get_or lz_src 0 0 + 1 in
    let lit_len = bit_and tok 0x7f + 1 in
    let matched = decode_loop fuel orig_size (drop 1 lz_src) (copy match_len (out - offset) dst) in
    let literal = decode_loop fuel orig_size (drop lit_len lz_src) (dst ++ take lit_len lz_src) in
    if bit_and tok 0x80 != 0
    then (if length lz_src == 0
        then err corrupt
        else if ltb out offset
        then err corrupt
        else if ltb orig_size (out + match_len)
        then err corrupt
        else matched)
    else (if ltb (length lz_src) lit_len
        then err corrupt
        else if ltb orig_size (out + lit_len)
        then err corrupt
        else literal)

unfoldable pub lz77_decode : List ℕ → ℕ → Result (List ℕ)
unfolding decode_loop copy
lz77_decode lz_src orig_size = decode_loop (length lz_src) orig_size lz_src []
