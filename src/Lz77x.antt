-- ===== src/Lz77x.antt =====
-- Matches against the history of earlier packets: `lz77x_encode` of src/core/netc_compress.c and `lz77x_decode`
-- of src/core/netc_decompress.c. A context with no ring has an empty one.
pub mod RoundTrip
pub mod Tokens
mod Tests
use netc.Prelude.{ℕ, zero, suc, ◌+◌, ◌-◌, ◌%◌, ◌^◌, ◌*◌, min, List, [], ◌∷◌, ◌++◌}
use netc.Prelude.{◌&&◌, ◌||◌, Option, none, some, ltb, leb, ◌==◌, ◌!=◌, if◌then◌else◌}
use netc.Prelude.{u16, u32, ◌>>>◌, bit_and, length, get_or, take, drop}
use netc.Result.{Result, ok, err, corrupt, ◌>>=◌}
use netc.Tans.Table.{update}
use netc.Lz77.{copy}
use netc.Lz77.Encode.{hash3, match_length, loop, start, lz77_encode}

-- `ring[(rstart + k) % ring_size]` for `left` values of `k`.
unfoldable pub ring_bytes : List ℕ → ℕ → ℕ → ℕ → List ℕ
ring_bytes ring rstart k zero = []
ring_bytes ring rstart k (suc left) =
    get_or ring ((rstart + k) % length ring) 0 ∷ ring_bytes ring rstart (k + 1) left

-- `(ring_pos + ring_size - distance) % ring_size` on `uint32_t`.
abbrev pub back_from : List ℕ → ℕ → ℕ → ℕ
back_from ring ring_pos distance = u32 (ring_pos + length ring + 2 ^ 32 - distance) % length ring

-- The rounds of the scan of the ring, from `j` on.
unfoldable pub scan_ring : List ℕ → ℕ → ℕ → ℕ → ℕ → (ℕ → Option ℕ) → ℕ → Option ℕ
unfolding hash3
scan_ring ring scan_start scan_len zero j ring_ht = ring_ht
scan_ring ring scan_start scan_len (suc left) j ring_ht =
    let abs_pos = u32 (scan_start + j) % length ring in
    let b0 = get_or ring abs_pos 0 in
    let b1 = get_or ring (u32 (abs_pos + 1) % length ring) 0 in
    let b2 = get_or ring (u32 (abs_pos + 2) % length ring) 0 in
    let h = hash3 4095 (b0 ∷ b1 ∷ b2 ∷ []) 0 in
    let rest = scan_ring ring scan_start scan_len left (j + 1) (update ring_ht h (some abs_pos)) in
    if ltb (j + 2) scan_len then rest else ring_ht

-- `ring_ht`: the last position of each hash among the `prev_pkt_size` newest bytes of the ring.
unfoldable pub ring_table : List ℕ → ℕ → ℕ → ℕ → Option ℕ
unfolding scan_ring
ring_table ring ring_pos prev_pkt_size =
    let most = u32 (length ring + 2 ^ 32 - 2) in
    let capped = (if ltb most prev_pkt_size then most else prev_pkt_size) in
    let scan_len = (if ltb capped 3 then 0 else capped) in
    scan_ring ring (back_from ring ring_pos scan_len) scan_len scan_len 0 (λ _. none)

-- The best match so far: its length, 0 for none, and its token.
abbrev pub Best : Type 0
Best = ℕ × List ℕ

-- The candidate within the packet, 1 to 256 bytes back.
unfoldable pub short_candidate : List ℕ → Option ℕ → ℕ → Best
unfolding match_length
short_candidate src none i = (0, [])
short_candidate src (some src_entry) i =
    let src_off = i - src_entry in
    let mlen = match_length (min (length src - i) 66) (drop src_entry src) (drop i src) in
    if leb 1 src_off && leb src_off 256 && leb 3 mlen
    then (mlen, (0x80 + (mlen - 3)) ∷ (src_off - 1) ∷ [])
    else (0, [])

module _ (src ring : List ℕ) (ring_pos : ℕ) where
  -- The candidate in the ring, which has to be longer.
  unfoldable pub long_candidate : Option ℕ → ℕ → Best → Best
  unfolding match_length ring_bytes
  long_candidate none i best = best
  long_candidate (some abs_pos) i best =
      let ring_off = back_from ring ring_pos abs_pos in
      let max_m = min (length src - i) 66 in
      let rstart = back_from ring ring_pos ring_off in
      let mlen = match_length max_m (ring_bytes ring rstart 0 max_m) (drop i src) in
      let off16 = u16 (ring_off - 1) in
      if (leb 1 ring_off && leb ring_off 65536) && (leb 3 mlen && ltb best.0 mlen)
      then (mlen, (0xc0 + (mlen - 3)) ∷ bit_and off16 0xff ∷ (off16 >>> 8) ∷ [])
      else best

  unfoldable pub find : (ℕ → Option ℕ) → Option ℕ → ℕ → Option (ℕ × List ℕ)
  unfolding short_candidate long_candidate hash3
  find ring_ht entry i =
      let best = long_candidate (ring_ht (hash3 4095 src i)) i (short_candidate src entry i) in
      if leb 3 best.0 then some best else none

  unfoldable pub lz77x_encode : ℕ → ℕ → Option (List ℕ)
  unfolding loop find ring_table lz77_encode
  lz77x_encode prev_pkt_size lz_cap =
      if length ring == 0
      then lz77_encode src lz_cap
      else loop src lz_cap lz_cap (hash3 4095 src) (find (ring_table ring ring_pos prev_pkt_size))
          (length src) start

-- One round of the decoder after its first byte: what is left to read, and what is written.
unfoldable pub token : List ℕ → ℕ → ℕ → ℕ → List ℕ → List ℕ → Result (List ℕ × List ℕ)
unfolding copy ring_bytes
token ring ring_pos orig_size tok lz_src dst =
    let out = length dst in
    let lit_len = bit_and tok 0x7f + 1 in
    let match_len = bit_and tok 0x3f + 3 in
    let offset = get_or lz_src 0 0 + 1 in
    let distance = u16 (get_or lz_src 0 0 + get_or lz_src 1 0 * 256) + 1 in
    let rstart = back_from ring ring_pos distance in
    if bit_and tok 0x80 == 0
    then (if ltb (length lz_src) lit_len
        then err corrupt
        else if ltb orig_size (out + lit_len)
        then err corrupt
        else ok (drop lit_len lz_src, dst ++ take lit_len lz_src))
    else if bit_and tok 0x40 == 0
    then (if length lz_src == 0
        then err corrupt
        else if ltb out offset
        then err corrupt
        else if ltb orig_size (out + match_len)
        then err corrupt
        else ok (drop 1 lz_src, copy match_len (out - offset) dst))
    else if ltb (length lz_src) 2
    then err corrupt
    else if length ring == 0
    then err corrupt
    else if ltb (length ring) distance
    then err corrupt
    else if ltb orig_size (out + match_len)
    then err corrupt
    else ok (drop 2 lz_src, dst ++ ring_bytes ring rstart 0 match_len)

-- The rounds, with the bytes still to read and those written. Each reads a byte, so that the length of
-- the input is enough fuel.
unfoldable pub decode_loop : List ℕ → ℕ → ℕ → ℕ → List ℕ → List ℕ → Result (List ℕ)
unfolding token
decode_loop ring ring_pos orig_size fuel [] dst =
    if length dst == orig_size then ok dst else err corrupt
decode_loop ring ring_pos orig_size zero (tok ∷ lz_src) dst = err corrupt
decode_loop ring ring_pos orig_size (suc fuel) (tok ∷ lz_src) dst =
    token ring ring_pos orig_size tok lz_src dst >>= λ next.
    decode_loop ring ring_pos orig_size fuel next.0 next.1

unfoldable pub lz77x_decode : List ℕ → ℕ → List ℕ → ℕ → Result (List ℕ)
unfolding decode_loop
lz77x_decode lz_src orig_size ring ring_pos =
    decode_loop ring ring_pos orig_size (length lz_src) lz_src []
