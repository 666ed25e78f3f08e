-- ===== src/Bitstream/Writer.antt =====
-- `netc_bsw_t` of src/util/netc_bitstream.h. `out` holds the bytes from `start` up to `ptr`, and `cap` is
-- `end - start`. The target is little-endian, so that the `memcpy` of a word stores its low byte
-- first. The callers drop a writer whose write or flush failed, so a failure is `none`.
use netc.Prelude.{ℕ, zero, suc, ◌+◌, ◌-◌, ◌/◌, ◌%◌, ◌^◌, List, [], ◌∷◌, ◌++◌, Option, none, some}
use netc.Prelude.{ltb, leb, ◌==◌, if◌then◌else◌, u32, u64, ◌<<<◌, ◌>>>◌, bit_and, bit_or, length}

pub record Writer : Type 0 where
  pub out : List ℕ
  pub cap : ℕ
  pub accum : ℕ
  pub bits : ℕ

unfoldable pub init : ℕ → Writer
init cap = record { out = []; cap = cap; accum = 0; bits = 0 }

-- The four bytes of a word as `memcpy` stores them.
abbrev pub word_bytes : ℕ → List ℕ
word_bytes w = w % 256 ∷ (w / 2 ^ 8) % 256 ∷ (w / 2 ^ 16) % 256 ∷ (w / 2 ^ 24) % 256 ∷ []

-- `netc_bsw_write(w, v, nb)`.
unfoldable pub write : Writer → ℕ → ℕ → Option Writer
write w v nb =
    let accum = bit_or w.accum (u64 (v <<< w.bits)) in
    let bits = w.bits + nb in
    if leb 32 bits
    then if ltb w.cap (length w.out + 4)
      then none
      else some (record {
        out = w.out ++ word_bytes (u32 accum);
        cap = w.cap;
        accum = accum >>> 32;
        bits = bits - 32;
      })
    else some (record w { accum = accum; bits = bits })

-- `while (w->bits > 0)`. The fuel is the number of bits, of which each round takes eight; a count
-- that C takes below 0 is 0 here, which the test cannot tell apart.
unfoldable pub flush_loop : ℕ → Writer → Option Writer
flush_loop zero w = some w
flush_loop (suc fuel) w =
    let rest = flush_loop fuel (record {
      out = w.out ++ (bit_and w.accum 0xff ∷ []);
      cap = w.cap;
      accum = w.accum >>> 8;
      bits = w.bits - 8;
    }) in
    if w.bits == 0 then some w else if leb w.cap (length w.out) then none else rest

-- `netc_bsw_flush`; the number of bytes that it returns is `length` of the result's `out`.
unfoldable pub flush : Writer → Option Writer
unfolding flush_loop
flush w =
    flush_loop (w.bits + 1)
      (record w { accum = bit_or w.accum (u64 (1 <<< w.bits)); bits = w.bits + 1 })
