-- ===== src/Rle.antt =====
-- Run-length coding: `rle_encode` of src/core/netc_compress.c and `rle_decode` of src/core/netc_decompress.c.
use netc.Prelude.{ℕ, zero, suc, ◌+◌, ◌-◌, ◌*◌, ◌^◌, List, [], ◌∷◌, ◌++◌, Option, none, some, ◌||◌}
use netc.Prelude.{ltb, ◌==◌, if◌then◌else◌, u8, length, replicate}
use netc.Prelude.Fallible
use netc.Result.{Result, ok, err, corrupt}
use netc.Result
pub mod RoundTrip
mod Tests

-- `while (run < 255 && ... == sym) run++`: the further bytes of the run, at most `room`, and what follows.
unfoldable pub run_from : ℕ → ℕ → List ℕ → ℕ × List ℕ
run_from zero sym src = (0, src)
run_from (suc room) sym [] = (0, [])
run_from (suc room) sym (byte ∷ src) =
    let rest = run_from room sym src in
    if byte == sym then (suc rest.0, rest.1) else (0, byte ∷ src)

-- The outer loop, with `out` bytes written; `none` is the return value -1. Each round takes a byte or more,
-- so that the length of the source is enough fuel.
unfoldable pub encode_loop : ℕ → ℕ → ℕ → List ℕ → Option (List ℕ)
encode_loop fuel rle_cap out [] = some []
encode_loop zero rle_cap out (sym ∷ src) = none
encode_loop (suc fuel) rle_cap out (sym ∷ src) =
    let run = suc (run_from 254 sym src).0 in
    let rest = encode_loop fuel rle_cap (out + 2) (run_from 254 sym src).1 in
    if ltb rle_cap (out + 2)
    then none
    else Fallible.◌>>=◌ rest (λ bytes. some (u8 run ∷ sym ∷ bytes))

unfoldable pub rle_encode : List ℕ → ℕ → Option (List ℕ)
unfolding encode_loop
rle_encode src rle_cap = encode_loop (length src) rle_cap 0 src

-- The loop of `rle_decode` and its last test, with `out` bytes written. A byte left over fails.
unfoldable pub decode_loop : ℕ → ℕ → List ℕ → Result (List ℕ)
decode_loop orig_size out [] = if out == orig_size then ok [] else err corrupt
decode_loop orig_size out (count ∷ []) = err corrupt
decode_loop orig_size out (count ∷ sym ∷ rle_src) =
    let rest = decode_loop orig_size (out + count) rle_src in
    if count == 0 || ltb orig_size (out + count)
    then err corrupt
    else Result.◌>>=◌ rest (λ dst. ok (replicate count sym ++ dst))

unfoldable pub rle_decode : List ℕ → ℕ → Result (List ℕ)
unfolding decode_loop
rle_decode rle_src orig_size = decode_loop orig_size 0 rle_src
