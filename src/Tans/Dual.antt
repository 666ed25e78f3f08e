-- ===== src/Tans/Dual.antt =====
-- The coders of src/algo/netc_tans.c with two states, which take turns on the symbols of a pair.
use netc.Prelude.{ℕ, zero, suc, ◌+◌, ◌-◌, ◌/◌, ◌%◌, ◌^◌, u32, not, ◌||◌}
use netc.Prelude.{List, [], ◌∷◌, ltb, leb, ◌==◌, if◌then◌else◌, length}
use netc.Bitstream.Writer.{Writer}
use netc.Bitstream.Reader.{Reader, Outcome, done, failed, undefined, ◌>>=◌}
use netc.Tans.Params.{params_12}
use netc.Tans.Table.{Table}
use netc.Tans.Codec.{encode_step, decode_step, bad_state}

module _ (t : Table) where
  -- `while (i >= 2)`: the pairs behind the head come first. An unpaired last symbol is coded before
  -- the loop, with the first state.
  unfoldable pub encode_pairs : List ℕ → ℕ → ℕ → Writer → Outcome (ℕ × ℕ × Writer)
  encode_pairs [] x0 x1 w = done (x0, x1, w)
  encode_pairs (sym ∷ []) x0 x1 w = do
    (x0', w') ← encode_step params_12 t sym x0 w
    done (x0', x1, w')
  encode_pairs (sym0 ∷ sym1 ∷ src) x0 x1 w = do
    (y0, y1, w1) ← encode_pairs src x0 x1 w
    (y1', w2) ← encode_step params_12 t sym1 y1 w1
    (y0', w3) ← encode_step params_12 t sym0 y0 w2
    done (y0', y1', w3)

  -- `while (i + 1 < dst_size)`, with the pairs that are left. Both entries are looked up before a bit
  -- is read.
  unfoldable pub decode_pairs : ℕ → ℕ → ℕ → Reader → Outcome (List ℕ)
  decode_pairs zero x0 x1 r = done []
  decode_pairs (suc left) x0 x1 r =
      let both = (do
        (sym0, y0, r1) ← decode_step params_12 t x0 r
        (sym1, y1, r2) ← decode_step params_12 t x1 r1
        dst ← decode_pairs left y0 y1 r2
        done (sym0 ∷ sym1 ∷ dst)) in
      if leb 4096 (u32 (x1 + 2 ^ 32 - 4096)) then undefined else both

-- `netc_tans_encode_x2`: the final states and the writer.
unfoldable pub encode_x2 : Table → List ℕ → Writer → Outcome (ℕ × ℕ × Writer)
encode_x2 t src w =
    if not t.valid || ltb (length src) 2 then failed else encode_pairs t src 4096 4096 w

-- `netc_tans_decode_x2`. For an odd size the first symbol comes from the first state.
unfoldable pub decode_x2 : Table → Reader → ℕ → ℕ → ℕ → Outcome (List ℕ)
decode_x2 t r dst_size x0 x1 =
    let pairs = decode_pairs t (dst_size / 2) x0 x1 r in
    let tail : Outcome (List ℕ) = (do
      (sym, y0, r') ← decode_step params_12 t x0 r
      dst ← decode_pairs t (dst_size / 2) y0 x1 r'
      done (sym ∷ dst)) in
    if not t.valid || ltb dst_size 2 || bad_state params_12 x0 || bad_state params_12 x1
    then failed
    else if dst_size % 2 == 1
    then tail
    else pairs
