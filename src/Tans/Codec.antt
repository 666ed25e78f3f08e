-- ===== src/Tans/Codec.antt =====
-- The coders of src/algo/netc_tans.c with one state. `done` carries the final state and the writer, or the
-- bytes; `failed` is the return value 0 of an encoder or -1 of a decoder, after which the callers
-- use neither the writer nor the bytes; `undefined` is a read outside an array. A prefetch has no effect.
use netc.Prelude.{ℕ, zero, suc, ◌+◌, ◌-◌, ◌*◌, ◌^◌, Bool, true, false, not, ◌||◌}
use netc.Prelude.{
  List, [], ◌∷◌, Option, none, some, ltb, leb, ◌==◌, if◌then◌else◌, u32, ◌>>>◌, bit_and,
}
use netc.Bitstream.Writer.{Writer, write}
use netc.Bitstream.Reader.{Reader, Outcome, done, failed, undefined, ◌>>=◌, read}
use netc.Tans.Params.{Params, table_size, params_12, params_10}
use netc.Tans.Table.{Table}
use netc.Tans.Buckets.{ctx_bucket, bigram_class}

abbrev pub from_option {ℓ} : {A : Type ℓ} → Option A → Outcome A
from_option none = failed
from_option (some a) = done a

module _ (p : Params) (t : Table) where
  -- The body of the encoders' loops, and `tans_encode_step`.
  unfoldable pub encode_step : ℕ → ℕ → Writer → Outcome (ℕ × Writer)
  encode_step sym x w =
      let e = t.encode sym in
      let nb = (if e.nb_hi == 0 || leb e.lower x then e.nb_hi else e.nb_hi - 1) in
      let j = u32 ((x >>> nb) + 2 ^ 32 - e.freq) in
      let index = u32 (e.cumul + j) in
      do
        w' ← if nb == 0 then done w else from_option (write w (bit_and x (2 ^ nb - 1)) nb)
        if leb (table_size p) index then undefined else done (t.encode_state index, w')

  -- With the check of the 10-bit and the context-adaptive encoders, `if (f == 0) return 0`.
  unfoldable pub encode_step_checked : ℕ → ℕ → Writer → Outcome (ℕ × Writer)
  unfolding encode_step
  encode_step_checked sym x w = if (t.encode sym).freq == 0 then failed else encode_step sym x w

  -- The body of the decoders' loops: the symbol, the next state and the reader.
  unfoldable pub decode_step : ℕ → Reader → Outcome (ℕ × ℕ × Reader)
  decode_step x r =
      let slot = u32 (x + 2 ^ 32 - table_size p) in
      let d = t.decode slot in
      let bits : Outcome (ℕ × Reader) =
        (if d.nb_bits == 0 then done (0, r) else read r d.nb_bits) in
      if leb (table_size p) slot
      then undefined
      else (do (bits_val, r') ← bits; done (d.symbol, u32 (d.next_state_base + bits_val), r'))

-- `for (size_t i = src_size; i-- > 0; )`: the bytes behind the head come first. A step is given its
-- offset and the byte before it, 0 at the start.
module _ (step : ℕ → ℕ → ℕ → ℕ → Writer → Outcome (ℕ × Writer)) where
  unfoldable pub encode_loop : ℕ → ℕ → List ℕ → ℕ → Writer → Outcome (ℕ × Writer)
  encode_loop i prev [] x w = done (x, w)
  encode_loop i prev (sym ∷ src) x w = do
    (x', w') ← encode_loop (i + 1) sym src x w
    step i prev sym x' w'

-- `for (size_t i = 0; i < dst_size; i++)`, with the rounds that are left.
module _ (step : ℕ → ℕ → ℕ → Reader → Outcome (ℕ × ℕ × Reader)) where
  unfoldable pub decode_loop : ℕ → ℕ → ℕ → ℕ → Reader → Outcome (List ℕ)
  decode_loop i prev zero x r = done []
  decode_loop i prev (suc left) x r = do
    (sym, x', r') ← step i prev x r
    dst ← decode_loop (i + 1) sym left x' r'
    done (sym ∷ dst)

abbrev pub is_empty : List ℕ → Bool
is_empty [] = true
is_empty (x ∷ xs) = false

abbrev pub start_state : Params → ℕ → ℕ
start_state p initial_state =
    if ltb initial_state (table_size p) then table_size p else initial_state

abbrev pub bad_state : Params → ℕ → Bool
bad_state p x = ltb x (table_size p) || leb (2 * table_size p) x

-- `netc_tans_encode`, `netc_tans_decode`.
unfoldable pub encode : Table → List ℕ → Writer → ℕ → Outcome (ℕ × Writer)
encode t src w initial_state =
    if not t.valid || is_empty src
    then failed
    else encode_loop (λ i prev. encode_step params_12 t) 0 0 src
        (start_state params_12 initial_state) w

unfoldable pub decode : Table → Reader → ℕ → ℕ → Outcome (List ℕ)
decode t r dst_size initial_state =
    if not t.valid || dst_size == 0 || bad_state params_12 initial_state
    then failed
    else decode_loop (λ i prev. decode_step params_12 t) 0 0 dst_size initial_state r

-- `netc_tans_encode_10`, `netc_tans_decode_10`.
unfoldable pub encode_10 : Table → List ℕ → Writer → ℕ → Outcome (ℕ × Writer)
encode_10 t src w initial_state =
    if not t.valid || is_empty src
    then failed
    else encode_loop (λ i prev. encode_step_checked params_10 t) 0 0 src
        (start_state params_10 initial_state) w

unfoldable pub decode_10 : Table → Reader → ℕ → ℕ → Outcome (List ℕ)
decode_10 t r dst_size initial_state =
    if not t.valid || dst_size == 0 || bad_state params_10 initial_state
    then failed
    else decode_loop (λ i prev. decode_step params_10 t) 0 0 dst_size initial_state r

-- One step of the encoder and of the decoder with the table chosen by `pick`.
abbrev pub picked_encode : (ℕ → ℕ → Table) → ℕ → ℕ → ℕ → ℕ → Writer → Outcome (ℕ × Writer)
picked_encode pick i prev sym x w =
    if not (pick i prev).valid then failed else encode_step_checked params_12 (pick i prev) sym x w

abbrev pub picked_decode : (ℕ → ℕ → Table) → ℕ → ℕ → ℕ → Reader → Outcome (ℕ × ℕ × Reader)
picked_decode pick i prev x r =
    if not (pick i prev).valid then failed else decode_step params_12 (pick i prev) x r

-- `netc_tans_encode_pctx`, `netc_tans_decode_pctx`.
unfoldable pub encode_pctx : (ℕ → Table) → List ℕ → Writer → ℕ → Outcome (ℕ × Writer)
encode_pctx tables src w initial_state =
    if is_empty src
    then failed
    else encode_loop (picked_encode (λ i prev. tables (ctx_bucket i))) 0 0 src
        (start_state params_12 initial_state) w

unfoldable pub decode_pctx : (ℕ → Table) → Reader → ℕ → ℕ → Outcome (List ℕ)
decode_pctx tables r dst_size initial_state =
    if dst_size == 0 || bad_state params_12 initial_state
    then failed
    else decode_loop (picked_decode (λ i prev. tables (ctx_bucket i))) 0 0 dst_size initial_state r

-- The bigram table of the offset and the byte before it, or the bucket's own where that is invalid.
unfoldable pub bigram_table : (ℕ → ℕ → Table) → (ℕ → Table) → Option (ℕ → ℕ) → ℕ → ℕ → Table
bigram_table bigram_tables unigram_tables class_map i prev =
    let tbl = bigram_tables (ctx_bucket i) (bigram_class prev class_map) in
    if not tbl.valid then unigram_tables (ctx_bucket i) else tbl

-- One step with the bigram tables, of which each bucket has `NETC_BIGRAM_CTX_COUNT`: a class beyond them is a
-- read outside the array.
abbrev pub bigram_ctx_count : ℕ
bigram_ctx_count = 8

abbrev pub bigram_encode :
    (ℕ → ℕ → Table) → (ℕ → Table) → Option (ℕ → ℕ) → ℕ → ℕ → ℕ → ℕ → Writer → Outcome (ℕ × Writer)
bigram_encode bigram_tables unigram_tables class_map i prev sym x w =
    if leb bigram_ctx_count (bigram_class prev class_map)
    then undefined
    else picked_encode (bigram_table bigram_tables unigram_tables class_map) i prev sym x w

abbrev pub bigram_decode :
    (ℕ → ℕ → Table) → (ℕ → Table) → Option (ℕ → ℕ) → ℕ → ℕ → ℕ → Reader → Outcome (ℕ × ℕ × Reader)
bigram_decode bigram_tables unigram_tables class_map i prev x r =
    if leb bigram_ctx_count (bigram_class prev class_map)
    then undefined
    else picked_decode (bigram_table bigram_tables unigram_tables class_map) i prev x r

-- `netc_tans_encode_pctx_bigram`, `netc_tans_decode_pctx_bigram`.
module _ (bigram_tables : ℕ → ℕ → Table) (unigram_tables : ℕ → Table)
    (class_map : Option (ℕ → ℕ)) where
  unfoldable pub encode_pctx_bigram : List ℕ → Writer → ℕ → Outcome (ℕ × Writer)
  encode_pctx_bigram src w initial_state =
      if is_empty src
      then failed
      else encode_loop (bigram_encode bigram_tables unigram_tables class_map) 0 0 src
          (start_state params_12 initial_state) w

  unfoldable pub decode_pctx_bigram : Reader → ℕ → ℕ → Outcome (List ℕ)
  decode_pctx_bigram r dst_size initial_state =
      if dst_size == 0 || bad_state params_12 initial_state
      then failed
      else decode_loop (bigram_decode bigram_tables unigram_tables class_map) 0 0 dst_size
          initial_state r
