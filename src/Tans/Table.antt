-- ===== src/Tans/Table.antt =====
-- The tables of src/algo/netc_tans.h and their builder in src/algo/netc_tans.c. An array is a function of the
-- index; the loops of the builder write inside the arrays, and the coder's reads are guarded in `Codec`.
use netc.Prelude.{ℕ, zero, suc, ◌+◌, ◌-◌, Bool, true, Option, none, some}
use netc.Prelude.{ltb, ◌==◌, ◌!=◌, if◌then◌else◌, u8, u16, u32, ◌<<<◌, ◌>>>◌, bit_and}
use netc.Tans.Params.{Params, table_size, symbols, params_12, params_10}

-- `netc_tans_decode_entry_t`.
pub record DecodeEntry : Type 0 where
  pub symbol : ℕ
  pub nb_bits : ℕ
  pub next_state_base : ℕ

-- `netc_tans_encode_entry_t`.
pub record EncodeEntry : Type 0 where
  pub freq : ℕ
  pub lower : ℕ
  pub cumul : ℕ
  pub nb_hi : ℕ

-- `netc_tans_table_t` and `netc_tans_table_10_t`. `freq` is a `netc_freq_table_t`.
pub record Table : Type 0 where
  pub decode : ℕ → DecodeEntry
  pub encode_state : ℕ → ℕ
  pub encode : ℕ → EncodeEntry
  pub freq : ℕ → ℕ
  pub valid : Bool

abbrev pub empty_decode : DecodeEntry
empty_decode = record { symbol = 0; nb_bits = 0; next_state_base = 0 }

abbrev pub empty_encode : EncodeEntry
empty_encode = record { freq = 0; lower = 0; cumul = 0; nb_hi = 0 }

-- `floor_log2_u32`. The fuel is for the 31 rounds that a `uint32_t` can take.
unfoldable pub floor_log2_loop : ℕ → ℕ → ℕ → ℕ
floor_log2_loop zero v n = n
floor_log2_loop (suc fuel) v n =
    let rest = floor_log2_loop fuel (v >>> 1) (n + 1) in if ltb 1 v then rest else n

unfoldable pub floor_log2_u32 : ℕ → ℕ
unfolding floor_log2_loop
floor_log2_u32 v = floor_log2_loop 31 v 0

-- `total` and `cumul[s]` after the rounds for the symbols below the argument.
unfoldable pub total : (ℕ → ℕ) → ℕ → ℕ
total freq zero = 0
total freq (suc s) = u32 (total freq s + freq s)

unfoldable pub cumul : (ℕ → ℕ) → ℕ → ℕ
cumul freq zero = 0
cumul freq (suc s) = u16 (cumul freq s + freq s)

abbrev pub update {ℓ} : {A : Type ℓ} → (ℕ → A) → ℕ → A → ℕ → A
update f i a j = if i == j then a else f j

module _ (p : Params) (freq : ℕ → ℕ) where
  -- Step 2: `TABLE_LOG - fl` is taken to 0 where it is negative.
  unfoldable pub encode_entry : ℕ → EncodeEntry
  encode_entry s =
      let f = freq s in
      let nb_hi = p.table_log - floor_log2_u32 f in
      if f == 0 then empty_encode else record {
        freq = u16 f;
        lower = u16 (f <<< nb_hi);
        cumul = cumul freq s;
        nb_hi = u8 nb_hi;
      }

  -- `decode[pos]` for the `k`-th occurrence of symbol `s`.
  unfoldable pub decode_entry : ℕ → ℕ → DecodeEntry
  decode_entry s k =
      let x_prev = freq s + k in
      let nb = p.table_log - floor_log2_u32 x_prev in
      record { symbol = u8 s; nb_bits = u8 nb; next_state_base = u16 (x_prev <<< nb) }

  module _ {ℓ} {S : Type ℓ} (write : ℕ → ℕ → ℕ → S → S) where
    -- The loops of steps 3 and 4: `write s k pos` for the occurrences of one symbol from the
    -- `k`-th on, then for the symbols from `s` on. The result is `pos` with the array.
    unfoldable pub visit_occurrences : ℕ → ℕ → ℕ → ℕ → S → ℕ × S
    visit_occurrences s k zero pos a = (pos, a)
    visit_occurrences s k (suc left) pos a =
        visit_occurrences s (k + 1) left (bit_and (pos + p.spread_step) (table_size p - 1))
          (write s k pos a)

    unfoldable pub visit_symbols : ℕ → ℕ → ℕ → S → ℕ × S
    unfolding visit_occurrences
    visit_symbols s zero pos a = (pos, a)
    visit_symbols s (suc left) pos a =
        let (pos', a') = visit_occurrences s 0 (freq s) pos a in visit_symbols (s + 1) left pos' a'

  unfoldable pub spread_states : ℕ → ℕ
  unfolding visit_symbols cumul
  spread_states =
      (visit_symbols (λ s k pos a. update a (cumul freq s + k) (u16 (table_size p + pos))) 0 symbols
        0 (λ _. 0)).1

  unfoldable pub spread_decode : ℕ → DecodeEntry
  unfolding visit_symbols decode_entry
  spread_decode =
      (visit_symbols (λ s k pos a. update a pos (decode_entry s k)) 0 symbols 0
        (λ _. empty_decode)).1

  -- `none` is the return value -1.
  unfoldable pub build : Option Table
  build =
      if total freq symbols != table_size p
      then none
      else some (record {
        decode = spread_decode;
        encode_state = spread_states;
        encode = encode_entry;
        freq = freq;
        valid = true;
      })

-- `netc_tans_build` and `netc_tans_build_10`.
unfoldable pub build_12 : (ℕ → ℕ) → Option Table
unfolding build
build_12 = build params_12

unfoldable pub build_10 : (ℕ → ℕ) → Option Table
unfolding build
build_10 = build params_10
