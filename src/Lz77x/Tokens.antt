-- ===== src/Lz77x/Tokens.antt =====
-- The rounds of `lz77x_decode` in src/core/netc_decompress.c on each kind of token.
use netc.Prelude.{ℕ, suc, ◌+◌, ◌-◌, ◌*◌, ◌<◌, ◌≤◌, ◌≡◌, refl, ap, arith}
use netc.Prelude.{List, ◌∷◌, ◌++◌, Bool, true, false, ◌&&◌}
use netc.Prelude.{length, length-append}
use netc.Prelude.{take_append, drop_append, all_below, all_below_sound}
use netc.Prelude.{ltb, ◌==◌, bit_and, u16}
use netc.Result.{Result, ok, ◌>>=◌}
use netc.Lz77.{copy}
use netc.Lz77x.{ring_bytes, back_from, token, decode_loop}

-- The fields of a first byte of each kind.
tok_bits : ℕ → Bool
tok_bits t =
    ((bit_and t 0x80 == 0) && (bit_and (128 + t) 0x80 == 128))
    && ((bit_and t 0x7f == t) && (bit_and (128 + t) 0x3f == bit_and t 0x3f))

low_bits : ℕ → Bool
low_bits t =
    ((bit_and (128 + t) 0x40 == 0) && (bit_and (192 + t) 0x40 == 64))
    && ((bit_and t 0x3f == t) && (bit_and (192 + t) 0x80 == 128) && (bit_and (192 + t) 0x3f == t))

tok_checked : all_below 128 tok_bits ≡ true
unfolding tok_bits all_below
tok_checked = refl

low_checked : all_below 64 low_bits ≡ true
unfolding low_bits all_below
low_checked = refl

tok_bits_lem :
    (t : ℕ)
    → t < 128
    → (bit_and t 0x80 ≡ 0)
      × (bit_and (128 + t) 0x80 ≡ 128)
      × (bit_and t 0x7f ≡ t)
      × (bit_and (128 + t) 0x3f ≡ bit_and t 0x3f)
unfolding tok_bits
tok_bits_lem t h = ground (arith, all_below_sound 128 tok_bits t tok_checked h)

low_bits_lem :
    (t : ℕ)
    → t < 64
    → (bit_and (128 + t) 0x40 ≡ 0)
      × (bit_and (192 + t) 0x40 ≡ 64)
      × (bit_and t 0x3f ≡ t)
      × (bit_and (192 + t) 0x80 ≡ 128)
      × (bit_and (192 + t) 0x3f ≡ t)
unfolding low_bits
low_bits_lem t h = ground (arith, all_below_sound 64 low_bits t low_checked h)

module _ (ring : List ℕ) (ring_pos orig : ℕ) where
  abbrev pub reads : ℕ → List ℕ → List ℕ → Result (List ℕ)
  reads fuel lz_src dst = decode_loop ring ring_pos orig fuel lz_src dst

  -- A round that succeeds is one step of the loop.
  pub round :
      (fuel tok : ℕ) (lz_src rest dst dst' : List ℕ)
      → token ring ring_pos orig tok lz_src dst ≡ ok (rest, dst')
      → reads (suc fuel) (tok ∷ lz_src) dst ≡ reads fuel rest dst'
  unfolding decode_loop
  round fuel tok lz_src rest dst dst' e =
      ap (λ m. m >>= λ next. decode_loop ring ring_pos orig fuel next.0 next.1) e

  pub literal_token :
      (bytes rest dst : List ℕ)
      → 1 ≤ length bytes
      → length bytes ≤ 128
      → length dst + length bytes ≤ orig
      → token ring ring_pos orig (length bytes - 1) (bytes ++ rest) dst ≡ ok (rest, dst ++ bytes)
  unfolding token
  literal_token bytes rest dst h1 h2 room =
      let (low, _, value, _) = tok_bits_lem (length bytes - 1) (omega arith) in
      let len : length bytes - 1 + 1 ≡ length bytes = omega arith in
      let enough : ltb (length (bytes ++ rest)) (length bytes) ≡ false =
        ground (arith, length-append bytes rest) in
      let fits : ltb orig (length dst + length bytes) ≡ false = ground arith in
      rw
        (
          low,
          value,
          len,
          enough,
          fits,
          drop_append bytes rest (length bytes) refl,
          take_append bytes rest (length bytes) refl,
        )
        refl

  pub short_token :
      (n offset : ℕ) (rest dst : List ℕ)
      → 3 ≤ n
      → n ≤ 66
      → 1 ≤ offset
      → offset ≤ length dst
      → length dst + n ≤ orig
      → token ring ring_pos orig (0x80 + (n - 3)) ((offset - 1) ∷ rest) dst
        ≡ ok (rest, copy n (length dst - offset) dst)
  unfolding token
  short_token n offset rest dst h3 h66 h1 known room =
      let (_, high, _, value) = tok_bits_lem (n - 3) (omega arith) in
      let (second, _, same, _, _) = low_bits_lem (n - 3) (omega arith) in
      let len : n - 3 + 3 ≡ n = omega arith in
      let off : offset - 1 + 1 ≡ offset = omega arith in
      let there : (suc (length rest) == 0) ≡ false = ground arith in
      let reached : ltb (length dst) offset ≡ false = ground arith in
      let fits : ltb orig (length dst + n) ≡ false = ground arith in
      rw (high, second, value, same, len, off, there, reached, fits) refl

  pub long_token :
      (n distance lo hi : ℕ) (rest dst : List ℕ)
      → 3 ≤ n
      → n ≤ 66
      → u16 (lo + hi * 256) + 1 ≡ distance
      → distance ≤ length ring
      → length dst + n ≤ orig
      → token ring ring_pos orig (0xc0 + (n - 3)) (lo ∷ hi ∷ rest) dst
        ≡ ok (rest, dst ++ ring_bytes ring (back_from ring ring_pos distance) 0 n)
  unfolding token
  long_token n distance lo hi rest dst h3 h66 e known room =
      let (_, second, _, first, value) = low_bits_lem (n - 3) (omega arith) in
      let len : n - 3 + 3 ≡ n = omega arith in
      let there : ltb (suc (suc (length rest))) 2 ≡ false = ground arith in
      let some_ring : (length ring == 0) ≡ false = ground (arith, e) in
      let reached : ltb (length ring) distance ≡ false = ground arith in
      let fits : ltb orig (length dst + n) ≡ false = ground arith in
      rw (first, second, value, len, there, some_ring, e, reached, fits) refl
