-- ===== src/Bitstream/Flush.antt =====
-- `netc_bsw_flush` of src/util/netc_bitstream.h: the bytes that end the stream, sentinel included.
use netc.Prelude.{ℕ, zero, suc, ◌+◌, ◌-◌, ◌*◌, ◌/◌, ◌%◌, ◌^◌, ◌≤◌, ◌<◌, ◌≡◌, ap, arith, ◌∙◌}
use netc.Prelude.{[], ◌∷◌, ◌++◌, none, some, ◌⊎◌, inl, inr, ◌≢◌, All, IsByte, length}
use netc.Prelude.{length-append, bit_and, bit_and_mask, pow-add, two-pow-pos}
use netc.Bitstream.Value.{value, bit_size, value-append}
use netc.Bitstream.Writer.{Writer, flush, flush_loop}
use netc.Bitstream.Pushes.{Holds, push_accum, pushed_total, All-append}
use netc.Prelude.{Bool-cases, ==_iff, ◌==◌, leb}
use mathlib.Core.Path.{subst}
use mathlib.Core.Option.{some-injective}
use native.Mathlib.Nat.{pow-le-pow_right, div-add-mod'}

-- The writer after one round of the loop.
abbrev next : Writer → Writer
next w = record {
  out = w.out ++ (bit_and w.accum 0xff ∷ []);
  cap = w.cap;
  accum = w.accum / 2 ^ 8;
  bits = w.bits - 8;
}

shifted-lt : (a b : ℕ) → a < 2 ^ b → a / 256 < 2 ^ (b - 8)
shifted-lt a b h = elim (le_or_lt 8 b) [
  | inl le ↦
      let split : 2 ^ b ≡ 2 ^ (b - 8) * 256 =
        ap (λ (t : ℕ). 2 ^ t) (omega arith) ∙ pow-add (b - 8) 8 in
      omega arith
  | inr lt ↦
      let wide : 2 ^ b ≤ 2 ^ 8 = pow-le-pow_right {n = 2} (omega arith) {j = 8} (omega arith) in
      omega (arith, two-pow-pos (b - 8))
]
  where
    le_or_lt : (m n : ℕ) → (m ≤ n) ⊎ (n < m)
    le_or_lt m n = omega arith

next-value :
    (w : Writer)
    → value (next w).out + (next w).accum * 2 ^ bit_size (next w).out
      ≡ value w.out + w.accum * 2 ^ bit_size w.out
next-value w =
    let low : bit_and w.accum 255 ≡ w.accum % 256 = bit_and_mask 8 w.accum in
    let longer : bit_size (next w).out ≡ bit_size w.out + 8 =
      omega (arith, length-append w.out (bit_and w.accum 0xff ∷ [])) in
    rw (longer, value-append, low, pow-add (bit_size w.out) 8)
      (omega (arith, ap (λ (t : ℕ). t * 2 ^ bit_size w.out) (div-add-mod' w.accum 256)))

-- What the loop leaves, started at `w` with fuel for its bits.
record Flushed (w : Writer) (w' : Writer) : Type 0 where
  total : value w'.out ≡ value w.out + w.accum * 2 ^ bit_size w.out
  size : length w'.out ≡ length w.out + (w.bits + 7) / 8
  bytes : All IsByte w'.out
  room : length w'.out ≤ w.cap

next-bytes : (w : Writer) → All IsByte w.out → All IsByte (next w).out
next-bytes w h = All-append w.out _ h (omega (arith, bit_and_mask 8 w.accum))

Flushed-done :
    (w : Writer) {w' : Writer}
    → w.bits ≡ 0
    → w.accum < 2 ^ w.bits
    → All IsByte w.out
    → length w.out ≤ w.cap
    → some w ≡ some w'
    → Flushed w w'
Flushed-done w {w'} none_left ha hb hr e =
    let one : 2 ^ w.bits ≡ 1 = ap (λ (t : ℕ). 2 ^ t) none_left in
    subst (λ t. Flushed w t) (some-injective w w' e)
      (record {
        total = omega (arith, nothing (omega arith));
        size = omega arith;
        bytes = hb;
        room = hr;
      })
  where
    nothing : w.accum ≡ 0 → w.accum * 2 ^ bit_size w.out ≡ 0
    nothing z = rw z (omega arith)

Flushed-next : (w : Writer) {w' : Writer} → 0 < w.bits → Flushed (next w) w' → Flushed w w'
Flushed-next w pos f = record {
  total = f.total ∙ next-value w;
  size = omega (arith, f.size, length-append w.out (bit_and w.accum 0xff ∷ []));
  bytes = f.bytes;
  room = f.room;
}

flush_loop-Flushed :
    (fuel : ℕ) (w : Writer) {w' : Writer}
    → w.bits ≤ fuel
    → w.accum < 2 ^ w.bits
    → All IsByte w.out
    → length w.out ≤ w.cap
    → flush_loop fuel w ≡ some w'
    → Flushed w w'
unfolding flush_loop
flush_loop-Flushed zero w hf ha hb hr e = Flushed-done w (omega arith) ha hb hr e
flush_loop-Flushed (suc fuel) w {w'} hf ha hb hr e = elim (Bool-cases (w.bits == 0)) [
  | inl last ↦ Flushed-done w ((==_iff _ _).0 last) ha hb hr (rw last at e)
  | inr more ↦ elim (Bool-cases (leb w.cap (length w.out))) [
    | inl full ↦ absurd (none≢some (rw (more, full) at e))
    | inr free ↦
        let one_more = length-append w.out (bit_and w.accum 0xff ∷ []) in
        Flushed-next w (ground arith) (
          flush_loop-Flushed fuel (next w) (ground arith) (shifted-lt w.accum w.bits ha)
            (next-bytes w hb) (ground (arith, one_more)) (rw (more, free) at e))
  ]
]
  where
    none≢some : none ≡ some w' → ⊥
    none≢some p = cc

-- A flush that does not fail leaves whole bytes that hold the stack of bits with a one on top, in
-- the fewest bytes that do, and within the buffer.
pub flush-sentinel :
    (w : Writer) (v n : ℕ) {w' : Writer}
    → Holds w v n
    → flush w ≡ some w'
    → (value w'.out ≡ v + 2 ^ n)
      × (length w'.out ≡ n / 8 + 1)
      × All IsByte w'.out
      × (length w'.out ≤ w.cap)
unfolding flush
flush-sentinel w v n {w'} h e =
    let (sum, wide) = push_accum w.accum w.bits 1 1 h.fits (omega arith) (omega (arith, h.small)) in
    let f = flush_loop-Flushed (w.bits + 1) _ (omega arith) (rw sum wide) h.bytes h.room e in
    (
      f.total ∙ rw sum (omega (arith, pushed_total w v n 1 h)),
      omega (arith, f.size, h.count),
      f.bytes,
      f.room,
    )

flush_loop-room :
    (fuel : ℕ) (w : Writer)
    → w.bits ≤ fuel
    → length w.out + (w.bits + 7) / 8 ≤ w.cap
    → flush_loop fuel w ≢ none
unfolding flush_loop
flush_loop-room zero w hf hr e = cc
flush_loop-room (suc fuel) w hf hr e =
    ground (arith, length-append w.out (bit_and w.accum 0xff ∷ []), flush_loop-room fuel (next w))

-- A flush does not fail where the stream with its sentinel fits the buffer.
pub flush-room : (w : Writer) (v n : ℕ) → Holds w v n → n / 8 + 1 ≤ w.cap → flush w ≢ none
unfolding flush
flush-room w v n h fits = flush_loop-room (w.bits + 1) _ (omega arith) (omega (arith, h.count))
