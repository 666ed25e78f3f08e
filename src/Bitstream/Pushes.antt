-- ===== src/Bitstream/Pushes.antt =====
-- What `netc_bsw_write` and `netc_bsw_flush` of src/util/netc_bitstream.h do to the stack of bits.
use netc.Prelude.{ℕ, ◌+◌, ◌-◌, ◌*◌, ◌/◌, ◌%◌, ◌^◌, ◌≤◌, ◌<◌, ◌≡◌, ap, arith, ◌∙◌}
use netc.Prelude.{List, [], ◌∷◌, ◌++◌, none, some, inl, inr, ◌↔◌, sym}
use netc.Prelude.{All, IsByte, length, length-append, u64, bit_or, bit_or_low_high}
use netc.Prelude.{pow-add, parts-lt, Option-cases}
use netc.Bitstream.Value.{value, bit_size, value-append}
use netc.Bitstream.Writer.{Writer, init, write, word_bytes}
use native.Mathlib.Nat.{pow-le-pow_right, div-add-mod'}

-- The writer holds the stack of `n` bits whose number is `v`, the first bit pushed lowest.
pub record Holds (w : Writer) (v n : ℕ) : Type 0 where
  pub small : w.bits < 32
  pub fits : w.accum < 2 ^ w.bits
  pub count : n ≡ w.bits + bit_size w.out
  pub total : v ≡ value w.out + w.accum * 2 ^ bit_size w.out
  pub bytes : All IsByte w.out
  pub room : length w.out ≤ w.cap

pub init-Holds : (cap : ℕ) → Holds (init cap) 0 0
unfolding init
init-Holds cap = omega arith

pub All-append : (xs ys : List ℕ) → All IsByte xs → All IsByte ys → All IsByte (xs ++ ys)
All-append [] ys h k = k
All-append (x ∷ xs) ys h k = (h.0, All-append xs ys h.1 k)

-- `accum |= (uint64_t)x << bits` adds the new bits above those at hand.
pub push_accum :
    (accum bits x nb : ℕ)
    → accum < 2 ^ bits
    → x < 2 ^ nb
    → bits + nb ≤ 64
    → (bit_or accum (u64 (x * 2 ^ bits)) ≡ accum + x * 2 ^ bits)
      × (accum + x * 2 ^ bits < 2 ^ (bits + nb))
push_accum accum bits x nb ha hx small =
    let above : x * 2 ^ bits + accum < 2 ^ nb * 2 ^ bits =
      parts-lt x (2 ^ nb) accum (2 ^ bits) hx ha in
    let top : 2 ^ (bits + nb) ≤ 2 ^ 64 = pow-le-pow_right {n = 2} (omega arith) small in
    let wide : 2 ^ (bits + nb) ≡ 2 ^ bits * 2 ^ nb = pow-add bits nb in
    let whole : u64 (x * 2 ^ bits) ≡ x * 2 ^ bits = omega arith in
    (rw whole (omega (arith, bit_or_low_high bits x accum ha)), omega arith)

-- Four bytes stored from the low half of the accumulator.
word_bytes-value : (w : ℕ) → w < 2 ^ 32 → value (word_bytes w) ≡ w
word_bytes-value w h = omega arith

All-word_bytes : (a : ℕ) → All IsByte (word_bytes a)
All-word_bytes a = omega arith

bit_size-word : (out : List ℕ) (a : ℕ) → bit_size (out ++ word_bytes a) ≡ bit_size out + 32
bit_size-word out a = omega (arith, length-append out (word_bytes a))

store_word :
    (out : List ℕ) (a : ℕ)
    → value (out ++ word_bytes (a % 2 ^ 32))
        + a / 2 ^ 32 * 2 ^ bit_size (out ++ word_bytes (a % 2 ^ 32))
      ≡ value out + a * 2 ^ bit_size out
store_word out a =
    rw
      (
        value-append,
        word_bytes-value (a % 2 ^ 32) (omega arith),
        bit_size-word,
        pow-add (bit_size out) 32,
      )
      (omega (arith, ap (λ (t : ℕ). t * 2 ^ bit_size out) (div-add-mod' a (2 ^ 32))))

-- A push on the accumulator is a push on the whole stack.
pub pushed_total :
    (w : Writer) (v n x : ℕ)
    → Holds w v n
    → v + x * 2 ^ n ≡ value w.out + (w.accum + x * 2 ^ w.bits) * 2 ^ bit_size w.out
pushed_total w v n x h = omega (
  arith,
  ap (λ (t : ℕ). x * 2 ^ t) h.count,
  ap (λ (t : ℕ). x * t) (pow-add w.bits (bit_size w.out)),
)

-- The two ways in which a write that returns 0 leaves the writer.
short_write :
    (w : Writer) (v n x nb : ℕ)
    → Holds w v n
    → x < 2 ^ nb
    → w.bits + nb < 32
    → Holds
        (record w { accum = w.accum + x * 2 ^ w.bits; bits = w.bits + nb })
        (v + x * 2 ^ n)
        (n + nb)
short_write w v n x nb h hx below = record {
  small = below;
  fits = (push_accum w.accum w.bits x nb h.fits hx (omega arith)).1;
  count = omega arith;
  total = pushed_total w v n x h;
  bytes = h.bytes;
  room = h.room;
}

long_write :
    (w : Writer) (v n x nb : ℕ)
    → Holds w v n
    → nb ≤ 32
    → x < 2 ^ nb
    → 32 ≤ w.bits + nb
    → length w.out + 4 ≤ w.cap
    → let a = w.accum + x * 2 ^ w.bits in
      Holds
        (record {
          out = w.out ++ word_bytes (a % 2 ^ 32);
          cap = w.cap;
          accum = a / 2 ^ 32;
          bits = w.bits + nb - 32;
        })
        (v + x * 2 ^ n)
        (n + nb)
long_write w v n x nb h hn hx over fits =
    let a = w.accum + x * 2 ^ w.bits in
    let wide = push_accum w.accum w.bits x nb h.fits hx (omega arith) in
    let parts : 2 ^ (w.bits + nb) ≡ 2 ^ (w.bits + nb - 32) * 2 ^ 32 =
      ap (λ (t : ℕ). 2 ^ t) (omega arith) ∙ pow-add (w.bits + nb - 32) 32 in
    record {
      small = omega arith;
      fits = omega (arith, wide, parts);
      count = omega (arith, bit_size-word w.out (a % 2 ^ 32));
      total = pushed_total w v n x h ∙ sym (store_word w.out a);
      bytes = All-append w.out (word_bytes (a % 2 ^ 32)) h.bytes (All-word_bytes _);
      room = omega (arith, length-append w.out (word_bytes (a % 2 ^ 32)));
    }

-- A write that returns 0 pushes the `nb` low bits on the stack.
pub write-Holds :
    (w : Writer) (v n x nb : ℕ) {w' : Writer}
    → Holds w v n
    → nb ≤ 32
    → x < 2 ^ nb
    → write w x nb ≡ some w'
    → Holds w' (v + x * 2 ^ n) (n + nb) × (w'.cap ≡ w.cap)
unfolding write
write-Holds w v n x nb {w'} h small hx e =
    let wide = push_accum w.accum w.bits x nb h.fits hx (omega arith) in
    ground (arith, wide.0, short_write w v n x nb h hx, long_write w v n x nb h small hx)

-- A write fails exactly when a word is due and four bytes no longer fit.
pub write-eq-none :
    (w : Writer) (x nb : ℕ)
    → (write w x nb ≡ none) ↔ (32 ≤ w.bits + nb) × (w.cap < length w.out + 4)
unfolding write
write-eq-none w x nb = ground arith

-- A write whose stack fits the buffer returns 0 and pushes the field.
pub write-pushes :
    (w : Writer) (v n x nb : ℕ)
    → Holds w v n
    → nb ≤ 32
    → x < 2 ^ nb
    → (n + nb) / 8 ≤ w.cap
    → (w' : Writer) × (write w x nb ≡ some w')
      × Holds w' (v + x * 2 ^ n) (n + nb)
      × (w'.cap ≡ w.cap)
write-pushes w v n x nb h hn hx room = elim (Option-cases (write w x nb)) [
  | inl failed ↦ absurd (omega (arith, (write-eq-none w x nb).0 failed, h.count))
  | inr (w', e) ↦ let (h', same) = write-Holds w v n x nb h hn hx e in (w', e, h', same)
]
