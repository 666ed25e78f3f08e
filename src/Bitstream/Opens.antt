-- ===== src/Bitstream/Opens.antt =====
-- What `netc_bsr_init` of src/util/netc_bitstream.h does with the sentinel and the bits below it.
use netc.Prelude.{
  ℕ, zero, suc, ◌+◌, ◌-◌, ◌*◌, ◌/◌, ◌%◌, ◌^◌, ◌≤◌, ◌<◌, ◌≡◌, refl, ap, arith, ◌∙◌, sym,
}
use netc.Prelude.{List, [], ◌∷◌, ◌⊎◌, All, IsByte, length, get_or, take, true}
use netc.Prelude.{
  bit_or, bit_or_low_high, u8, u64, leb, ◌&&◌, ◌||◌, ◌==◌, Bool, all_below, all_below_sound,
}
use netc.Prelude.{pow-add, two-pow-pos, parts-lt, lt-mul_of_lt, parts_unique, ltb, if◌then◌else◌}
use netc.Prelude.Int.{pos}
use netc.Bitstream.Value.{value, value-take-suc}
use netc.Bitstream.Reader.{init, load, skip_sentinel, floorlog2_byte}
use netc.Bitstream.Pops.{Loaded, take-lt, get_or-IsByte}
use native.Mathlib.Decide.{dec_lt}
use native.Mathlib.Nat.{
  add-zero, mod-eq_of_lt, mod-lt, div-add-mod', div-lt_iff_lt-mul, pow-le-pow_right,
}

-- `floorlog2_byte` is the position of the highest one, checked on every byte.
is_log : ℕ → Bool
is_log v = v == 0 || (leb (2 ^ floorlog2_byte v) v && ltb v (2 ^ (floorlog2_byte v + 1)))

log_table : all_below 256 is_log ≡ true
unfolding is_log floorlog2_byte all_below
log_table = refl

-- The position of the highest one of a byte that is not 0.
pub floorlog2_byte_bounds :
    (b : ℕ) → b < 256 → 0 < b → (2 ^ floorlog2_byte b ≤ b) × (b < 2 ^ (floorlog2_byte b + 1))
unfolding is_log
floorlog2_byte_bounds b hb nonzero = ground (arith, all_below_sound 256 is_log b log_table hb)

-- The loop adds the bytes from `src + i` on above the `8 * i` bits at hand.
load_step :
    (i raw x : ℕ)
    → i < 8
    → raw < 2 ^ (8 * i)
    → x < 256
    → (bit_or raw (u64 (x * 2 ^ (i * 8))) ≡ x * 2 ^ (8 * i) + raw)
      × (x * 2 ^ (8 * i) + raw < 2 ^ (8 * (i + 1)))
load_step i raw x hi hr hx =
    let same : 2 ^ (i * 8) ≡ 2 ^ (8 * i) = ap (λ (t : ℕ). 2 ^ t) (omega arith) in
    let next : 2 ^ (8 * (i + 1)) ≡ 256 * 2 ^ (8 * i) =
      ap (λ (t : ℕ). 2 ^ t) {y = 8 + 8 * i} (omega arith) ∙ pow-add 8 (8 * i) in
    let top : 2 ^ (8 * (i + 1)) ≤ 2 ^ 64 =
      pow-le-pow_right {n = 2} (omega arith) {j = 64} (omega arith) in
    let below : x * 2 ^ (8 * i) + raw < 256 * 2 ^ (8 * i) =
      parts-lt x 256 raw (2 ^ (8 * i)) hx hr in
    let whole : u64 (x * 2 ^ (8 * i)) ≡ x * 2 ^ (8 * i) = omega arith in
    (rw (same, whole) (bit_or_low_high (8 * i) x raw hr), omega arith)

load_lem :
    (buf : List ℕ) (src i left raw : ℕ)
    → All IsByte buf
    → src + i + left ≤ length buf
    → i + left ≤ 8
    → raw < 2 ^ (8 * i)
    → (value (take (src + i) buf) + load buf src i left raw * 2 ^ (8 * src)
        ≡ value (take (src + i + left) buf) + raw * 2 ^ (8 * src))
      × (load buf src i left raw < 2 ^ (8 * (i + left)))
unfolding load
load_lem buf src i zero raw hb hl h8 hr =
    (ap (λ t. value (take t buf) + raw * 2 ^ (8 * src)) (omega arith), rw add-zero hr)
load_lem buf src i (suc left) raw hb hl h8 hr =
    let x = get_or buf (src + i) 0 in
    let (added, fits) = load_step i raw x (omega arith) hr (get_or-IsByte buf (src + i) hb) in
    let (sum, small) =
      load_lem buf src (i + 1) left (x * 2 ^ (8 * i) + raw) hb (omega arith) (omega arith) fits in
    let here : value (take (src + (i + 1)) buf)
        ≡ value (take (src + i) buf) + x * 2 ^ (8 * (src + i)) =
      ap (λ t. value (take t buf)) {y = suc (src + i)} (omega arith)
      ∙ value-take-suc (src + i) buf (omega arith) in
    let there : value (take (src + (i + 1) + left) buf) ≡ value (take (src + i + suc left) buf) =
      ap (λ t. value (take t buf)) (omega arith) in
    let unit : 2 ^ (8 * (src + i)) ≡ 2 ^ (8 * src) * 2 ^ (8 * i) =
      ap (λ (t : ℕ). 2 ^ t) (omega arith) ∙ pow-add (8 * src) (8 * i) in
    let width : 2 ^ (8 * (i + 1 + left)) ≡ 2 ^ (8 * (i + suc left)) =
      ap (λ (t : ℕ). 2 ^ t) (omega arith) in
    (
      rw added (omega (arith, sum, here, there, ap (λ (t : ℕ). x * t) unit)),
      rw added (omega (arith, small, width)),
    )

log_unique : (b k s : ℕ) → 2 ^ k ≤ b → b < 2 ^ (k + 1) → 2 ^ s ≤ b → b < 2 ^ (s + 1) → k ≡ s
log_unique b k s h1 h2 h3 h4 = elim (dec_lt k s) [
  | yes lt ↦
      absurd
        (omega (arith, pow-le-pow_right {n = 2} (omega arith) {i = k + 1} {j = s} (omega arith)))
  | no ge ↦ elim (dec_lt s k) [
    | yes lt ↦
        absurd
          (omega (arith, pow-le-pow_right {n = 2} (omega arith) {i = s + 1} {j = k} (omega arith)))
    | no le ↦ omega arith
  ]
]

-- The accumulator of `fill` bytes whose highest one is bit `e`, bit `s` of the last byte.
sentinel_accum :
    (fill e s low : ℕ)
    → fill ≤ 8
    → s < 8
    → e + 8 ≡ 8 * fill + s
    → low < 2 ^ e
    → let accum = (2 ^ e + low) * 2 ^ (64 - fill * 8) in
      (accum < 2 ^ 64)
      × (2 ^ s ≤ accum / 2 ^ 56)
      × (accum / 2 ^ 56 < 2 ^ (s + 1))
      × (u64 (accum * 2 ^ (8 - s)) ≡ low * 2 ^ (64 - e))
sentinel_accum fill e s low hf hs he hl =
    let unit = 2 ^ (64 - fill * 8) in
    let top : 2 ^ e * unit ≡ 2 ^ s * 2 ^ 56 =
      sym (pow-add e (64 - fill * 8)) ∙ ap (λ (t : ℕ). 2 ^ t) (omega arith) ∙ pow-add s 56 in
    let below : low * unit < 2 ^ s * 2 ^ 56 =
      omega (arith, top, lt-mul_of_lt low (2 ^ e) unit hl (two-pow-pos (64 - fill * 8))) in
    let byte : 2 ^ (s + 1) ≤ 2 ^ 8 = pow-le-pow_right {n = 2} (omega arith) {j = 8} (omega arith) in
    let twice : 2 ^ (s + 1) ≡ 2 ^ s * 2 = pow-add s 1 in
    let whole : 2 ^ 64 ≡ 2 ^ s * 2 ^ 56 * 2 ^ (8 - s) =
      ap (λ (t : ℕ). 2 ^ t) {x = 64} {y = s + 56 + (8 - s)} (omega arith)
      ∙ pow-add (s + 56) (8 - s)
      ∙ ap (λ (t : ℕ). t * 2 ^ (8 - s)) (pow-add s 56) in
    let raised : 2 ^ (64 - e) ≡ unit * 2 ^ (8 - s) =
      ap (λ (t : ℕ). 2 ^ t) (omega arith) ∙ pow-add (64 - fill * 8) (8 - s) in
    let parts : (2 ^ e + low) * unit * 2 ^ (8 - s) ≡ 2 ^ 64 + low * 2 ^ (64 - e) =
      omega (arith, whole, ap (λ (t : ℕ). t * 2 ^ (8 - s)) top, ap (λ (t : ℕ). low * t) raised) in
    let rest : low * 2 ^ (64 - e) < 2 ^ 64 = omega (
      arith,
      whole,
      ap (λ (t : ℕ). low * t) raised,
      lt-mul_of_lt (low * unit) (2 ^ s * 2 ^ 56) (2 ^ (8 - s)) below (two-pow-pos (8 - s)),
    ) in
    (omega arith, omega arith, omega arith, rw parts (omega arith))

-- `skip_sentinel` on an accumulator whose last byte has its highest one at position `s`.
skip_sentinel_lem :
    (buf : List ℕ) (src total_bits accum e s : ℕ)
    → 0 < u8 (accum / 2 ^ 56)
    → floorlog2_byte (u8 (accum / 2 ^ 56)) ≡ s
    → s < 8
    → e + 8 ≡ total_bits + s
    → skip_sentinel buf src total_bits accum
      ≡ record { buf = buf; ptr = src; accum = u64 (accum * 2 ^ (8 - s)); bits = pos e }
unfolding skip_sentinel
skip_sentinel_lem buf src total_bits accum e s nonzero found hs he =
    rw found (ground (arith, ap (λ (t : ℕ). u64 (accum * 2 ^ t)) skip))
  where
    skip : 7 - s + 1 ≡ 8 - s
    skip = omega arith

skips :
    (buf : List ℕ) (src fill e s low : ℕ)
    → fill ≤ 8
    → s < 8
    → e + 8 ≡ 8 * fill + s
    → low < 2 ^ e
    → skip_sentinel buf src (fill * 8) ((2 ^ e + low) * 2 ^ (64 - fill * 8))
      ≡ record { buf = buf; ptr = src; accum = low * 2 ^ (64 - e); bits = pos e }
skips buf src fill e s low hf hs he hl =
    let accum = (2 ^ e + low) * 2 ^ (64 - fill * 8) in
    let (fits, least, most, shifted) = sentinel_accum fill e s low hf hs he hl in
    let last = u8 (accum / 2 ^ 56) in
    let byte : 2 ^ (s + 1) ≤ 2 ^ 8 = pow-le-pow_right {n = 2} (omega arith) {j = 8} (omega arith) in
    let some_bit : 0 < last = omega (arith, two-pow-pos s) in
    let (lo, hi) = floorlog2_byte_bounds last (omega arith) some_bit in
    let found : floorlog2_byte last ≡ s = log_unique last _ s lo hi (omega arith) (omega arith) in
    skip_sentinel_lem buf src (fill * 8) accum e s some_bit found hs (omega arith)
    ∙ ap (λ (t : ℕ). record { buf = buf; ptr = src; accum = t; bits = pos e }) shifted

init_lem :
    (buf : List ℕ) (fill src : ℕ)
    → 0 < length buf
    → fill ≡ (if ltb (length buf) 8 then length buf else 8)
    → src ≡ length buf - fill
    → init buf
      ≡ skip_sentinel buf src (fill * 8) (u64 (load buf src 0 fill 0 * 2 ^ (64 - fill * 8)))
unfolding init
init_lem buf fill src nonempty hf hs = rw (hs, hf) (ground arith)

take-all {ℓ} : {A : Type ℓ} (xs : List A) → take (length xs) xs ≡ xs
take-all [] = refl
take-all (x ∷ xs) = ap (λ t. x ∷ t) (take-all xs)

-- The loaded bytes are the highest one and the top bits of the number below it.
loaded_parts :
    (buf : List ℕ) (v n src fill e : ℕ)
    → All IsByte buf
    → src + fill ≡ length buf
    → fill ≤ 8
    → n ≡ e + 8 * src
    → v < 2 ^ n
    → value buf ≡ v + 2 ^ n
    → (load buf src 0 fill 0 ≡ 2 ^ e + v / 2 ^ (8 * src))
      × (value (take src buf) ≡ v % 2 ^ (8 * src))
      × (v / 2 ^ (8 * src) < 2 ^ e)
loaded_parts buf v n src fill e hb hl h8 hn hv he =
    let unit = 2 ^ (8 * src) in
    let (sum, small) = load_lem buf src 0 fill 0 hb (omega arith) (omega arith) (omega arith) in
    let start : value (take (src + 0) buf) ≡ value (take src buf) =
      ap (λ t. value (take t buf)) (omega arith) in
    let end : value (take (src + 0 + fill) buf) ≡ value buf =
      ap (λ t. value (take t buf)) {y = length buf} (omega arith) ∙ ap value (take-all buf) in
    let whole : 2 ^ n ≡ 2 ^ e * unit = ap (λ (t : ℕ). 2 ^ t) hn ∙ pow-add e (8 * src) in
    let unread : value (take src buf) < unit = take-lt buf src hb (omega arith) in
    let both =
      parts_unique unit (load buf src 0 fill 0) (value (take src buf)) (2 ^ e + v / unit) (v % unit)
        unread (mod-lt v (two-pow-pos (8 * src)))
        (omega (arith, sum, start, end, whole, div-add-mod' v unit)) in
    (both.0, both.1, (div-lt_iff_lt-mul (two-pow-pos (8 * src))).1 (omega arith))

-- A reader on a stream that ends in a sentinel holds the bits below the sentinel.
pub init-Loaded :
    (buf : List ℕ) (v n : ℕ)
    → All IsByte buf
    → length buf ≡ n / 8 + 1
    → v < 2 ^ n
    → value buf ≡ v + 2 ^ n
    → Loaded (init buf) v n
init-Loaded buf v n hb hl hv he =
    let fill = (if ltb (length buf) 8 then length buf else 8) in
    let src = length buf - fill in
    let s = n % 8 in
    let e = 8 * fill + s - 8 in
    let sizes : (1 ≤ fill) × (fill ≤ 8) × (src + fill ≡ length buf) × ((src ≡ 0) ⊎ (fill ≡ 8)) =
      ground arith in
    let (raw, unread, low_fits) =
      loaded_parts buf v n src fill e hb sizes.2 sizes.1 (omega (arith, sizes)) hv he in
    let low = v / 2 ^ (8 * src) in
    let exact : e + 8 ≡ 8 * fill + s = omega (arith, sizes) in
    let accum = sentinel_accum fill e s low sizes.1 (omega arith) exact low_fits in
    let start : init buf
        ≡ record { buf = buf; ptr = src; accum = low * 2 ^ (64 - e); bits = pos e } =
      init_lem buf fill src (omega arith) refl refl
      ∙ ap (λ (t : ℕ). skip_sentinel buf src (fill * 8) (u64 (t * 2 ^ (64 - fill * 8)))) raw
      ∙ ap (λ (t : ℕ). skip_sentinel buf src (fill * 8) t) (mod-eq_of_lt accum.0)
      ∙ skips buf src fill e s low sizes.1 (omega arith) exact low_fits in
    rw start (record {
      count = e;
      top = low;
      bits_are = refl;
      accum_is = refl;
      within = omega (arith, sizes);
      fits = low_fits;
      size = omega (arith, sizes);
      total = omega (arith, unread, div-add-mod' v (2 ^ (8 * src)));
      bytes = hb;
      inside = omega (arith, sizes);
      ready = omega (arith, sizes);
    })
