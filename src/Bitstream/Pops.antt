-- ===== src/Bitstream/Pops.antt =====
-- What `netc_bsr_read` of src/util/netc_bitstream.h does to the stack of bits.
use netc.Prelude.{
  ℕ, zero, suc, ◌+◌, ◌-◌, ◌*◌, ◌/◌, ◌%◌, ◌^◌, ◌≤◌, ◌<◌, ◌≡◌, refl, ap, arith, ◌∙◌, sym,
}
use netc.Prelude.{List, [], ◌∷◌, ◌⊎◌, inl, inr, All, IsByte, length, length-take, get_or, take}
use netc.Prelude.{bit_or, bit_or_high_low, u32, u64}
use netc.Prelude.{pow-add, two-pow-pos, lt-mul_of_lt, div_of_parts, parts_unique}
use netc.Prelude.Int.{pos, ◌-ℤ◌}
use netc.Bitstream.Value.{value, bit_size, value-lt, value-take-suc}
use netc.Bitstream.Reader.{Reader, done, peek, refill, consume, read}
use native.Mathlib.Nat.{pow-le-pow_right, mod-lt, div-add-mod', div-lt_iff_lt-mul}
use native.Mathlib.Decide.{dec_le}

-- The accumulator has the `count` bits `top` at its upper end, and the bytes below `ptr` are still
-- to come; together they are the stack of `n` bits whose number is `v`.
pub record Loaded (r : Reader) (v n : ℕ) : Type 0 where
  pub count : ℕ
  pub top : ℕ
  pub bits_are : r.bits ≡ pos count
  pub accum_is : r.accum ≡ top * 2 ^ (64 - count)
  pub within : count ≤ 64
  pub fits : top < 2 ^ count
  pub size : n ≡ count + 8 * r.ptr
  pub total : v ≡ value (take r.ptr r.buf) + top * 2 ^ (8 * r.ptr)
  pub bytes : All IsByte r.buf
  pub inside : r.ptr ≤ length r.buf
  pub ready : (56 ≤ count) ⊎ (r.ptr ≡ 0)

pub get_or-IsByte : (xs : List ℕ) (i : ℕ) → All IsByte xs → get_or xs i 0 < 256
get_or-IsByte [] i h = omega arith
get_or-IsByte (x ∷ xs) zero h = h.0
get_or-IsByte (x ∷ xs) (suc i) h = get_or-IsByte xs i h.1

-- A byte placed just below the bits at hand.
place_byte :
    (top count x : ℕ)
    → count ≤ 56
    → x < 256
    → bit_or (top * 2 ^ (64 - count)) (u64 (x * 2 ^ (56 - count)))
      ≡ (top * 256 + x) * 2 ^ (64 - (count + 8))
place_byte top count x low hx =
    let split : 2 ^ (64 - count) ≡ 2 ^ (56 - count) * 256 =
      ap (λ (t : ℕ). 2 ^ t) (omega arith) ∙ pow-add (56 - count) 8 in
    let below : x * 2 ^ (56 - count) < 2 ^ (64 - count) =
      omega (arith, lt-mul_of_lt x 256 (2 ^ (56 - count)) hx (two-pow-pos (56 - count))) in
    let top64 : 2 ^ (64 - count) ≤ 2 ^ 64 =
      pow-le-pow_right {n = 2} (omega arith) {j = 64} (omega arith) in
    let whole : u64 (x * 2 ^ (56 - count)) ≡ x * 2 ^ (56 - count) = omega arith in
    let same : 2 ^ (64 - (count + 8)) ≡ 2 ^ (56 - count) = ap (λ (t : ℕ). 2 ^ t) (omega arith) in
    rw (whole, same)
      (omega (
        arith,
        bit_or_high_low (64 - count) top (x * 2 ^ (56 - count)) below,
        ap (λ (t : ℕ). top * t) split,
      ))

refill-more :
    (buf : List ℕ) (p accum count : ℕ)
    → count ≤ 56
    → refill buf (suc p) accum (pos count)
      ≡ refill buf p (bit_or accum (u64 (get_or buf p 0 * 2 ^ (56 - count)))) (pos (count + 8))
unfolding refill
refill-more buf p accum count low = ground arith

refill-stop :
    (buf : List ℕ) (p accum count : ℕ)
    → 56 < count
    → refill buf (suc p) accum (pos count)
      ≡ done (record { buf = buf; ptr = suc p; accum = accum; bits = pos count })
unfolding refill
refill-stop buf p accum count high = ground arith

refill-Loaded :
    (ptr count top v n : ℕ) (buf : List ℕ)
    → count ≤ 64
    → top < 2 ^ count
    → n ≡ count + 8 * ptr
    → v ≡ value (take ptr buf) + top * 2 ^ (8 * ptr)
    → All IsByte buf
    → ptr ≤ length buf
    → (r : Reader) × (refill buf ptr (top * 2 ^ (64 - count)) (pos count) ≡ done r) × Loaded r v n
unfolding refill
refill-Loaded zero count top v n buf hc ht hn hv hb hp = (
  record { buf = buf; ptr = 0; accum = top * 2 ^ (64 - count); bits = pos count },
  refl,
  record {
    count = count;
    top = top;
    bits_are = refl;
    accum_is = refl;
    within = hc;
    fits = ht;
    size = hn;
    total = hv;
    bytes = hb;
    inside = hp;
    ready = inr refl;
  },
)
refill-Loaded (suc p) count top v n buf hc ht hn hv hb hp = elim (dec_le count 56) [
  | yes low ↦
      let x = get_or buf p 0 in
      let byte : x < 256 = get_or-IsByte buf p hb in
      let wider : 2 ^ (count + 8) ≡ 2 ^ count * 256 = pow-add count 8 in
      let higher : 2 ^ (8 * suc p) ≡ 2 ^ (8 * p) * 256 =
        ap (λ (t : ℕ). 2 ^ t) (omega arith) ∙ pow-add (8 * p) 8 in
      let more =
        refill-Loaded p (count + 8) (top * 256 + x) v n buf (omega arith) (omega arith)
          (omega arith) (omega (arith, value-take-suc p buf hp, ap (λ (t : ℕ). top * t) higher)) hb
          (omega arith) in
      (
        more.0,
        refill-more buf p (top * 2 ^ (64 - count)) count low
            ∙ ap (λ t. refill buf p t (pos (count + 8))) (place_byte top count x low byte)
            ∙ more.1,
        more.2,
      )
  | no high ↦ (
    record { buf = buf; ptr = suc p; accum = top * 2 ^ (64 - count); bits = pos count },
    refill-stop buf p (top * 2 ^ (64 - count)) count (omega arith),
    record {
      count = count;
      top = top;
      bits_are = refl;
      accum_is = refl;
      within = hc;
      fits = ht;
      size = hn;
      total = hv;
      bytes = hb;
      inside = hp;
      ready = inl (omega arith);
    },
  )
]

-- The bits at hand split into those that are read and those that stay.
record Split (r : Reader) (v n x nb count top : ℕ) : Type 0 where
  low : ℕ
  enough : nb ≤ count
  size : n ≡ count - nb + 8 * r.ptr
  low_fits : low < 2 ^ (count - nb)
  top_is : top ≡ x * 2 ^ (count - nb) + low
  total : v ≡ value (take r.ptr r.buf) + low * 2 ^ (8 * r.ptr)

take-bytes : (n : ℕ) (xs : List ℕ) → All IsByte xs → All IsByte (take n xs)
take-bytes zero xs h = tt
take-bytes (suc n) [] h = tt
take-bytes (suc n) (x ∷ xs) h = (h.0, take-bytes n xs h.1)

pub take-lt :
    (xs : List ℕ) (n : ℕ) → All IsByte xs → n ≤ length xs → value (take n xs) < 2 ^ (8 * n)
take-lt xs n hb hn =
    let same : 2 ^ bit_size (take n xs) ≡ 2 ^ (8 * n) =
      ap (λ (t : ℕ). 2 ^ t) (omega (arith, length-take n xs)) in
    omega (arith, value-lt (take n xs) (take-bytes n xs hb), same)

split :
    (r : Reader) (v n x nb : ℕ)
    → nb ≤ 32
    → v < 2 ^ n
    → (h : Loaded r (v + x * 2 ^ n) (n + nb)) → Split r v n x nb h.count h.top
split r v n x nb h32 hv h =
    let kept = h.count - nb in
    let unit = 2 ^ (8 * r.ptr) in
    let whole : 2 ^ n ≡ 2 ^ kept * unit =
      ap (λ (t : ℕ). 2 ^ t) (omega arith) ∙ pow-add kept (8 * r.ptr) in
    let both =
      parts_unique unit (x * 2 ^ kept + v / unit) (v % unit) h.top (value (take r.ptr r.buf))
        (mod-lt v (two-pow-pos (8 * r.ptr))) (take-lt r.buf r.ptr h.bytes h.inside)
        (omega (arith, h.total, ap (λ (t : ℕ). x * t) whole, div-add-mod' v unit)) in
    record {
      low = v / unit;
      enough = omega (arith, h.ready, h.size);
      size = omega (arith, h.ready, h.size);
      low_fits = (div-lt_iff_lt-mul (two-pow-pos (8 * r.ptr))).1 (omega arith);
      top_is = sym both.0;
      total = omega (arith, both.1, div-add-mod' v unit);
    }

-- The upper bits are what `peek` shows, and the shift by `nb` leaves the lower ones.
peek_lem :
    (count nb x low : ℕ)
    → count ≤ 64
    → nb ≤ count
    → nb ≤ 32
    → x < 2 ^ nb
    → low < 2 ^ (count - nb)
    → (u32 ((x * 2 ^ (count - nb) + low) * 2 ^ (64 - count) / 2 ^ (64 - nb)) ≡ x)
      × (u64 ((x * 2 ^ (count - nb) + low) * 2 ^ (64 - count) * 2 ^ nb)
          ≡ low * 2 ^ (64 - (count - nb)))
peek_lem count nb x low hc hn h32 hx hl =
    let kept = 2 ^ (count - nb) in
    let unit = 2 ^ (64 - count) in
    let window : 2 ^ (64 - nb) ≡ kept * unit =
      ap (λ (t : ℕ). 2 ^ t) (omega arith) ∙ pow-add (count - nb) (64 - count) in
    let raised : 2 ^ (64 - (count - nb)) ≡ unit * 2 ^ nb =
      ap (λ (t : ℕ). 2 ^ t) (omega arith) ∙ pow-add (64 - count) nb in
    let full : 2 ^ 64 ≡ 2 ^ (64 - nb) * 2 ^ nb =
      ap (λ (t : ℕ). 2 ^ t) {x = 64} (omega arith) ∙ pow-add (64 - nb) nb in
    let word : 2 ^ nb ≤ 2 ^ 32 = pow-le-pow_right {n = 2} (omega arith) {j = 32} h32 in
    let rest_fits : low * unit < 2 ^ (64 - nb) =
      omega (arith, lt-mul_of_lt low kept unit hl (two-pow-pos (64 - count))) in
    let shown : (x * kept + low) * unit ≡ x * 2 ^ (64 - nb) + low * unit =
      omega (arith, ap (λ (t : ℕ). x * t) window) in
    let left : (x * kept + low) * unit * 2 ^ nb ≡ x * 2 ^ 64 + low * 2 ^ (64 - (count - nb)) =
      omega (
        arith,
        ap (λ (t : ℕ). t * 2 ^ nb) shown,
        ap (λ (t : ℕ). x * t) full,
        ap (λ (t : ℕ). low * t) raised,
      ) in
    let left_fits : low * 2 ^ (64 - (count - nb)) < 2 ^ 64 = omega (
      arith,
      lt-mul_of_lt (low * unit) (2 ^ (64 - nb)) (2 ^ nb) rest_fits (two-pow-pos nb),
      ap (λ (t : ℕ). low * t) raised,
    ) in
    (
      rw (shown, div_of_parts (2 ^ (64 - nb)) x (low * unit) rest_fits) (omega arith),
      rw left (omega arith),
    )

-- A read whose bits are at hand returns what `peek` shows.
read-done :
    (r : Reader) (nb count kept : ℕ) {r' : Reader}
    → r.bits ≡ pos count
    → nb ≤ count
    → refill r.buf r.ptr (u64 (r.accum * 2 ^ nb)) (pos (count - nb)) ≡ done r'
    → r'.bits ≡ pos kept
    → read r nb ≡ done (u32 (r.accum / 2 ^ (64 - nb)), r')
unfolding read
read-done r nb count kept {r'} hb hn e k = rw (hb, fits, e, k) (ground arith)
  where
    fits : pos count -ℤ pos nb ≡ pos (count - nb)
    fits = ground arith

-- Reading the bits pushed last returns them, and leaves the stack of the others.
pub read-pops :
    (r : Reader) (v n x nb : ℕ)
    → 1 ≤ nb
    → nb ≤ 32
    → x < 2 ^ nb
    → v < 2 ^ n
    → Loaded r (v + x * 2 ^ n) (n + nb)
    → (r' : Reader) × (read r nb ≡ done (x, r')) × Loaded r' v n
unfolding read consume peek
read-pops r v n x nb h1 h32 hx hv h =
    let s = split r v n x nb h32 hv h in
    let kept = h.count - nb in
    let (shown, left) = peek_lem h.count nb x s.low h.within s.enough h32 hx s.low_fits in
    let accum : r.accum ≡ (x * 2 ^ kept + s.low) * 2 ^ (64 - h.count) =
      h.accum_is ∙ ap (λ (t : ℕ). t * 2 ^ (64 - h.count)) s.top_is in
    let (r', refilled, loaded) =
      refill-Loaded r.ptr kept s.low v n r.buf (omega arith) s.low_fits s.size s.total h.bytes
        h.inside in
    (
      r',
      read-done r nb h.count loaded.count h.bits_are s.enough
            (ap (λ (t : ℕ). refill r.buf r.ptr t (pos kept))
                (ap (λ (t : ℕ). u64 (t * 2 ^ nb)) accum ∙ left)
              ∙ refilled)
            loaded.bits_are
          ∙ ap (λ (t : ℕ). done (t, r')) (ap (λ (t : ℕ). u32 (t / 2 ^ (64 - nb))) accum ∙ shown),
      loaded,
    )
