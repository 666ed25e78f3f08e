-- ===== src/Crc32/Bitwise.antt =====
-- The checksum of src/util/netc_crc32.c and the definition of it bit by bit.
use netc.Prelude.{
  ℕ, zero, suc, ◌*◌, ◌/◌, ◌%◌, ◌^◌, ◌<◌, ◌≡◌, refl, sym, ap, ap₂, arith, ◌∙◌, List, [], ◌∷◌, ◌++◌,
}
use netc.Prelude.{
  Bool, true, ◌&&◌, ltb, ◌==◌, if◌then◌else◌, bit_and, bit_and_mask, bit_xor, bit_xor-lt,
  bit_xor_cancel,
}
use netc.Prelude.{
  bit_xor-half, bit_xor-parity, zero-bit_xor, bit_xor_comm, bit_xor_assoc, bit_xor_low_high,
}
use netc.Prelude.{All, IsByte, get_or, all_below, all_below_sound}
use netc.Crc32.{crc32_table, step, run, crc32, crc32_continue}
use native.Mathlib.Nat.{div-div-eq-div-mul, pow-suc}

-- One round of the division by the reflected polynomial of IEEE 802.3.
abbrev pub feedback : ℕ → ℕ
feedback x = if x % 2 == 1 then 0xedb88320 else 0

unfoldable pub bit_round : ℕ → ℕ
bit_round x = bit_xor (x / 2) (feedback x)

unfoldable pub rounds : ℕ → ℕ → ℕ
unfolding bit_round
rounds zero x = x
rounds (suc k) x = rounds k (bit_round x)

unfoldable pub run_bits : ℕ → List ℕ → ℕ
unfolding rounds
run_bits crc [] = crc
run_bits crc (byte ∷ bytes) = run_bits (rounds 8 (bit_xor crc byte)) bytes

good_entry : ℕ → Bool
good_entry b = (get_or crc32_table b 0 == rounds 8 b) && ltb (get_or crc32_table b 0) (2 ^ 32)

table_checked : all_below 256 good_entry ≡ true
unfolding good_entry rounds all_below
table_checked = refl

entry_lem :
    (b : ℕ) → b < 256 → (get_or crc32_table b 0 ≡ rounds 8 b) × (get_or crc32_table b 0 < 2 ^ 32)
unfolding good_entry
entry_lem b h = ground (arith, all_below_sound 256 good_entry b table_checked h)

feedback-lt : (x : ℕ) → feedback x < 2 ^ 32
feedback-lt x = ground arith

bit_round-lt : (x : ℕ) → x < 2 ^ 32 → bit_round x < 2 ^ 32
unfolding bit_round
bit_round-lt x h = bit_xor-lt 32 (x / 2) (feedback x) (omega arith) (feedback-lt x)

-- A round on a number with digits above its lowest one: these only move down.
bit_round_high :
    (x y : ℕ)
    → x < 2 ^ 32
    → y * 2 < 2 ^ 32
    → bit_round (bit_xor x (y * 2)) ≡ bit_xor (bit_round x) y
unfolding bit_round
bit_round_high x y hx hy =
    let half : bit_xor x (y * 2) / 2 ≡ bit_xor (x / 2) y =
      bit_xor-half x (y * 2) ∙ ap (bit_xor (x / 2)) (omega arith) in
    let odd : bit_xor x (y * 2) % 2 ≡ x % 2 = bit_xor-parity x (y * 2) ∙ omega arith in
    let f = feedback x in
    ap₂ bit_xor half (ap (λ (t : ℕ). if t == 1 then 0xedb88320 else 0) odd)
    ∙ bit_xor_assoc 32 (x / 2) y f (omega arith) (omega arith) (feedback-lt x)
    ∙ ap (bit_xor (x / 2)) (bit_xor_comm 32 y f (omega arith) (feedback-lt x))
    ∙ sym (bit_xor_assoc 32 (x / 2) f y (omega arith) (feedback-lt x) (omega arith))

rounds_high :
    (k x q : ℕ)
    → x < 2 ^ 32
    → q * 2 ^ k < 2 ^ 32
    → rounds k (bit_xor x (q * 2 ^ k)) ≡ bit_xor (rounds k x) q
unfolding rounds
rounds_high zero x q hx hq = ap (bit_xor x) (omega arith)
rounds_high (suc k) x q hx hq =
    let twice : q * 2 ^ suc k ≡ q * 2 ^ k * 2 =
      omega (arith, ap (λ (t : ℕ). q * t) (pow-suc 2 k)) in
    ap (λ (t : ℕ). rounds k (bit_round (bit_xor x t))) twice
    ∙ ap (rounds k) (bit_round_high x (q * 2 ^ k) hx (omega arith))
    ∙ rounds_high k (bit_round x) q (bit_round-lt x hx) (omega arith)

rounds_byte : (x : ℕ) → x < 2 ^ 32 → rounds 8 x ≡ bit_xor (rounds 8 (x % 256)) (x / 256)
rounds_byte x h =
    ap (rounds 8) (omega arith ∙ sym (bit_xor_low_high 8 (x / 256) (x % 256) (omega arith)))
    ∙ rounds_high 8 (x % 256) (x / 256) (omega arith) (omega arith)

half_again : (k a : ℕ) → a / 2 ^ suc k ≡ a / 2 ^ k / 2
half_again k a = ap (λ (t : ℕ). a / t) (pow-suc 2 k) ∙ sym (div-div-eq-div-mul a (2 ^ k) 2)

div_one : (a : ℕ) → a / 2 ^ 0 ≡ a
div_one a = omega arith

shift_xor : (k a b : ℕ) → bit_xor a b / 2 ^ k ≡ bit_xor (a / 2 ^ k) (b / 2 ^ k)
shift_xor zero a b = div_one (bit_xor a b) ∙ ap₂ bit_xor (sym (div_one a)) (sym (div_one b))
shift_xor (suc k) a b =
    half_again k (bit_xor a b)
    ∙ ap (λ (t : ℕ). t / 2) (shift_xor k a b)
    ∙ bit_xor-half (a / 2 ^ k) (b / 2 ^ k)
    ∙ ap₂ bit_xor (sym (half_again k a)) (sym (half_again k b))

bit_xor-zero : (a : ℕ) → a < 2 ^ 32 → bit_xor a 0 ≡ a
bit_xor-zero a h = bit_xor_comm 32 a 0 h (omega arith) ∙ zero-bit_xor a

-- One step with the table is eight rounds.
step-eq_rounds :
    (crc byte : ℕ)
    → crc < 2 ^ 32
    → byte < 256
    → (step crc byte ≡ rounds 8 (bit_xor crc byte)) × (step crc byte < 2 ^ 32)
unfolding step
step-eq_rounds crc byte hc hb =
    let x = bit_xor crc byte in
    let hx : x < 2 ^ 32 = bit_xor-lt 32 crc byte hc (omega arith) in
    let low : bit_and x 0xff ≡ x % 256 = bit_and_mask 8 x in
    let entry = entry_lem (x % 256) (omega arith) in
    let high : x / 256 ≡ crc / 256 =
      shift_xor 8 crc byte
      ∙ ap (bit_xor (crc / 256)) (omega arith)
      ∙ bit_xor-zero (crc / 256) (omega arith) in
    (
      ap (λ (t : ℕ). bit_xor (get_or crc32_table t 0) (crc / 256)) low
          ∙ ap₂ bit_xor entry.0 (sym high)
          ∙ sym (rounds_byte x hx),
      bit_xor-lt 32 _ (crc / 256) (rw low entry.1) (omega arith),
    )

run-eq_run_bits :
    (bytes : List ℕ) (crc : ℕ)
    → crc < 2 ^ 32
    → All IsByte bytes
    → (run crc bytes ≡ run_bits crc bytes) × (run crc bytes < 2 ^ 32)
unfolding run run_bits
run-eq_run_bits [] crc hc hd = (refl, hc)
run-eq_run_bits (byte ∷ bytes) crc hc hd =
    let (same, small) = step-eq_rounds crc byte hc hd.0 in
    let (rest, small') = run-eq_run_bits bytes (step crc byte) small hd.1 in
    (rest ∙ ap (λ (t : ℕ). run_bits t bytes) same, small')

-- The checksum of any bytes is the one defined bit by bit: eight rounds of the division by the reflected
-- polynomial for each byte, between the two inversions.
pub crc32-eq_bitwise :
    (bytes : List ℕ)
    → All IsByte bytes
    → crc32 bytes ≡ bit_xor (run_bits 0xffffffff bytes) 0xffffffff
unfolding crc32
crc32-eq_bitwise bytes hd =
    ap (λ (t : ℕ). bit_xor t 0xffffffff) (run-eq_run_bits bytes 0xffffffff (omega arith) hd).0

run-append : (xs ys : List ℕ) (crc : ℕ) → run crc (xs ++ ys) ≡ run (run crc xs) ys
unfolding run
run-append [] ys crc = refl
run-append (x ∷ xs) ys crc = run-append xs ys (step crc x)

-- A checksum continued over more bytes is that of all the bytes.
pub crc32_continue-crc32 :
    (xs ys : List ℕ) → All IsByte xs → crc32_continue (crc32 xs) ys ≡ crc32 (xs ++ ys)
unfolding crc32 crc32_continue
crc32_continue-crc32 xs ys hx =
    let small = (run-eq_run_bits xs 0xffffffff (omega arith) hx).1 in
    ap (λ (t : ℕ). bit_xor (run t ys) 0xffffffff)
      (bit_xor_cancel 32 (run 0xffffffff xs) 0xffffffff small (omega arith))
    ∙ ap (λ (t : ℕ). bit_xor t 0xffffffff) (sym (run-append xs ys 0xffffffff))
