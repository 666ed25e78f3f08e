-- ===== src/Bitstream/Reader.antt =====
-- `netc_bsr_t` of src/util/netc_bitstream.h. `buf` is the stream and `ptr` the number of its bytes that are
-- not yet loaded (`r->ptr - r->start`). `bits` is an `int`, which a read past the start takes below
-- zero. A shift of a 64-bit word by 64 or more is undefined in C; it is `undefined` here.
use netc.Prelude.{ℕ, zero, suc, ◌+◌, ◌-◌, ◌*◌, List, Bool, ◌&&◌}
use netc.Prelude.{ltb, leb, ◌==◌, ◌!=◌, if◌then◌else◌, u8, u32, u64, ◌<<<◌, ◌>>>◌}
use netc.Prelude.{bit_and, bit_or, length, get_or}
use netc.Prelude.Int.{ℤ, pos, ◌+ℤ◌, ◌-ℤ◌, ltb_ℤ, leb_ℤ, pos_part}

pub record Reader : Type 0 where
  pub buf : List ℕ
  pub ptr : ℕ
  pub accum : ℕ
  pub bits : ℤ

-- `undefined` stands for an operation that C leaves undefined; `failed` is the return value -1.
pub data Outcome {ℓ} (A : Type ℓ) : Type ℓ where
  done : A → Outcome A
  failed undefined : Outcome A

infixl 5 ◌>>=◌
abbrev pub ◌>>=◌ {ℓ κ} : {A : Type ℓ} {B : Type κ} → Outcome A → (A → Outcome B) → Outcome B
done a >>= f = f a
failed >>= f = failed
undefined >>= f = undefined

-- `netc_bsr__floorlog2_byte`: each test reads the byte that the one before it has shifted.
unfoldable pub floorlog2_byte : ℕ → ℕ
floorlog2_byte v =
    let (v1, n1) = high_nibble v in
    let (v2, n2) = high_pair v1 n1 in if bit_and v2 0x02 != 0 then n2 + 1 else n2
  where
    high_nibble : ℕ → ℕ × ℕ
    high_nibble v = if bit_and v 0xf0 != 0 then (v >>> 4, 4) else (v, 0)

    high_pair : ℕ → ℕ → ℕ × ℕ
    high_pair v n = if bit_and v 0x0c != 0 then (v >>> 2, n + 2) else (v, n)

-- `raw |= (uint64_t)src[i] << (i * 8)` for the `left` bytes from index `i` on.
unfoldable pub load : List ℕ → ℕ → ℕ → ℕ → ℕ → ℕ
load buf src i zero raw = raw
load buf src i (suc left) raw =
    load buf src (i + 1) left (bit_or raw (u64 (get_or buf (src + i) 0 <<< (i * 8))))

-- `netc_bsr_init` over a non-empty stream, once `raw` is loaded.
unfoldable pub skip_sentinel : List ℕ → ℕ → ℕ → ℕ → Reader
skip_sentinel buf ptr total_bits accum =
    let last_byte = u8 (accum >>> 56) in
    let skip = (7 - floorlog2_byte last_byte) + 1 in
    let bits = pos total_bits -ℤ pos skip in
    if last_byte == 0
    then record { buf = buf; ptr = ptr; accum = accum; bits = pos 0 }
    else record {
      buf = buf;
      ptr = ptr;
      accum = u64 (accum <<< skip);
      bits = if ltb_ℤ bits (pos 0) then pos 0 else bits;
    }

unfoldable pub init : List ℕ → Reader
init buf =
    let size = length buf in
    let fill = if ltb size 8 then size else 8 in
    let raw = load buf (size - fill) 0 fill 0 in
    if size == 0
    then record { buf = buf; ptr = 0; accum = 0; bits = pos 0 }
    else skip_sentinel buf (size - fill) (fill * 8) (u64 (raw <<< (64 - fill * 8)))

-- `netc_bsr_peek`, for `nb` from 1 to 32.
unfoldable pub peek : Reader → ℕ → ℕ
peek r nb = u32 (r.accum >>> (64 - nb))

-- The refill loop of `netc_bsr_consume`; each round takes one byte off `ptr`. `bits` is at most 56
-- in a round, so the shift count `56 - bits` is not negative.
unfoldable pub refill : List ℕ → ℕ → ℕ → ℤ → Outcome Reader
refill buf zero accum bits = done (record { buf = buf; ptr = 0; accum = accum; bits = bits })
refill buf (suc p) accum bits =
    let shift = pos_part (pos 56 -ℤ bits) in
    let rest = refill buf p (bit_or accum (u64 (get_or buf p 0 <<< shift))) (bits +ℤ pos 8) in
    if leb_ℤ bits (pos 56)
    then if leb 64 shift then undefined else rest
    else done (record { buf = buf; ptr = suc p; accum = accum; bits = bits })

-- `netc_bsr_consume`: the reader after the refill, and whether it returns 0 (`true`) or -1.
unfoldable pub consume : Reader → ℕ → Outcome (Bool × Reader)
unfolding refill
consume r nb = do
  r' ← refill r.buf r.ptr (u64 (r.accum <<< nb)) (r.bits -ℤ pos nb)
  done (leb_ℤ (pos 0) r'.bits, r')

-- `netc_bsr_read`; the callers stop at -1 and do not look at the reader or the value then.
unfoldable pub read : Reader → ℕ → Outcome (ℕ × Reader)
unfolding peek consume
read r nb = do (good, r') ← consume r nb; if good then done (peek r nb, r') else failed

-- `netc_bsr_empty`.
unfoldable pub empty : Reader → Bool
empty r = leb_ℤ r.bits (pos 0) && r.ptr == 0
