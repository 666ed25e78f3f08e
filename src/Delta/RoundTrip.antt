-- ===== src/Delta/RoundTrip.antt =====
-- Residuals there and back: netc_delta_decode and netc_delta_decode_order2 of
-- src/algo/netc_delta.h, and the scalar bulk operations of src/simd/netc_simd_generic.c.
use netc.Prelude.{ℕ, ◌+◌, ◌≡◌, ◌≤◌, refl, ap, ap₂, List, [], ◌∷◌, arith, IsByte, All, length}
use netc.Prelude.{bit_xor_cancel, bit_xor-lt, suc}
use netc.Delta.{encode_byte, decode_byte, encode_from, decode_from, encode, decode}
use netc.Delta.{predicted, encode_order2_from, decode_order2_from, encode_order2, decode_order2}
use netc.Delta.{encode_generic_from, decode_generic_from, encode_generic, decode_generic}

decode_byte-encode_byte :
    (i p c : ℕ) → IsByte p → IsByte c → decode_byte i p (encode_byte i p c) ≡ c
unfolding decode_byte encode_byte
decode_byte-encode_byte i p c hp hc = ground (arith, bit_xor_cancel 8 c p)

encode_byte-IsByte : (i p c : ℕ) → IsByte p → IsByte c → IsByte (encode_byte i p c)
unfolding encode_byte
encode_byte-IsByte i p c hp hc = ground (arith, bit_xor-lt 8 c p)

decode_from-encode_from :
    (i : ℕ) (prev curr : List ℕ)
    → length prev ≡ length curr
    → All IsByte prev
    → All IsByte curr
    → decode_from i prev (encode_from i prev curr) ≡ curr
unfolding decode_from encode_from
decode_from-encode_from i [] [] n hp hc = refl
decode_from-encode_from i [] (c ∷ curr) n hp hc = absurd (omega arith)
decode_from-encode_from i (p ∷ prev) [] n hp hc = absurd (omega arith)
decode_from-encode_from i (p ∷ prev) (c ∷ curr) n (hp, hps) (hc, hcs) =
    ap₂ ◌∷◌ (decode_byte-encode_byte i p c hp hc)
      (decode_from-encode_from (i + 1) prev curr (omega arith) hps hcs)

-- With a previous packet of the same size, decoding the residual of a packet of bytes gives the
-- packet back.
pub decode-encode :
    (prev curr : List ℕ)
    → length prev ≡ length curr
    → All IsByte prev
    → All IsByte curr
    → decode prev (encode prev curr) ≡ curr
unfolding decode encode
decode-encode prev curr n hp hc = decode_from-encode_from 0 prev curr n hp hc

encode_from-bytes :
    (i : ℕ) (prev curr : List ℕ)
    → length prev ≡ length curr
    → All IsByte prev
    → All IsByte curr
    → All IsByte (encode_from i prev curr) × (length (encode_from i prev curr) ≡ length curr)
unfolding encode_from
encode_from-bytes i [] [] n hp hc = (tt, refl)
encode_from-bytes i [] (c ∷ curr) n hp hc = absurd (omega arith)
encode_from-bytes i (p ∷ prev) [] n hp hc = absurd (omega arith)
encode_from-bytes i (p ∷ prev) (c ∷ curr) n (hp, hps) (hc, hcs) =
    let (bytes, same) = encode_from-bytes (i + 1) prev curr (omega arith) hps hcs in
    ((encode_byte-IsByte i p c hp hc, bytes), ap suc same)

-- The residual of a packet is as long as the packet, and consists of bytes.
pub encode-bytes :
    (prev curr : List ℕ)
    → length prev ≡ length curr
    → All IsByte prev
    → All IsByte curr
    → All IsByte (encode prev curr) × (length (encode prev curr) ≡ length curr)
unfolding encode
encode-bytes prev curr n hp hc = encode_from-bytes 0 prev curr n hp hc

predicted-IsByte : (q p : ℕ) → IsByte (predicted q p)
unfolding predicted
predicted-IsByte q p = omega arith

decode_order2_from-encode_order2_from :
    (i : ℕ) (prev2 prev curr : List ℕ)
    → length prev2 ≡ length curr
    → length prev ≡ length curr
    → All IsByte curr
    → decode_order2_from i prev2 prev (encode_order2_from i prev2 prev curr) ≡ curr
unfolding decode_order2_from encode_order2_from
decode_order2_from-encode_order2_from i [] [] [] m n hc = refl
decode_order2_from-encode_order2_from i [] prev (c ∷ curr) m n hc = absurd (omega arith)
decode_order2_from-encode_order2_from i prev2 [] (c ∷ curr) m n hc = absurd (omega arith)
decode_order2_from-encode_order2_from i (q ∷ prev2) prev [] m n hc = absurd (omega arith)
decode_order2_from-encode_order2_from i prev2 (p ∷ prev) [] m n hc = absurd (omega arith)
decode_order2_from-encode_order2_from i (q ∷ prev2) (p ∷ prev) (c ∷ curr) m n (hc, hcs) =
    ap₂ ◌∷◌ (decode_byte-encode_byte i (predicted q p) c (predicted-IsByte q p) hc) (
      decode_order2_from-encode_order2_from (i + 1) prev2 prev curr (omega arith) (omega arith) hcs)

-- With two previous packets of the same size, whatever they hold, order-2 decoding of the order-2
-- residual of a packet of bytes gives the packet back.
pub decode_order2-encode_order2 :
    (prev2 prev curr : List ℕ)
    → length prev2 ≡ length curr
    → length prev ≡ length curr
    → All IsByte curr
    → decode_order2 prev2 prev (encode_order2 prev2 prev curr) ≡ curr
unfolding decode_order2 encode_order2
decode_order2-encode_order2 prev2 prev curr m n hc =
    decode_order2_from-encode_order2_from 0 prev2 prev curr m n hc

encode_generic_from-eq :
    (i : ℕ) (prev curr : List ℕ) → encode_generic_from i prev curr ≡ encode_from i prev curr
unfolding encode_generic_from encode_from
encode_generic_from-eq i [] curr = refl
encode_generic_from-eq i (p ∷ prev) [] = refl
encode_generic_from-eq i (p ∷ prev) (c ∷ curr) = rw (encode_generic_from-eq (i + 1) prev curr)

decode_generic_from-eq :
    (i : ℕ) (prev curr : List ℕ) → decode_generic_from i prev curr ≡ decode_from i prev curr
unfolding decode_generic_from decode_from
decode_generic_from-eq i [] curr = refl
decode_generic_from-eq i (p ∷ prev) [] = refl
decode_generic_from-eq i (p ∷ prev) (c ∷ curr) = rw (decode_generic_from-eq (i + 1) prev curr)

-- The generic fallback of the bulk operations computes the same bytes as `encode` and `decode` on every
-- input, with the class of each byte by its offset.
pub generic-eq-scalar :
    (prev curr : List ℕ)
    → (encode_generic prev curr ≡ encode prev curr) × (decode_generic prev curr ≡ decode prev curr)
unfolding encode_generic decode_generic encode decode
generic-eq-scalar prev curr =
    (encode_generic_from-eq 0 prev curr, decode_generic_from-eq 0 prev curr)

length-encode_order2_from :
    (i : ℕ) (prev2 prev curr : List ℕ)
    → length prev2 ≡ length curr
    → length prev ≡ length curr
    → length (encode_order2_from i prev2 prev curr) ≡ length curr
unfolding encode_order2_from
length-encode_order2_from i [] prev [] m n = refl
length-encode_order2_from i [] prev (c ∷ curr) m n = absurd (omega arith)
length-encode_order2_from i (q ∷ prev2) prev [] m n = absurd (omega arith)
length-encode_order2_from i (q ∷ prev2) [] (c ∷ curr) m n = absurd (omega arith)
length-encode_order2_from i (q ∷ prev2) (p ∷ prev) (c ∷ curr) m n =
    ap suc (length-encode_order2_from (i + 1) prev2 prev curr (omega arith) (omega arith))

pub length-encode_order2 :
    (prev2 prev curr : List ℕ)
    → length prev2 ≡ length curr
    → length prev ≡ length curr
    → length (encode_order2 prev2 prev curr) ≡ length curr
unfolding encode_order2
length-encode_order2 prev2 prev curr m n = length-encode_order2_from 0 prev2 prev curr m n

-- Sizes after the inverse, for any packets before.
length-decode_from : (i : ℕ) (prev rs : List ℕ) → length (decode_from i prev rs) ≤ length rs
unfolding decode_from
length-decode_from i [] rs = omega arith
length-decode_from i (p ∷ prev) [] = omega arith
length-decode_from i (p ∷ prev) (r ∷ rs) = omega (arith, length-decode_from (i + 1) prev rs)

pub length-decode : (prev rs : List ℕ) → length (decode prev rs) ≤ length rs
unfolding decode
length-decode prev rs = length-decode_from 0 prev rs

length-decode_order2_from :
    (i : ℕ) (prev2 prev rs : List ℕ) → length (decode_order2_from i prev2 prev rs) ≤ length rs
unfolding decode_order2_from
length-decode_order2_from i [] prev rs = omega arith
length-decode_order2_from i (q ∷ prev2) [] rs = omega arith
length-decode_order2_from i (q ∷ prev2) (p ∷ prev) [] = omega arith
length-decode_order2_from i (q ∷ prev2) (p ∷ prev) (r ∷ rs) =
    omega (arith, length-decode_order2_from (i + 1) prev2 prev rs)

pub length-decode_order2 :
    (prev2 prev rs : List ℕ) → length (decode_order2 prev2 prev rs) ≤ length rs
unfolding decode_order2
length-decode_order2 prev2 prev rs = length-decode_order2_from 0 prev2 prev rs

-- Residuals are no longer than the packet, for any packets before.
length-encode_from : (i : ℕ) (prev cs : List ℕ) → length (encode_from i prev cs) ≤ length cs
unfolding encode_from
length-encode_from i [] cs = omega arith
length-encode_from i (p ∷ prev) [] = omega arith
length-encode_from i (p ∷ prev) (c ∷ cs) = omega (arith, length-encode_from (i + 1) prev cs)

pub length-encode : (prev cs : List ℕ) → length (encode prev cs) ≤ length cs
unfolding encode
length-encode prev cs = length-encode_from 0 prev cs

short_order2_from :
    (i : ℕ) (prev2 prev cs : List ℕ) → length (encode_order2_from i prev2 prev cs) ≤ length cs
unfolding encode_order2_from
short_order2_from i [] prev cs = omega arith
short_order2_from i (q ∷ prev2) [] cs = omega arith
short_order2_from i (q ∷ prev2) (p ∷ prev) [] = omega arith
short_order2_from i (q ∷ prev2) (p ∷ prev) (c ∷ cs) =
    omega (arith, short_order2_from (i + 1) prev2 prev cs)

pub short_order2 : (prev2 prev cs : List ℕ) → length (encode_order2 prev2 prev cs) ≤ length cs
unfolding encode_order2
short_order2 prev2 prev cs = short_order2_from 0 prev2 prev cs
