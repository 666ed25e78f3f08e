-- ===== src/Delta.antt =====
-- Delta prediction by field class: src/algo/netc_delta.h, and the scalar bulk operations of
-- src/simd/netc_simd_generic.c that the dispatch table falls back to. A pointer with its `size` is
-- the list of those bytes, and `i` is the offset of its head in the packet. Every loop writes
-- `out[i]` from the reads at `i` alone, so `out` may be the residual's own buffer.
pub mod RoundTrip
mod Tests
use netc.Prelude.{ℕ, ◌+◌, ◌-◌, ◌*◌, ◌^◌, List, [], ◌∷◌, Bool, ◌&&◌, ◌||◌}
use netc.Prelude.{ltb, leb, if◌then◌else◌, u8, bit_xor}

abbrev pub header_end : ℕ
header_end = 16

abbrev pub subheader_end : ℕ
subheader_end = 64

abbrev pub body_end : ℕ
body_end = 256

-- The offsets whose strategy is XOR; the others subtract.
pub is_xor_class : ℕ → Bool
is_xor_class i = ltb i header_end || (leb subheader_end i && ltb i body_end)

-- One round of `netc_delta_encode` and of `netc_delta_decode`.
pub encode_byte : ℕ → ℕ → ℕ → ℕ
unfolding is_xor_class
encode_byte i prev curr = if is_xor_class i then bit_xor curr prev else u8 (curr + 256 - prev)

pub decode_byte : ℕ → ℕ → ℕ → ℕ
unfolding is_xor_class
decode_byte i prev residual = if is_xor_class i then bit_xor residual prev else u8 (residual + prev)

encode_from : ℕ → List ℕ → List ℕ → List ℕ
unfolding encode_byte
encode_from i (p ∷ prev) (c ∷ curr) = encode_byte i p c ∷ encode_from (i + 1) prev curr
encode_from i _ _ = []

decode_from : ℕ → List ℕ → List ℕ → List ℕ
unfolding decode_byte
decode_from i (p ∷ prev) (r ∷ residual) = decode_byte i p r ∷ decode_from (i + 1) prev residual
decode_from i _ _ = []

unfoldable pub encode : List ℕ → List ℕ → List ℕ
unfolding encode_from
encode prev curr = encode_from 0 prev curr

unfoldable pub decode : List ℕ → List ℕ → List ℕ
unfolding decode_from
decode prev residual = decode_from 0 prev residual

-- `(uint8_t)(2U * prev[i] - prev2[i])`; the product and the difference are `unsigned`.
pub predicted : ℕ → ℕ → ℕ
predicted prev2 prev = u8 (2 * prev + 2 ^ 32 - prev2)

encode_order2_from : ℕ → List ℕ → List ℕ → List ℕ → List ℕ
unfolding encode_byte predicted
encode_order2_from i (q ∷ prev2) (p ∷ prev) (c ∷ curr) =
    encode_byte i (predicted q p) c ∷ encode_order2_from (i + 1) prev2 prev curr
encode_order2_from i _ _ _ = []

decode_order2_from : ℕ → List ℕ → List ℕ → List ℕ → List ℕ
unfolding decode_byte predicted
decode_order2_from i (q ∷ prev2) (p ∷ prev) (r ∷ residual) =
    decode_byte i (predicted q p) r ∷ decode_order2_from (i + 1) prev2 prev residual
decode_order2_from i _ _ _ = []

unfoldable pub encode_order2 : List ℕ → List ℕ → List ℕ → List ℕ
unfolding encode_order2_from
encode_order2 prev2 prev curr = encode_order2_from 0 prev2 prev curr

unfoldable pub decode_order2 : List ℕ → List ℕ → List ℕ → List ℕ
unfolding decode_order2_from
decode_order2 prev2 prev residual = decode_order2_from 0 prev2 prev residual

-- The scalar bulk operations, whose class bounds are written out as numerals.
is_xor_generic : ℕ → Bool
is_xor_generic i = ltb i 16 || (leb 64 i && ltb i 256)

encode_generic_from : ℕ → List ℕ → List ℕ → List ℕ
unfolding is_xor_generic
encode_generic_from i (p ∷ prev) (c ∷ curr) =
    (if is_xor_generic i then bit_xor c p else u8 (c + 256 - p))
    ∷ encode_generic_from (i + 1) prev curr
encode_generic_from i _ _ = []

decode_generic_from : ℕ → List ℕ → List ℕ → List ℕ
unfolding is_xor_generic
decode_generic_from i (p ∷ prev) (r ∷ residual) =
    (if is_xor_generic i then bit_xor r p else u8 (r + p))
    ∷ decode_generic_from (i + 1) prev residual
decode_generic_from i _ _ = []

unfoldable pub encode_generic : List ℕ → List ℕ → List ℕ
unfolding encode_generic_from
encode_generic prev curr = encode_generic_from 0 prev curr

unfoldable pub decode_generic : List ℕ → List ℕ → List ℕ
unfolding decode_generic_from
decode_generic prev residual = decode_generic_from 0 prev residual
