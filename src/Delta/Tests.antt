-- ===== src/Delta/Tests.antt =====
-- The delta codec of src/algo/netc_delta.h on concrete packets.
use netc.Prelude.{ℕ, ◌≡◌, refl, List, [], ◌∷◌, arith, ◌++◌, replicate}
use netc.Delta.{encode, decode, encode_order2, decode_order2, encode_generic, decode_generic}
use netc.Delta.RoundTrip.{decode-encode, decode_order2-encode_order2, generic-eq-scalar}

-- Bytes on both sides of the boundary at offset 16.
abbrev old_packet : List ℕ
old_packet = replicate 15 0x5a ++ (0x0f ∷ 200 ∷ 1 ∷ [])

abbrev new_packet : List ℕ
new_packet = replicate 15 0x5b ++ (0xf0 ∷ 199 ∷ 3 ∷ [])

encode_packet : encode old_packet new_packet ≡ replicate 15 1 ++ (0xff ∷ 255 ∷ 2 ∷ [])
unfolding encode
encode_packet = refl

decode-encode_example : decode old_packet (encode old_packet new_packet) ≡ new_packet
decode-encode_example = decode-encode old_packet new_packet refl (omega arith) (omega arith)

decode_order2-encode_order2_example :
    decode_order2 old_packet new_packet (encode_order2 old_packet new_packet new_packet)
    ≡ new_packet
decode_order2-encode_order2_example =
    decode_order2-encode_order2 old_packet new_packet new_packet refl refl (omega arith)

generic-eq-scalar_example :
    (encode_generic old_packet new_packet ≡ encode old_packet new_packet)
    × (decode_generic old_packet new_packet ≡ decode old_packet new_packet)
generic-eq-scalar_example = generic-eq-scalar old_packet new_packet
