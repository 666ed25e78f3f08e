-- ===== src/Lz77x/Tests.antt =====
-- `lz77x_encode` of src/core/netc_compress.c on a packet that repeats bytes of the ring.
use netc.Prelude.{◌≡◌, ◌<◌, ◌≤◌, refl, arith, [], ◌∷◌, List, ℕ, length, some}
use netc.Result.{ok}
use netc.Lz77x.{lz77x_encode, lz77x_decode}
use netc.Lz77x.RoundTrip.{lz77x_decode-lz77x_encode}

abbrev ring : List ℕ
ring = 5 ∷ 6 ∷ 7 ∷ 8 ∷ 9 ∷ 4 ∷ 0 ∷ 0 ∷ []

abbrev src : List ℕ
src = 3 ∷ 5 ∷ 6 ∷ 7 ∷ 8 ∷ 9 ∷ 4 ∷ 3 ∷ 3 ∷ 3 ∷ 3 ∷ 3 ∷ []

abbrev stream : List ℕ
stream = 0 ∷ 3 ∷ 0xc3 ∷ 5 ∷ 0 ∷ 0 ∷ 3 ∷ 0x81 ∷ 0 ∷ []

encoded : lz77x_encode src ring 6 6 100 ≡ some stream
unfolding lz77x_encode
encoded = refl

decoded : lz77x_decode stream 12 ring 6 ≡ ok src
unfolding lz77x_decode
decoded = refl

lz77x_decode-lz77x_encode_example :
    (lz77x_decode stream 12 ring 6 ≡ ok src) × (length stream ≤ 100) × (length stream < 12)
unfolding lz77x_encode
lz77x_decode-lz77x_encode_example =
    lz77x_decode-lz77x_encode src ring 6 6 100 stream (omega arith) refl
