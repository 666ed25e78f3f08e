-- ===== src/Rle/Tests.antt =====
-- Run-length coding of src/core/netc_compress.c on a run longer than one count.
use netc.Prelude.{ℕ, ◌≡◌, refl, arith, List, [], ◌∷◌, ◌++◌, none, some, replicate}
use netc.Result.{ok, err, corrupt}
use netc.Rle.{run_from, rle_encode, rle_decode}
use netc.Rle.RoundTrip.{rle_decode-rle_encode}

abbrev runs : List ℕ
runs = replicate 300 7 ++ (8 ∷ [])

encoded : rle_encode runs 10 ≡ some (255 ∷ 7 ∷ 45 ∷ 7 ∷ 1 ∷ 8 ∷ [])
unfolding rle_encode run_from
encoded = refl

no_room : rle_encode runs 5 ≡ none
unfolding rle_encode run_from
no_room = refl

empty_run : rle_decode (0 ∷ 7 ∷ []) 0 ≡ err corrupt
unfolding rle_decode
empty_run = refl

rle_decode-rle_encode_example :
    (bytes : List ℕ) × (rle_encode runs 602 ≡ some bytes) × (rle_decode bytes 301 ≡ ok runs)
rle_decode-rle_encode_example = rle_decode-rle_encode runs 602 (omega arith)
