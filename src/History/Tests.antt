-- ===== src/History/Tests.antt =====
-- The circular history of src/core/netc_compress.c with a ring of five bytes.
use netc.Prelude.{◌≡◌, refl, arith, [], ◌∷◌, length}
use netc.History.{Ring, ring_append}
use netc.History.Moves.{IsRing, oldest_first}
use netc.History.Append.{ring_append-oldest_first}

abbrev five : Ring
five = record { ring = 5 ∷ 1 ∷ 2 ∷ 3 ∷ 4 ∷ []; ring_pos = 1 }

wrapping :
    ring_append (record { ring = 5 ∷ 1 ∷ 2 ∷ 3 ∷ 4 ∷ []; ring_pos = 3 }) (7 ∷ 8 ∷ 9 ∷ [])
    ≡ record { ring = 9 ∷ 1 ∷ 2 ∷ 7 ∷ 8 ∷ []; ring_pos = 1 }
unfolding ring_append
wrapping = refl

no_ring :
    ring_append (record { ring = []; ring_pos = 0 }) (7 ∷ []) ≡ record { ring = []; ring_pos = 0 }
unfolding ring_append
no_ring = refl

ring_append-oldest_first_example :
    IsRing (ring_append five (6 ∷ 7 ∷ []))
    × (length (ring_append five (6 ∷ 7 ∷ [])).ring ≡ 5)
    × (oldest_first (ring_append five (6 ∷ 7 ∷ [])) ≡ 3 ∷ 4 ∷ 5 ∷ 6 ∷ 7 ∷ [])
ring_append-oldest_first_example = ring_append-oldest_first five (6 ∷ 7 ∷ []) (omega arith)
