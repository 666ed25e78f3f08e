-- ===== src/Lzp/Tests.antt =====
-- The predictor of src/algo/netc_lzp.h on a small packet.
use netc.Prelude.{
  ℕ, ◌<◌, ◌≡◌, refl, arith, List, [], ◌∷◌, ◌++◌, All, IsByte, length, replicate, some,
}
use netc.Lzp.{LzpTable, xor_filter, xor_unfilter, prediction, adaptive_update, predict, reconstruct}
use netc.Lzp.Filter.{IsTable, xor_unfilter-xor_filter}
use netc.Lzp.Sync.{IsEntry, adaptive_update-IsEntry}

-- Every slot predicts the byte 7.
abbrev sevens : LzpTable
sevens = λ slot. record { value = 7; valid = 4 }

abbrev packet : List ℕ
packet = 7 ∷ 9 ∷ 7 ∷ 255 ∷ []

sevens-IsTable : IsTable sevens
sevens-IsTable slot = omega arith

sevens-IsEntry : (slot : ℕ) → IsEntry (sevens slot)
sevens-IsEntry slot = omega arith

filtered : xor_filter sevens packet ≡ 0 ∷ 14 ∷ 0 ∷ 248 ∷ []
unfolding xor_filter prediction
filtered = refl

xor_unfilter-xor_filter_example :
    (xor_unfilter sevens (xor_filter sevens packet) ≡ packet)
    × All IsByte (xor_filter sevens packet)
    × (length (xor_filter sevens packet) ≡ 4)
xor_unfilter-xor_filter_example = xor_unfilter-xor_filter sevens packet sevens-IsTable (omega arith)

adaptive_update-IsEntry_example :
    IsEntry (adaptive_update sevens packet 5)
    × (0 < 4 → 0 < (adaptive_update sevens packet 5).valid)
adaptive_update-IsEntry_example =
    adaptive_update-IsEntry packet sevens 5 sevens-IsEntry (omega arith)

-- Three misses among twelve bytes: three literals after the header and two bytes of flags.
abbrev guessed : List ℕ
guessed = 7 ∷ 9 ∷ (replicate 7 7 ++ (1 ∷ 7 ∷ 2 ∷ []))

predicted_packet : predict sevens guessed 64 ≡ some (3 ∷ 0 ∷ 0xbf ∷ 0xa0 ∷ 9 ∷ 1 ∷ 2 ∷ [])
unfolding predict
predicted_packet = refl

reconstructed_packet : reconstruct sevens (3 ∷ 0 ∷ 0xbf ∷ 0xa0 ∷ 9 ∷ 1 ∷ 2 ∷ []) 12 ≡ some guessed
unfolding reconstruct
reconstructed_packet = refl
