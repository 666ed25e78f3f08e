-- ===== src/Lzp/Filter.antt =====
-- The exclusive-or filter of src/algo/netc_lzp.h and its inverse.
use netc.Prelude.{ℕ, ◌+◌, ◌≡◌, refl, ap, arith, List, [], ◌∷◌, All, IsByte, length}
use netc.Prelude.{bit_xor, bit_xor-lt, bit_xor_cancel, u32}
use netc.Lzp.{
  LzpTable, lzp_hash, prediction, xor_filter, xor_filter_from, xor_unfilter, xor_unfilter_from,
}

-- Every slot predicts a byte.
abbrev pub IsTable : LzpTable → Type 0
IsTable lzp_table = (slot : ℕ) → IsByte (lzp_table slot).value

prediction-IsByte : (t : LzpTable) (prev i : ℕ) → IsTable t → IsByte (prediction t prev i)
unfolding prediction
prediction-IsByte t prev i h = ground (arith, h (lzp_hash prev (u32 i)))

filter_from-lem :
    (t : LzpTable) (src : List ℕ) (i prev : ℕ)
    → IsTable t
    → All IsByte src
    → (xor_unfilter_from t i prev (xor_filter_from t i prev src) ≡ src)
      × All IsByte (xor_filter_from t i prev src)
      × (length (xor_filter_from t i prev src) ≡ length src)
unfolding xor_filter_from xor_unfilter_from
filter_from-lem t [] i prev h hs = (refl, hs, refl)
filter_from-lem t (byte ∷ src) i prev h hs =
    let p = prediction t prev i in
    let hp = prediction-IsByte t prev i h in
    let back : bit_xor (bit_xor byte p) p ≡ byte = bit_xor_cancel 8 byte p hs.0 hp in
    let (rest, bytes, size) = filter_from-lem t src (i + 1) byte h hs.1 in
    (rw back (ap (λ xs. byte ∷ xs) rest), (bit_xor-lt 8 byte p hs.0 hp, bytes), omega (arith, size))

-- With the same table of predicted bytes, the filtered packet has as many bytes as the packet, and the
-- inverse filter gives the packet back.
pub xor_unfilter-xor_filter :
    (t : LzpTable) (src : List ℕ)
    → IsTable t
    → All IsByte src
    → (xor_unfilter t (xor_filter t src) ≡ src)
      × All IsByte (xor_filter t src)
      × (length (xor_filter t src) ≡ length src)
unfolding xor_filter xor_unfilter
xor_unfilter-xor_filter t src h hs = filter_from-lem t src 0 0 h hs
