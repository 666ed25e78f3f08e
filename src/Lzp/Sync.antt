-- ===== src/Lzp/Sync.antt =====
-- The table under the adaptive update of src/algo/netc_lzp.h.
use netc.Prelude.{ℕ, ◌+◌, ◌<◌, arith, List, [], ◌∷◌, All, IsByte}
use netc.Prelude.{◌==◌, if◌then◌else◌, u32}
use netc.Lzp.{LzpTable, LzpEntry, lzp_hash, learn, adaptive_update, adaptive_update_from}

-- Both fields are bytes.
abbrev pub IsEntry : LzpEntry → Type 0
IsEntry e = IsByte e.value × IsByte e.valid

learn-IsEntry :
    (e : LzpEntry) (byte : ℕ)
    → IsEntry e
    → IsByte byte
    → IsEntry (learn e byte) × (0 < (learn e byte).valid)
unfolding learn
learn-IsEntry e byte h hb = ground (arith, h)

update_from-IsEntry :
    (bytes : List ℕ) (t : LzpTable) (i prev : ℕ)
    → ((slot : ℕ) → IsEntry (t slot))
    → All IsByte bytes
    → (slot : ℕ)
    → IsEntry (adaptive_update_from t i prev bytes slot)
      × (0 < (t slot).valid → 0 < (adaptive_update_from t i prev bytes slot).valid)
unfolding adaptive_update_from
update_from-IsEntry [] t i prev h hb slot = (h slot, λ k. k)
update_from-IsEntry (byte ∷ bytes) t i prev h hb slot =
    let target = lzp_hash prev (u32 i) in
    let step : (s : ℕ)
        → IsEntry (if target == s then learn (t target) byte else t s)
          × (0 < (t s).valid → 0 < (if target == s then learn (t target) byte else t s).valid) =
      λ s. learned s in
    let (entry, kept) =
      update_from-IsEntry bytes (λ s. if target == s then learn (t target) byte else t s) (i + 1)
        byte (λ s. (step s).0) hb.1 slot in
    (entry, λ k. kept ((step slot).1 k))
  where
    learned :
        (s : ℕ)
        → IsEntry
            (if lzp_hash prev (u32 i) == s then learn (t (lzp_hash prev (u32 i))) byte else t s)
          × (0 < (t s).valid
              → 0
                < (if lzp_hash prev (u32 i) == s
                    then learn (t (lzp_hash prev (u32 i))) byte
                    else t s).valid)
    learned s =
        let new = learn-IsEntry (t (lzp_hash prev (u32 i))) byte (h _) hb.0 in
        ground (arith, h s, new)

-- An update with bytes keeps both fields of every slot bytes, so that the confidence does not wrap, and a slot
-- that holds a prediction never becomes empty.
pub adaptive_update-IsEntry :
    (bytes : List ℕ) (t : LzpTable) (slot : ℕ)
    → ((slot : ℕ) → IsEntry (t slot))
    → All IsByte bytes
    → IsEntry (adaptive_update t bytes slot)
      × (0 < (t slot).valid → 0 < (adaptive_update t bytes slot).valid)
unfolding adaptive_update
adaptive_update-IsEntry bytes t slot h hb = update_from-IsEntry bytes t 0 0 h hb slot
