-- ===== src/Tans/Buckets.antt =====
-- The byte-offset buckets and bigram classes of src/algo/netc_tans.h, and the table of bucket starts that
-- src/core/netc_compress.c and src/core/netc_decompress.c keep.
use netc.Prelude.{ℕ, ◌+◌, ◌≤◌, ◌<◌, ◌≡◌, refl, sym, arith, List, [], ◌∷◌, ◌++◌, Option, none, some}
use mathlib.Core.Path.{subst}
use native.Mathlib.Decide.{dec_lt}
use netc.Prelude.{
  Bool, true, ◌&&◌, ltb, leb, if◌then◌else◌, get_or, replicate, all_below, all_below_sound, ◌>>>◌,
}

abbrev bucket_lut : List ℕ
bucket_lut =
    replicate 8 0
    ++ (replicate 8 1
        ++ (replicate 8 2
            ++ (replicate 8 3
                ++ (replicate 16 4
                    ++ (replicate 16 5
                        ++ (replicate 32 6
                            ++ (replicate 32 7 ++ (replicate 64 8 ++ replicate 64 9))))))))

unfoldable pub near_bucket : ℕ → ℕ
near_bucket offset = get_or bucket_lut offset 0

unfoldable pub ctx_bucket : ℕ → ℕ
ctx_bucket offset =
    if ltb offset 256
    then near_bucket offset
    else if ltb offset 384
    then 10
    else if ltb offset 512
    then 11
    else if ltb offset 1024
    then 12
    else if ltb offset 4096
    then 13
    else if ltb offset 16384
    then 14
    else 15

-- `bucket_start_offset` and `decomp_bucket_start`.
abbrev starts : List ℕ
starts =
    0 ∷ 8 ∷ 16 ∷ 24 ∷ 32 ∷ 48 ∷ 64 ∷ 96 ∷ 128 ∷ 192 ∷ 256 ∷ 384 ∷ 512 ∷ 1024 ∷ 4096 ∷ 16384 ∷ []

unfoldable pub bucket_start_offset : ℕ → ℕ
bucket_start_offset b = if ltb b 16 then get_or starts b 0 else 65536

-- `netc_bigram_class`; `none` is a null `class_map`.
unfoldable pub bigram_class : ℕ → Option (ℕ → ℕ) → ℕ
bigram_class prev_byte (some class_map) = class_map prev_byte
bigram_class prev_byte none = prev_byte >>> 6

in_bucket : ℕ → Bool
in_bucket o =
    leb (bucket_start_offset (ctx_bucket o)) o
    && ltb o (bucket_start_offset (ctx_bucket o + 1))
    && ltb (ctx_bucket o) 16

lut_table : all_below 256 in_bucket ≡ true
unfolding in_bucket ctx_bucket near_bucket bucket_start_offset all_below
lut_table = refl

abbrev InBucket : ℕ → ℕ → Type 0
InBucket o b = (bucket_start_offset b ≤ o) × (o < bucket_start_offset (b + 1)) × (b < 16)

InBucket-at : (o b : ℕ) → ctx_bucket o ≡ b → InBucket o b → InBucket o (ctx_bucket o)
InBucket-at o b e h = subst (InBucket o) (sym e) h

above_lut : (o : ℕ) → 256 ≤ o → o < 65536 → InBucket o (ctx_bucket o)
unfolding ctx_bucket bucket_start_offset
above_lut o lo hi = elim (dec_lt o 384) [
  | yes a ↦ InBucket-at o 10 (ground arith) (omega arith)
  | no a ↦ elim (dec_lt o 512) [
    | yes b ↦ InBucket-at o 11 (ground arith) (omega arith)
    | no b ↦ elim (dec_lt o 1024) [
      | yes c ↦ InBucket-at o 12 (ground arith) (omega arith)
      | no c ↦ elim (dec_lt o 4096) [
        | yes d ↦ InBucket-at o 13 (ground arith) (omega arith)
        | no d ↦ elim (dec_lt o 16384) [
          | yes e ↦ InBucket-at o 14 (ground arith) (omega arith)
          | no e ↦ InBucket-at o 15 (ground arith) (omega arith)
        ]
      ]
    ]
  ]
]

-- Every offset of a packet lies in its bucket: at or above the bucket's start and below the next
-- bucket's, and there are 16 buckets.
pub ctx_bucket_bounds :
    (o : ℕ)
    → o < 65536
    → (bucket_start_offset (ctx_bucket o) ≤ o)
      × (o < bucket_start_offset (ctx_bucket o + 1))
      × (ctx_bucket o < 16)
ctx_bucket_bounds o h = elim (dec_lt o 256) [
  | yes low ↦ unfold in_bucket in ground (arith, all_below_sound 256 in_bucket o lut_table low)
  | no high ↦ above_lut o (omega arith) h
]

pub ctx_bucket-lt : (o : ℕ) → ctx_bucket o < 16
unfolding ctx_bucket
ctx_bucket-lt o = elim (dec_lt o 65536) [
  | yes low ↦ (ctx_bucket_bounds o low).2
  | no high ↦ ground arith
]
