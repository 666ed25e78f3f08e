-- ===== src/Tans/Tests.antt =====
-- The tANS codec of src/algo/netc_tans.c on concrete frequency tables and bytes.
use netc.Prelude.{ℕ, zero, suc, ◌+◌, ◌<◌, ◌≤◌, ◌≡◌, refl, arith, List, [], ◌∷◌, All}
use netc.Prelude.{◌==◌, if◌then◌else◌, none, some, inl, inr, ◌⊎◌, false}
use netc.Tans.Params.{params_12, params_10}
use netc.Tans.Table.{Table, build, encode_entry, empty_decode, empty_encode, floor_log2_u32}
use netc.Tans.Spread.{below}
use netc.Tans.Log.{IsLog, floor_log2_u32-IsLog}
use netc.Tans.Built.{
  IsNormalized, IsBuilt, built_table, build-eq-some, build-IsBuilt, build-eq-none,
}
use netc.Tans.Buckets.{bigram_class, ctx_bucket, ctx_bucket_bounds, bucket_start_offset}
use netc.Tans.Codec.{encode, decode, encode_10, decode_10, encode_pctx, decode_pctx, bigram_table}
use netc.Tans.Codec.{encode_pctx_bigram, decode_pctx_bigram}
use netc.Bitstream.Writer.{Writer}
use netc.Bitstream.Writer
use netc.Bitstream.Reader
use netc.Bitstream.Reader.{done}
use netc.Tans.Dual.{encode_x2, decode_x2}
use netc.Tans.Odd.{decode_x2-swaps}
use netc.Tans.DualTrip.{decode_x2-encode_x2}
use netc.Tans.Loops.{AllAt}
use netc.Tans.RoundTrip.{IsTable, IsCodable, RoundTrips, encode-RoundTrips, encode_10-RoundTrips}
use netc.Tans.PerContext.{HasClass, encode_pctx-RoundTrips, encode_pctx_bigram-RoundTrips}

-- Frequencies with few and many bits, for the letters A, B and C.
abbrev freq_12 : ℕ → ℕ
freq_12 s = if s == 0x41 then 3000 else if s == 0x42 then 1095 else if s == 0x43 then 1 else 0

abbrev freq_10 : ℕ → ℕ
freq_10 s = if s == 0x41 then 1000 else if s == 0x42 then 20 else if s == 0x43 then 4 else 0

freq_12-IsNormalized : IsNormalized params_12 freq_12
unfolding below
freq_12-IsNormalized = record { words = λ s. ground arith; sums = refl }

freq_10-IsNormalized : IsNormalized params_10 freq_10
unfolding below
freq_10-IsNormalized = record { words = λ s. ground arith; sums = refl }

abbrev table_12 : Table
table_12 = built_table params_12 freq_12

abbrev table_10 : Table
table_10 = built_table params_10 freq_10

table_12-IsTable : IsTable params_12 table_12
table_12-IsTable =
    (freq_12, freq_12-IsNormalized, build-eq-some params_12 freq_12 freq_12-IsNormalized)

table_10-IsTable : IsTable params_10 table_10
table_10-IsTable =
    (freq_10, freq_10-IsNormalized, build-eq-some params_10 freq_10 freq_10-IsNormalized)

abbrev letters : List ℕ
letters = 0x41 ∷ 0x42 ∷ 0x43 ∷ 0x41 ∷ 0x41 ∷ []

letters_10 : All (IsCodable table_10) letters
unfolding encode_entry
letters_10 = omega arith

letters_12 : All (IsCodable table_12) letters
unfolding encode_entry
letters_12 = omega arith

encode-RoundTrips_example :
    RoundTrips params_12
      (λ w. encode table_12 letters w 4096)
      (λ r state. decode table_12 r 5 state)
      letters
      64
encode-RoundTrips_example =
    encode-RoundTrips table_12 letters 4096 64 table_12-IsTable (omega arith) letters_12
      (omega arith) (omega arith)

encode_10-RoundTrips_example :
    RoundTrips params_10
      (λ w. encode_10 table_10 letters w 1024)
      (λ r state. decode_10 table_10 r 5 state)
      letters
      64
encode_10-RoundTrips_example =
    encode_10-RoundTrips table_10 letters 1024 64 table_10-IsTable (omega arith) letters_10
      (omega arith) (omega arith)

encode_pctx-RoundTrips_example :
    RoundTrips params_12
      (λ w. encode_pctx (λ b. table_12) letters w 4096)
      (λ r state. decode_pctx (λ b. table_12) r 5 state)
      letters
      64
encode_pctx-RoundTrips_example =
    encode_pctx-RoundTrips (λ b. table_12) letters 4096 64 (λ b h. table_12-IsTable) (omega arith)
      letters_12 (omega arith) (omega arith)

-- The tables of the first class are built, the others are not valid.
abbrev no_table : Table
no_table = record {
  decode = λ _. empty_decode;
  encode_state = λ _. 0;
  encode = λ _. empty_encode;
  freq = λ _. 0;
  valid = false;
}

abbrev first_class : ℕ → ℕ → Table
first_class b zero = table_12
first_class b (suc c) = no_table

first_class-good :
    (b c : ℕ) → b < 16 → ((first_class b c).valid ≡ false) ⊎ IsTable params_12 (first_class b c)
first_class-good b zero h = inr table_12-IsTable
first_class-good b (suc c) h = inl refl

letters_mixed : AllAt (HasClass first_class (λ b. table_12) none) 0 0 letters
unfolding bigram_table bigram_class encode_entry
letters_mixed = omega arith

encode_pctx_bigram-RoundTrips_example :
    RoundTrips params_12
      (λ w. encode_pctx_bigram first_class (λ b. table_12) none letters w 4096)
      (λ r state. decode_pctx_bigram first_class (λ b. table_12) none r 5 state)
      letters
      64
encode_pctx_bigram-RoundTrips_example =
    encode_pctx_bigram-RoundTrips first_class (λ b. table_12) none letters 4096 64 first_class-good
      (λ b h. table_12-IsTable) (omega arith) letters_mixed (omega arith) (omega arith)

build-IsBuilt_example :
    (t : Table) × (build params_12 freq_12 ≡ some t) × IsBuilt params_12 freq_12 t
build-IsBuilt_example = build-IsBuilt params_12 freq_12 freq_12-IsNormalized

-- The 10-bit frequencies do not fill the 12-bit table.
few-ne : below freq_10 256 ≡ 4096 → ⊥
unfolding below
few-ne e = omega arith

build-eq-none_example : build params_12 freq_10 ≡ none
build-eq-none_example = build-eq-none params_12 freq_10 freq_10-IsNormalized.words few-ne

ctx_bucket_bounds_example :
    (bucket_start_offset (ctx_bucket 4095) ≤ 4095)
    × (4095 < bucket_start_offset (ctx_bucket 4095 + 1))
    × (ctx_bucket 4095 < 16)
ctx_bucket_bounds_example = ctx_bucket_bounds 4095 (omega arith)

floor_log2_u32-IsLog_example : IsLog 1095 (floor_log2_u32 1095)
floor_log2_u32-IsLog_example = floor_log2_u32-IsLog 1095 (omega arith) (omega arith)

pair_12 : All (IsCodable table_12) (0x41 ∷ 0x43 ∷ [])
unfolding encode_entry
pair_12 = omega arith

decode_x2-encode_x2_example :
    (state0 : ℕ) × (state1 : ℕ) × (w : Writer) × (w' : Writer) × (encode_x2 table_12
        (0x41 ∷ 0x43 ∷ [])
        (Writer.init 16)
      ≡ done (state0, state1, w))
    × (Writer.flush w ≡ some w')
    × (decode_x2 table_12 (Reader.init w'.out) 2 state0 state1 ≡ done (0x41 ∷ 0x43 ∷ []))
decode_x2-encode_x2_example =
    decode_x2-encode_x2 table_12 1 16 (0x41 ∷ 0x43 ∷ []) table_12-IsTable (omega arith) refl pair_12
      (omega arith)

decode_x2-swaps_example :
    (state0 : ℕ) × (state1 : ℕ) × (w : Writer) × (w' : Writer) × (encode_x2 table_12
        (0x41 ∷ 0x42 ∷ 0x43 ∷ [])
        (Writer.init 16)
      ≡ done (state0, state1, w))
    × (Writer.flush w ≡ some w')
    × (decode_x2 table_12 (Reader.init w'.out) 3 state0 state1 ≡ done (0x41 ∷ 0x43 ∷ 0x42 ∷ []))
decode_x2-swaps_example =
    decode_x2-swaps table_12 0x41 0x42 0x43 16 table_12-IsTable letters_12.0 letters_12.1.0
      letters_12.1.1.0 (omega arith)
