-- ===== src/Header/Types.antt =====
-- The packet types of src/core/netc_internal.h: one byte for the flags, the algorithm and the bucket.
use netc.Prelude.{ℕ, zero, suc, ◌+◌, ◌*◌, ◌<◌, ◌≡◌, refl, List, [], ◌∷◌, ◌++◌, Bool, true}
use netc.Prelude.{
  ◌&&◌, ◌||◌, not, ◌==◌, ◌!=◌, if◌then◌else◌, u8, ◌>>>◌, bit_and, get_or, replicate, arith,
}
use netc.Prelude.{all_below, all_below_sound}

-- `NETC_PKT_FLAG_*`.
abbrev pub flag_delta : ℕ
flag_delta = 0x01

abbrev pub flag_bigram : ℕ
flag_bigram = 0x02

abbrev pub flag_passthru : ℕ
flag_passthru = 0x04

abbrev pub flag_dict_id : ℕ
flag_dict_id = 0x08

abbrev pub flag_mreg : ℕ
flag_mreg = 0x10

abbrev pub flag_rle : ℕ
flag_rle = 0x20

abbrev pub flag_x2 : ℕ
flag_x2 = 0x40

abbrev pub flag_lz77 : ℕ
flag_lz77 = 0x80

-- `NETC_ALG_*`.
abbrev pub alg_tans : ℕ
alg_tans = 0x01

abbrev pub alg_lz77x : ℕ
alg_lz77x = 0x03

abbrev pub alg_tans_pctx : ℕ
alg_tans_pctx = 0x04

abbrev pub alg_lzp : ℕ
alg_lzp = 0x05

abbrev pub alg_tans_10 : ℕ
alg_tans_10 = 0x06

abbrev pub alg_passthru : ℕ
alg_passthru = 0xff

-- The 16 entries of an algorithm with a bucket. Distinct bits are summed where the code has `|`.
abbrev buckets : ℕ → ℕ → List (ℕ × ℕ)
buckets flags alg = from 0 16
  where
    from : ℕ → ℕ → List (ℕ × ℕ)
    from b zero = []
    from b (suc left) = (flags + flag_dict_id, alg + b * 16) ∷ from (b + 1) left

abbrev first_types : List (ℕ × ℕ)
first_types =
    (flag_passthru + flag_dict_id, alg_passthru)
    ∷ (flag_passthru + flag_lz77 + flag_dict_id, alg_passthru)
    ∷ (flag_passthru + flag_lz77 + flag_delta + flag_dict_id, alg_passthru)
    ∷ (flag_passthru + flag_rle + flag_dict_id, alg_passthru)
    ∷ (flag_dict_id, alg_tans_pctx)
    ∷ (flag_delta + flag_dict_id, alg_tans_pctx)
    ∷ (flag_dict_id, alg_tans_pctx + 0x10)
    ∷ (flag_delta + flag_dict_id, alg_tans_pctx + 0x10)
    ∷ (flag_mreg + flag_dict_id, alg_tans)
    ∷ (flag_mreg + flag_delta + flag_dict_id, alg_tans)
    ∷ (flag_mreg + flag_x2 + flag_dict_id, alg_tans)
    ∷ (flag_mreg + flag_x2 + flag_delta + flag_dict_id, alg_tans)
    ∷ (flag_mreg + flag_bigram + flag_dict_id, alg_tans)
    ∷ (flag_mreg + flag_bigram + flag_delta + flag_dict_id, alg_tans)
    ∷ (flag_dict_id, alg_lz77x)
    ∷ (0, 0)
    ∷ []

abbrev last_types : List (ℕ × ℕ)
last_types =
    (flag_bigram + flag_dict_id, alg_tans_pctx)
    ∷ (flag_bigram + flag_delta + flag_dict_id, alg_tans_pctx)
    ∷ (flag_bigram + flag_dict_id, alg_tans_pctx + 0x10)
    ∷ (flag_bigram + flag_delta + flag_dict_id, alg_tans_pctx + 0x10)
    ∷ (flag_delta + flag_rle + flag_dict_id, alg_tans_pctx)
    ∷ (flag_delta + flag_rle + flag_dict_id, alg_tans_pctx + 0x10)
    ∷ (flag_bigram + flag_delta + flag_rle + flag_dict_id, alg_tans_pctx)
    ∷ (flag_bigram + flag_delta + flag_rle + flag_dict_id, alg_tans_pctx + 0x10)
    ∷ []

-- `netc_pkt_type_table`: flags and algorithm of each type.
unfoldable pub pkt_type_table : ℕ → ℕ × ℕ
pkt_type_table pkt_type = get_or entries pkt_type (0, 0)
  where
    entries : List (ℕ × ℕ)
    entries =
        first_types
        ++ (buckets 0 alg_tans
            ++ (buckets flag_delta alg_tans
                ++ (buckets flag_bigram alg_tans
                    ++ (buckets (flag_bigram + flag_delta) alg_tans
                        ++ (buckets flag_x2 alg_tans
                            ++ (buckets (flag_x2 + flag_delta) alg_tans
                                ++ (buckets 0 alg_lzp
                                    ++ (buckets flag_delta alg_lzp
                                        ++ (buckets flag_bigram alg_lzp
                                            ++ (buckets (flag_bigram + flag_delta) alg_lzp
                                                ++ (buckets 0 alg_tans_10
                                                    ++ (buckets flag_delta alg_tans_10
                                                        ++ (last_types
                                                            ++ (replicate 39 (0, 0)
                                                            ++ ((0xff, 0xff) ∷ [])))))))))))))))

-- `netc_compact_type_encode`; 0xff is no type.
unfoldable pub compact_type_encode : ℕ → ℕ → ℕ
compact_type_encode flags algorithm =
    let alg_lo = bit_and algorithm 0x0f in
    let bucket = bit_and (algorithm >>> 4) 0x0f in
    let delta = (if bit_and flags flag_delta != 0 then 1 else 0) in
    let bigram = (if bit_and flags flag_bigram != 0 then 1 else 0) in
    let x2 = (if bit_and flags flag_x2 != 0 then 1 else 0) in
    let lzp = (if bucket != 0 then 1 else 0) in
    let tans_base =
      (if bigram != 0 && delta != 0
        then 0x40
        else if bigram != 0
        then 0x30
        else if x2 != 0 && delta != 0
        then 0x60
        else if x2 != 0
        then 0x50
        else if delta != 0
        then 0x20
        else 0x10) in
    let lzp_base =
      (if bigram != 0 && delta != 0
        then 0xa0
        else if bigram != 0
        then 0x90
        else if delta != 0
        then 0x80
        else 0x70) in
    if bit_and flags flag_passthru != 0
    then (if bit_and flags flag_lz77 != 0
        then u8 (0x01 + delta)
        else if bit_and flags flag_rle != 0
        then 0x03
        else 0x00)
    else if alg_lo == alg_tans_pctx
    then (if bit_and flags flag_rle != 0
        then u8 (0xd4 + lzp + bigram * 2)
        else if bigram != 0
        then u8 (0xd0 + delta + lzp * 2)
        else u8 (0x04 + delta + lzp * 2))
    else if alg_lo == alg_lz77x
    then 0x0e
    else if bit_and flags flag_mreg != 0
    then (if bigram != 0
        then u8 (0x0c + delta)
        else if x2 != 0
        then u8 (0x0a + delta)
        else u8 (0x08 + delta))
    else if alg_lo == alg_tans
    then u8 (tans_base + bucket)
    else if alg_lo == alg_lzp
    then u8 (lzp_base + bucket)
    else if alg_lo == alg_tans_10
    then u8 ((if delta != 0 then 0xc0 else 0xb0) + bucket)
    else 0xff

-- The types that a reader of a compact header accepts.
abbrev pub is_type : ℕ → Bool
is_type b = not (b == 0xff) && not ((pkt_type_table b).0 == 0 && (pkt_type_table b).1 == 0)

same_type : ℕ → Bool
same_type b = not (is_type b) || compact_type_encode (pkt_type_table b).0 (pkt_type_table b).1 == b

types_checked : all_below 256 same_type ≡ true
unfolding same_type pkt_type_table compact_type_encode all_below
types_checked = refl

-- The flags and the algorithm that a reader gets for a packet type are encoded as that type again,
-- for every type that a reader accepts.
pub compact_type_encode-pkt_type_table :
    (b : ℕ)
    → b < 256
    → is_type b ≡ true
    → compact_type_encode (pkt_type_table b).0 (pkt_type_table b).1 ≡ b
unfolding same_type
compact_type_encode-pkt_type_table b h t =
    ground (arith, t, all_below_sound 256 same_type b types_checked h)
