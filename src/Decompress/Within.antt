-- ===== src/Decompress/Within.antt =====
-- `netc_decompress` of src/core/netc_decompress.c on any packet, well-formed or not.
use netc.Prelude.{ℕ, ◌+◌, ◌≤◌, ◌≡◌, refl, arith, List, [], ◌∷◌}
use netc.Prelude.{Bool, true, false, Option, none, some}
use netc.Prelude.{ltb, ◌==◌, if◌then◌else◌, length, take, drop, length-take}
use netc.Result.{
  Result, ok, err, Error, corrupt, ◌>>=◌, dict_invalid, unsupported, version, buf_small,
}
use netc.Tans.Table.{Table}
use netc.Delta.RoundTrip.{length-decode, length-decode_order2}
use netc.Lzp.{LzpTable, xor_unfilter, xor_unfilter_from}
use netc.Header.Types.{alg_tans, alg_tans_pctx, alg_lzp}
use netc.Header.Wire.{PktHeader, validate_header, hdr_read_compact, hdr_read, compact_form}
use netc.Context.{Dict, Ctx, has, cfg_compact_hdr, get_tables, get_lzp_table}
use netc.Payload.Decode.{decode_tans, decode_contexts}
use netc.Payload.Within.{tans-Sized, contexts-Sized, tans_10-Sized}
use mathlib.Core.Path.{subst}
use netc.Prelude.{sym, ap, ◌∙◌, refl, Bool-cases, Option-cases, inl, inr, if-true, if-false, drop}
use netc.Result.{is_undefined}
use netc.Decompress.Clean.{
  Clean, err-Clean, either-Clean, rle_decode-Clean, lz77_decode-Clean, lz77x_decode-Clean,
}
use netc.Decompress.Sizes.{
  Sized, err-Sized, ok-Sized, either-Sized, map-Sized, rle_decode-Sized, lz77_decode-Sized,
  lz77x_decode-Sized,
}
use netc.Decompress.{
  blank, model_of, unfiltered, unfiltered_contexts, undo_second, undo_delta, delta_postpass,
  algorithm_of, decode_passthru, decode_coded, decode_payload, restored, accept, wrong_model,
  finish, decompress_packet, after_header, decompress, with_lzp, with_dict,
}

length-xor_unfilter_from :
    (t : LzpTable) (i prev : ℕ) (xs : List ℕ) → length (xor_unfilter_from t i prev xs) ≤ length xs
unfolding xor_unfilter_from
length-xor_unfilter_from t i prev [] = omega arith
length-xor_unfilter_from t i prev (x ∷ xs) = omega (arith, length-xor_unfilter_from t (i + 1) _ xs)

length-xor_unfilter : (t : LzpTable) (xs : List ℕ) → length (xor_unfilter t xs) ≤ length xs
unfolding xor_unfilter
length-xor_unfilter t xs = length-xor_unfilter_from t 0 0 xs

length-unfiltered : (t : Option LzpTable) (xs : List ℕ) → length (unfiltered t xs) ≤ length xs
length-unfiltered none xs = omega arith
length-unfiltered (some t) xs = length-xor_unfilter t xs

length-unfiltered_contexts :
    (h : PktHeader) (t : Option LzpTable) (xs : List ℕ)
    → length (unfiltered_contexts h t xs) ≤ length xs
length-unfiltered_contexts h t xs = ground (arith, length-unfiltered t xs)

length-undo_second :
    (flags : ℕ) (prev : List ℕ) (prev2 : Option (List ℕ)) (xs : List ℕ)
    → length (undo_second flags prev prev2 xs) ≤ length xs
length-undo_second flags prev none xs = length-decode prev xs
length-undo_second flags prev (some prev2) xs =
    ground (arith, length-decode prev xs, length-decode_order2 prev2 prev xs)

length-undo_delta :
    (flags : ℕ) (prev prev2 : Option (List ℕ)) (xs : List ℕ)
    → length (undo_delta flags prev prev2 xs) ≤ length xs
length-undo_delta flags none prev2 xs = omega arith
length-undo_delta flags (some prev) prev2 xs =
    ground (arith, length-undo_second flags prev prev2 xs)

length-restored : (c : Ctx) (h : PktHeader) (xs : List ℕ) → length (restored c h xs) ≤ length xs
unfolding restored delta_postpass
length-restored c h xs = ground (arith, length-undo_delta h.flags c.prev_pkt c.prev2_pkt xs)

pub passthru-Sized :
    (h : PktHeader) (payload : List ℕ) → Sized h.original_size (decode_passthru h payload)
unfolding decode_passthru
passthru-Sized h payload =
    let n = h.original_size in
    let lz = lz77_decode-Sized payload n in
    let rle = rle_decode-Sized payload n in
    let bad = err-Sized n corrupt in
    let plain = ok-Sized n (take n payload) (omega (arith, length-take n payload)) in ground arith

with_lzp-Sized :
    (n : ℕ) (lzp : Option LzpTable) (run : LzpTable → Result (List ℕ))
    → ((t : LzpTable) → Sized n (run t))
    → Sized n (with_lzp lzp run)
with_lzp-Sized n none run h = err-Sized n dict_invalid
with_lzp-Sized n (some t) run h = h t

pub coded-Sized :
    (d : Dict) (tables : ℕ → Table) (lzp : Option LzpTable) (h : PktHeader) (payload dst : List ℕ)
    (compact : Bool)
    → Sized h.original_size (decode_coded d tables lzp h payload dst compact)
unfolding decode_coded
coded-Sized d tables lzp h payload dst compact =
    let n = h.original_size in
    let alg = algorithm_of h.algorithm in
    let tans = tans-Sized d tables h payload dst compact in
    let filtered =
      with_lzp-Sized n lzp
        (λ t. decode_tans d tables h payload dst compact >>= λ bytes. ok (xor_unfilter t bytes))
        (λ t.
          map-Sized n n (decode_tans d tables h payload dst compact) (xor_unfilter t) tans
            (λ bytes it. omega (arith, length-xor_unfilter t bytes))) in
    let contexts =
      map-Sized n n (decode_contexts d tables h payload compact) (unfiltered_contexts h lzp)
        (contexts-Sized d tables h payload compact)
        (λ bytes it. omega (arith, length-unfiltered_contexts h lzp bytes)) in
    either-Sized n (alg == alg_tans) _ _ (λ _. tans)
      (λ _.
        either-Sized n (alg == alg_tans_pctx) _ _ (λ _. contexts)
          (λ _.
            either-Sized n (alg == alg_lzp) _ _ (λ _. filtered)
              (λ _. tans_10-Sized d tables h payload)))

with_dict-Sized :
    (c : Ctx) (dict : Option Dict) (h : PktHeader) (payload dst : List ℕ) (compact : Bool)
    → Sized h.original_size (with_dict c h payload dst compact dict)
with_dict-Sized c none h payload dst compact = err-Sized h.original_size dict_invalid
with_dict-Sized c (some d) h payload dst compact =
    coded-Sized d (get_tables c d) (get_lzp_table c) h payload dst compact

payload-Sized :
    (c : Ctx) (h : PktHeader) (payload dst : List ℕ) (compact : Bool)
    → Sized h.original_size (decode_payload c h payload dst compact)
unfolding decode_payload
payload-Sized c h payload dst compact =
    let n = h.original_size in
    let passthru = passthru-Sized h payload in
    let matches = lz77x_decode-Sized payload n c.ring.ring c.ring.ring_pos in
    let coded = with_dict-Sized c c.dict h payload dst compact in
    let bad = err-Sized n corrupt in let unknown = err-Sized n unsupported in ground arith

-- Room in the buffer for what an accepted header announces.
abbrev pub HasRoom : ℕ → Result (PktHeader × ℕ) → Type 0
HasRoom cap (err e) = Unit
HasRoom cap (ok r) = r.0.original_size ≤ cap

pub record Roomy (cap : ℕ) (o : Result (PktHeader × ℕ)) : Type 0 where
  pub holds : HasRoom cap o

unless-Roomy :
    (cap : ℕ) (b : Bool) (e : Error) (o : Result (PktHeader × ℕ))
    → (b ≡ false → Roomy cap o)
    → Roomy cap (if b then err e else o)
unless-Roomy cap true e o h = record { holds = tt }
unless-Roomy cap false e o h = h refl

within_cap : (cap n : ℕ) → ltb cap n ≡ false → n ≤ cap
within_cap cap n e = ground arith

compact-Roomy :
    (src : List ℕ) (cap : ℕ) (o : Option (PktHeader × ℕ)) → Roomy cap (compact_form src cap o)
compact-Roomy src cap none = record { holds = tt }
compact-Roomy src cap (some (h, sz)) = unless-Roomy cap (ltb 65535 h.original_size) corrupt _ (λ _.
    unless-Roomy cap (ltb cap h.original_size) buf_small _
      (λ e. record { holds = within_cap cap h.original_size e }))

pub validate_header-Roomy :
    (src : List ℕ) (cap : ℕ) (h : PktHeader) (compact : Bool)
    → Roomy cap (validate_header src cap h compact)
unfolding validate_header
validate_header-Roomy src cap h true = compact-Roomy src cap (hdr_read_compact src h)
validate_header-Roomy src cap h false =
    let hdr = hdr_read src in
    unless-Roomy cap (ltb (length src) 8) corrupt _ (λ _.
      unless-Roomy cap (ltb 65535 hdr.original_size) corrupt _ (λ _.
        unless-Roomy cap (ltb cap hdr.original_size) buf_small _ (λ e.
          unless-Roomy cap (ltb (length src) (8 + hdr.compressed_size)) corrupt _
            (λ _. record { holds = within_cap cap hdr.original_size e }))))

-- The header of a packet, with what a compact one leaves to the context.
abbrev pub filled : Ctx → Bool → PktHeader → PktHeader
filled c compact h = record h {
  model_id = if compact then model_of c.dict else h.model_id;
  context_seq = if compact then c.context_seq else h.context_seq;
}

-- What a call may do: be undefined, where there is a dictionary; fail and leave the context as it was; or
-- return no more bytes than the packet's header says, for which the buffer has room, and take them into
-- the context.
abbrev pub IsSafe : Ctx → List ℕ → List ℕ → Option (Result (List ℕ) × Ctx) → Type 0
IsSafe c src dst none = (d : Dict) × (c.dict ≡ some d)
IsSafe c src dst (some (err e, c')) = (is_undefined e ≡ false) × (c' ≡ c)
IsSafe c src dst (some (ok bytes, c')) =
    let compact = has c.flags cfg_compact_hdr in
    (h : PktHeader) × (hdr_sz : ℕ) × (validate_header src (length dst) blank compact
      ≡ ok (h, hdr_sz))
    × (length bytes ≤ h.original_size)
    × (h.original_size ≤ length dst)
    × (c' ≡ accept c (filled c compact h) (length src) bytes)

passthru-Clean : (h : PktHeader) (payload : List ℕ) → Clean (decode_passthru h payload)
unfolding decode_passthru
passthru-Clean h payload =
    let n = h.original_size in
    let lz = lz77_decode-Clean payload n in
    let rle = rle_decode-Clean payload n in
    let bad : Clean {A = List ℕ} (err corrupt) = err-Clean corrupt refl in
    let plain : Clean (ok (take n payload)) = record { holds = tt } in ground arith

-- Only the entropy coders, which need a dictionary, have undefined runs.
payload-Clean :
    (c : Ctx) (h : PktHeader) (payload dst : List ℕ) (compact : Bool)
    → c.dict ≡ none
    → Clean (decode_payload c h payload dst compact)
unfolding decode_payload
payload-Clean c h payload dst compact no_dict =
    let n = h.original_size in
    let passthru = passthru-Clean h payload in
    let matches = lz77x_decode-Clean payload n c.ring.ring c.ring.ring_pos in
    let invalid : Clean {A = List ℕ} (err dict_invalid) = err-Clean dict_invalid refl in
    let coded = subst (λ o. Clean (with_dict c h payload dst compact o)) (sym no_dict) invalid in
    let bad : Clean {A = List ℕ} (err corrupt) = err-Clean corrupt refl in
    let unknown : Clean {A = List ℕ} (err unsupported) = err-Clean unsupported refl in ground arith

finish-IsSafe :
    (c : Ctx) (h : PktHeader) (sz : ℕ) (src dst : List ℕ) (o : Result (List ℕ))
    → validate_header src (length dst) blank (has c.flags cfg_compact_hdr) ≡ ok (h, sz)
    → h.original_size ≤ length dst
    → Sized h.original_size o
    → (c.dict ≡ none → Clean o)
    → IsSafe c src dst (finish c (filled c (has c.flags cfg_compact_hdr) h) (length src) o)
unfolding finish
finish-IsSafe c h sz src dst (err e) valid le it clean = elim (Bool-cases (is_undefined e)) [
  | inl on ↦
      subst (IsSafe c src dst) (sym (if-true (is_undefined e) _ _ on)) (elim (Option-cases c.dict) [
        | inl no_dict ↦ let plain = (clean no_dict).holds in cc
        | inr some_dict ↦ some_dict
      ])
  | inr off ↦ subst (IsSafe c src dst) (sym (if-false (is_undefined e) _ _ off)) (off, refl)
]
finish-IsSafe c h sz src dst (ok bytes) valid le it clean =
    let full = filled c (has c.flags cfg_compact_hdr) h in
    (h, sz, valid, omega (arith, length-restored c full bytes, it.holds), le, refl)

packet-IsSafe :
    (c : Ctx) (h : PktHeader) (sz : ℕ) (src dst : List ℕ) (compact : Bool)
    → has c.flags cfg_compact_hdr ≡ compact
    → validate_header src (length dst) blank compact ≡ ok (h, sz)
    → h.original_size ≤ length dst
    → IsSafe c src dst (decompress_packet c (filled c compact h) sz src dst compact)
unfolding decompress_packet
packet-IsSafe c h sz src dst compact same valid le =
    let full = filled c compact h in
    let payload = take full.compressed_size (drop sz src) in
    choose (wrong_model c.dict full) _ (
      subst
        (λ b.
          IsSafe c src dst
            (finish c (filled c b h) (length src) (decode_payload c full payload dst compact)))
        same
        (finish-IsSafe c h sz src dst _ (ap (validate_header src (length dst) blank) same ∙ valid)
          le (sized compact full payload) (payload-Clean c full payload dst compact)))
  where
    choose :
        (b : Bool) (o : Option (Result (List ℕ) × Ctx))
        → IsSafe c src dst o
        → IsSafe c src dst (if b then some (err version, c) else o)
    choose true o it = (refl, refl)
    choose false o it = it

    sized :
        (compact : Bool) (full : PktHeader) (payload : List ℕ)
        → Sized full.original_size (decode_payload c full payload dst compact)
    sized compact full payload = payload-Sized c full payload dst compact

compact_form-Clean :
    (src : List ℕ) (cap : ℕ) (o : Option (PktHeader × ℕ)) → Clean (compact_form src cap o)
compact_form-Clean src cap none = err-Clean corrupt refl
compact_form-Clean src cap (some (h, sz)) =
    either-Clean (ltb 65535 h.original_size) (err corrupt) _ (err-Clean corrupt refl) (
      either-Clean (ltb cap h.original_size) (err buf_small) _ (err-Clean buf_small refl)
        (record { holds = tt }))

validate_header-Clean :
    (src : List ℕ) (cap : ℕ) (compact : Bool) → Clean (validate_header src cap blank compact)
unfolding validate_header
validate_header-Clean src cap true = compact_form-Clean src cap (hdr_read_compact src blank)
validate_header-Clean src cap false =
    let hdr = hdr_read src in
    let bad : Clean {A = PktHeader × ℕ} (err corrupt) = err-Clean corrupt refl in
    either-Clean (ltb (length src) 8) (err corrupt) _ bad (
      either-Clean (ltb 65535 hdr.original_size) (err corrupt) _ bad (
        either-Clean (ltb cap hdr.original_size) (err buf_small) _ (err-Clean buf_small refl) (
          either-Clean (ltb (length src) (8 + hdr.compressed_size)) (err corrupt) _ bad
            (record { holds = tt }))))

after_header-IsSafe :
    (c : Ctx) (src dst : List ℕ) (compact : Bool) (o : Result (PktHeader × ℕ))
    → has c.flags cfg_compact_hdr ≡ compact
    → validate_header src (length dst) blank compact ≡ o
    → Roomy (length dst) o
    → Clean o
    → IsSafe c src dst (after_header c src dst compact o)
unfolding after_header
after_header-IsSafe c src dst compact (err e) same valid it clean = (clean.holds, refl)
after_header-IsSafe c src dst true (ok (h, sz)) same valid it clean =
    packet-IsSafe c h sz src dst true same valid it.holds
after_header-IsSafe c src dst false (ok (h, sz)) same valid it clean =
    packet-IsSafe c h sz src dst false same valid it.holds

pub decompress-IsSafe : (c : Ctx) (src dst : List ℕ) → IsSafe c src dst (decompress c src dst)
unfolding decompress
decompress-IsSafe c src dst =
    let compact = has c.flags cfg_compact_hdr in
    after_header-IsSafe c src dst compact (validate_header src (length dst) blank compact) refl refl
      (validate_header-Roomy src (length dst) blank compact)
      (validate_header-Clean src (length dst) compact)
