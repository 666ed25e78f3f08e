-- ===== src/Session/Choices.antt =====
-- The packets that `netc_compress` of src/core/netc_compress.c settles on without a dictionary, as the payload decoders of
-- `netc_decompress` in src/core/netc_decompress.c see them.
use netc.Prelude.{ℕ, ◌+◌, ◌^◌, ◌<◌, ◌≡◌, ◌≢◌, refl, sym, ap, arith, ◌∙◌, List}
use netc.Prelude.{Bool, true, false, ◌&&◌, not, ◌⊎◌, inl, inr, Option, none, some}
use netc.Prelude.{ltb, leb, ◌==◌, if◌then◌else◌, if-true, if-false, ◌%◌, ◌!=◌}
use netc.Prelude.{length}
use netc.Prelude.Fallible.{unless-eq-some}
use netc.Result.{ok}
use netc.Lz77.{lz77_decode}
use netc.Lz77.Prefixes.{take_all}
use netc.Lz77.Encode.{lz77_encode}
use netc.Lz77.RoundTrip.{lz77_decode-lz77_encode}
use netc.Lz77x.{lz77x_encode, lz77x_decode}
use netc.Lz77x.RoundTrip.{lz77x_decode-lz77x_encode}
use netc.Header.Types.{pkt_type_table, flag_lz77, flag_passthru}
use netc.Context.{Ctx, has, cfg_compact_hdr, packet}
use netc.Decompress.{decode_passthru, decode_payload, algorithm_of, delta_postpass, restored}
use netc.Compress.{
  Choice, Prepared, plain_choice, lz77_choice, lz77x_choice, smaller_than, within_packet,
  across_packets, lz77_path,
}
use netc.Session.Frame.{IsChoice, Decodes}
use netc.Session.Delta.{IsPrepared}
use mathlib.Core.Path.{subst}
use mathlib.Core.Option.{some-injective}

pub plain-IsChoice :
    (compact : Bool) (src : List ℕ) → length src < 2 ^ 16 → IsChoice compact (plain_choice src)
unfolding pkt_type_table
plain-IsChoice compact src h = record {
  size = h;
  flags = omega arith;
  algorithm = omega arith;
  typed = λ _. (0, omega arith, refl, refl, refl);
}

pub plain-Decodes :
    (d : Ctx) (src dst : List ℕ) → length src < 2 ^ 16 → Decodes d src dst (plain_choice src)
unfolding decode_payload decode_passthru restored algorithm_of
plain-Decodes d src dst h =
    let n = length src % 2 ^ 16 in
    let same : (n != n) ≡ false = ground arith in
    (src, if-false (n != n) _ _ same ∙ ap ok (take_all n src (omega arith)), refl)

lz77x-IsChoice :
    (compact b : Bool) (out : List ℕ) → length out < 2 ^ 16 → IsChoice compact (lz77x_choice b out)
unfolding pkt_type_table
lz77x-IsChoice compact b out h = record {
  size = h;
  flags = omega arith;
  algorithm = omega arith;
  typed = λ _. (0x0e, omega arith, refl, refl, refl);
}

lz77x-Decodes :
    (d : Ctx) (src dst out : List ℕ) (b : Bool)
    → 0 < length d.ring.ring
    → length src < 2 ^ 16
    → lz77x_decode out (length src) d.ring.ring d.ring.ring_pos ≡ ok src
    → Decodes d src dst (lz77x_choice b out)
unfolding decode_payload restored algorithm_of
lz77x-Decodes d src dst out b ring h e =
    let some_ring : (length d.ring.ring == 0) ≡ false = ground arith in
    let size : length src % 2 ^ 16 ≡ length src = omega arith in
    (
      src,
      if-false (length d.ring.ring == 0) _ _ some_ring
          ∙ (ap (λ (n : ℕ). lz77x_decode out n d.ring.ring d.ring.ring_pos) size ∙ e),
      refl,
    )

lz77_flag :
    (flags : ℕ)
    → (flags ≡ 8) ⊎ (flags ≡ 9) ⊎ (flags ≡ 0x29)
    → has (flags + flag_lz77 + flag_passthru) flag_lz77 ≡ true
lz77_flag flags (inl e) = rw e refl
lz77_flag flags (inr (inl e)) = rw e refl
lz77_flag flags (inr (inr e)) = rw e refl

-- The flags of an LZ77 packet, and whether a compact header can tell them.
lz77-IsChoice :
    (compact : Bool) (flags : ℕ) (out : List ℕ)
    → (flags ≡ 8) ⊎ (flags ≡ 9) ⊎ ((flags ≡ 0x29) × (compact ≡ false))
    → length out < 2 ^ 16
    → IsChoice compact (lz77_choice flags out)
unfolding pkt_type_table
lz77-IsChoice compact flags out (inl e) h =
    subst (λ f. IsChoice compact (lz77_choice f out)) (sym e)
      (record {
        size = h;
        flags = omega arith;
        algorithm = omega arith;
        typed = λ _. (1, omega arith, refl, refl, refl);
      })
lz77-IsChoice compact flags out (inr (inl e)) h =
    subst (λ f. IsChoice compact (lz77_choice f out)) (sym e)
      (record {
        size = h;
        flags = omega arith;
        algorithm = omega arith;
        typed = λ _. (2, omega arith, refl, refl, refl);
      })
lz77-IsChoice compact flags out (inr (inr (e, legacy))) h =
    subst (λ f. IsChoice compact (lz77_choice f out)) (sym e)
      (record { size = h; flags = omega arith; algorithm = omega arith; typed = λ t. cc })

lz77-Decodes :
    (d : Ctx) (src dst out bytes : List ℕ) (flags : ℕ)
    → (flags ≡ 8) ⊎ (flags ≡ 9) ⊎ (flags ≡ 0x29)
    → length src < 2 ^ 16
    → lz77_decode out (length src) ≡ ok bytes
    → delta_postpass d (flags + flag_lz77 + flag_passthru) bytes ≡ src
    → Decodes d src dst (lz77_choice flags out)
unfolding decode_payload decode_passthru restored algorithm_of
lz77-Decodes d src dst out bytes flags kind h e back =
    let size : length src % 2 ^ 16 ≡ length src = omega arith in
    let lz : has (flags + flag_lz77 + flag_passthru) flag_lz77 ≡ true = lz77_flag flags kind in
    (
      bytes,
      if-true (has (flags + flag_lz77 + flag_passthru) flag_lz77) _ _ lz
          ∙ (ap (λ (n : ℕ). lz77_decode out n) size ∙ e),
      if-false (not (has (flags + flag_lz77 + flag_passthru) flag_lz77)) _ _ (ap not lz) ∙ back,
    )

-- The receiver can decode the choice.
abbrev pub Fits : Ctx → List ℕ → List ℕ → Choice → Type 0
Fits d src dst ch = IsChoice (has d.flags cfg_compact_hdr) ch × Decodes d src dst ch

pub smaller_than-some :
    (n : ℕ) (m : Option (List ℕ)) (out : List ℕ) → smaller_than n m ≡ some out → m ≡ some out
smaller_than-some n none out e = cc
smaller_than-some n (some x) out e =
    let (_, same) = unless-eq-some (ltb (length x) n) (some x) out e in same

within_lem :
    (d : Ctx) (src dst : List ℕ) (flags : ℕ) (m : Option (List ℕ)) (other : Option Choice)
    (ch : Choice)
    → ((out : List ℕ) → m ≡ some out → Fits d src dst (lz77_choice flags out))
    → (other ≡ some ch → Fits d src dst ch)
    → within_packet flags m other ≡ some ch
    → Fits d src dst ch
within_lem d src dst flags none other ch hm ho e = ho e
within_lem d src dst flags (some out) other ch hm ho e =
    subst (λ c. Fits d src dst c) (some-injective (lz77_choice flags out) ch e) (hm out refl)

across_lem :
    (d : Ctx) (src dst : List ℕ) (m : Option (List ℕ)) (ch : Choice)
    → ((out : List ℕ) → m ≡ some out → Fits d src dst (lz77x_choice true out))
    → across_packets m ≡ some ch
    → Fits d src dst ch
across_lem d src dst none ch hm e = cc
across_lem d src dst (some out) ch hm e =
    subst (λ c. Fits d src dst c) (some-injective (lz77x_choice true out) ch e) (hm out refl)

-- Without a packet before the last, a compact header has flags for the residuals.
flags_lem :
    (prev2 : Option (List ℕ)) (compact : Bool) (flags : ℕ)
    → (flags ≡ 8) ⊎ (flags ≡ 9) ⊎ ((flags ≡ 0x29) × (prev2 ≢ none))
    → (compact ≡ true → prev2 ≡ none)
    → (flags ≡ 8) ⊎ (flags ≡ 9) ⊎ ((flags ≡ 0x29) × (compact ≡ false))
flags_lem prev2 compact flags (inl e) first = inl e
flags_lem prev2 compact flags (inr (inl e)) first = inr (inl e)
flags_lem prev2 true flags (inr (inr (e, other))) first = absurd (other (first refl))
flags_lem prev2 false flags (inr (inr (e, other))) first = inr (inr (e, refl))

weaker_flags :
    (flags : ℕ) (P : Type 0)
    → (flags ≡ 8) ⊎ (flags ≡ 9) ⊎ ((flags ≡ 0x29) × P)
    → (flags ≡ 8) ⊎ (flags ≡ 9) ⊎ (flags ≡ 0x29)
weaker_flags flags P (inl e) = inl e
weaker_flags flags P (inr (inl e)) = inr (inl e)
weaker_flags flags P (inr (inr (e, _))) = inr (inr e)

lz77-Fits :
    (d : Ctx) (src dst out : List ℕ) (p : Prepared) (out_cap : ℕ)
    → length src < 2 ^ 16
    → IsPrepared d.prev_pkt d.prev2_pkt src p
    → (has d.flags cfg_compact_hdr ≡ true → d.prev2_pkt ≡ none)
    → lz77_encode (if p.did_lzp then src else p.compress_src) out_cap ≡ some out
    → Fits d src dst (lz77_choice p.pkt_flags out)
unfolding delta_postpass
lz77-Fits d src dst out p out_cap h it first e =
    let coded : lz77_encode p.compress_src out_cap ≡ some out =
      ap (λ xs. lz77_encode xs out_cap) (sym (if-false p.did_lzp src p.compress_src it.unfiltered))
      ∙ e in
    let (back, _, small) =
      lz77_decode-lz77_encode p.compress_src out out_cap (omega (arith, it.size)) coded in
    let kind = flags_lem d.prev2_pkt (has d.flags cfg_compact_hdr) p.pkt_flags it.flags first in
    (
      lz77-IsChoice (has d.flags cfg_compact_hdr) p.pkt_flags out kind
          (omega (arith, it.size, small)),
      lz77-Decodes d src dst out p.compress_src p.pkt_flags (weaker_flags p.pkt_flags _ kind) h
          (ap (λ (n : ℕ). lz77_decode out n) (sym it.size) ∙ back) it.undone,
    )

lz77x-Fits :
    (d : Ctx) (src dst out : List ℕ) (out_cap : ℕ)
    → length src < 2 ^ 16
    → 0 < length d.ring.ring
    → lz77x_encode src d.ring.ring d.ring.ring_pos (length (packet d.prev_pkt)) out_cap ≡ some out
    → Fits d src dst (lz77x_choice true out)
lz77x-Fits d src dst out out_cap h ring e =
    let (back, _, small) =
      lz77x_decode-lz77x_encode src d.ring.ring d.ring.ring_pos (length (packet d.prev_pkt)) out_cap
        out ring e in
    (
      lz77x-IsChoice (has d.flags cfg_compact_hdr) true out (omega (arith, small)),
      lz77x-Decodes d src dst out true ring h back,
    )

pub ring_test : (n : ℕ) (a b : Bool) → (a && not (n == 0) && b) ≡ true → 0 < n
ring_test n a b e = ground (arith, e)

pub path_lem :
    (d : Ctx) (src dst : List ℕ) (p : Prepared) (out_cap : ℕ) (ch : Choice)
    → length src < 2 ^ 16
    → IsPrepared d.prev_pkt d.prev2_pkt src p
    → (has d.flags cfg_compact_hdr ≡ true → d.prev2_pkt ≡ none)
    → lz77_path d src p out_cap ≡ some ch
    → Fits d src dst ch
unfolding lz77_path
path_lem d src dst p out_cap ch h it first e =
    let prev = length (packet d.prev_pkt) in
    let lz77_src = (if p.did_lzp then src else p.compress_src) in
    let stream = lz77x_encode src d.ring.ring d.ring.ring_pos prev out_cap in
    let ringed = leb 64 (length src) && not (length d.ring.ring == 0) && ltb 0 prev in
    within_lem d src dst p.pkt_flags (smaller_than (length src) (lz77_encode lz77_src out_cap))
      (if ringed then across_packets (smaller_than (length src) stream) else none) ch
      (λ out eo.
        lz77-Fits d src dst out p out_cap h it first
          (smaller_than-some (length src) (lz77_encode lz77_src out_cap) out eo))
      (λ eo.
        let (test, eo') =
          unless-eq-some ringed (across_packets (smaller_than (length src) stream)) ch eo in
        across_lem d src dst (smaller_than (length src) stream) ch
          (λ out es.
            lz77x-Fits d src dst out out_cap h
              (ring_test (length d.ring.ring) (leb 64 (length src)) (ltb 0 prev) test)
              (smaller_than-some (length src) stream out es))
          eo')
      e
