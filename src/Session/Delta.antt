-- ===== src/Session/Delta.antt =====
-- The delta pre-pass of `netc_compress` in src/core/netc_compress.c against `decomp_delta_postpass` of
-- src/core/netc_decompress.c, for a packet whose residuals are coded as an LZ77 stream.
use netc.Prelude.{ℕ, ◌+◌, ◌≡◌, ◌≢◌, refl, ap, arith, ◌∙◌, List, [], Bool, true, false, ◌&&◌}
use netc.Prelude.{Bool-cases, ◌⊎◌, inl, inr, Option, none, some, ltb, leb, ◌==◌, ◌!=◌}
use netc.Prelude.{if◌then◌else◌, if-false, length, All, IsByte}
use netc.Delta.{encode_order2, decode_order2, encode as delta_encode, decode as delta_decode}
use netc.Delta.RoundTrip.{
  decode-encode, encode-bytes, decode_order2-encode_order2, length-encode_order2,
}
use netc.Header.Types.{flag_lz77, flag_passthru}
use netc.Context.{Ctx, has, cfg_delta, packet}
use netc.Decompress.{undo_second, undo_delta}
use netc.Compress.{Prepared, raw, delta_prepared, residuals, zeros, delta_pass}

-- The residuals have the packet's size, and the receiver's pass over them gives the packet. The flags are
-- those of no delta, of the first order, or of the second.
pub record IsPrepared (prev prev2 : Option (List ℕ)) (src : List ℕ) (p : Prepared) : Type 0 where
  pub size : length p.compress_src ≡ length src
  pub unfiltered : p.did_lzp ≡ false
  pub flags : (p.pkt_flags ≡ 8) ⊎ (p.pkt_flags ≡ 9) ⊎ ((p.pkt_flags ≡ 0x29) × (prev2 ≢ none))
  pub undone : undo_delta (p.pkt_flags + flag_lz77 + flag_passthru) prev prev2 p.compress_src ≡ src

raw-IsPrepared : (prev prev2 : Option (List ℕ)) (src : List ℕ) → IsPrepared prev prev2 src (raw src)
raw-IsPrepared none prev2 src = record {
  size = refl;
  unfiltered = refl;
  flags = inl refl;
  undone = refl;
}
raw-IsPrepared (some prev) prev2 src = record {
  size = refl;
  unfiltered = refl;
  flags = inl refl;
  undone = refl;
}

first_order :
    (prev src : List ℕ) (prev2 : Option (List ℕ))
    → length prev ≡ length src
    → All IsByte prev
    → All IsByte src
    → IsPrepared (some prev) prev2 src (delta_prepared 9 (delta_encode prev src))
first_order prev src prev2 n hp hs =
    let size = (encode-bytes prev src n hp hs).1 in
    let same : (length prev != length (delta_encode prev src)) ≡ false = ground (arith, n, size) in
    record {
      size = size;
      unfiltered = refl;
      flags = inr (inl refl);
      undone =
          if-false (length prev != length (delta_encode prev src)) _ _ same
          ∙ (second prev2 ∙ decode-encode prev src n hp hs);
    }
  where
    second :
        (prev2 : Option (List ℕ))
        → undo_second 0x8d prev prev2 (delta_encode prev src)
          ≡ delta_decode prev (delta_encode prev src)
    second none = refl
    second (some q) = refl

second_order :
    (prev prev2 src : List ℕ)
    → length prev ≡ length src
    → length prev2 ≡ length src
    → All IsByte src
    → IsPrepared (some prev) (some prev2) src (delta_prepared 0x29 (encode_order2 prev2 prev src))
second_order prev prev2 src n m hs =
    let o2 = encode_order2 prev2 prev src in
    let size = length-encode_order2 prev2 prev src m n in
    let same : (length prev != length o2) ≡ false = ground (arith, n, size) in
    let same2 : (length prev2 == length o2) ≡ true = ground (arith, m, size) in
    record {
      size = size;
      unfiltered = refl;
      flags = inr (inr (refl, λ e. cc));
      undone =
          if-false (length prev != length o2) _ _ same
          ∙ (ap (λ b. if b then decode_order2 prev2 prev o2 else delta_decode prev o2) same2
              ∙ decode_order2-encode_order2 prev2 prev src m n hs);
    }

residuals-IsPrepared :
    (prev src : List ℕ) (prev2 : Option (List ℕ))
    → length prev ≡ length src
    → All IsByte prev
    → All IsByte src
    → IsPrepared (some prev) prev2 src (residuals prev prev2 src)
unfolding residuals
residuals-IsPrepared prev src none n hp hs = first_order prev src none n hp hs
residuals-IsPrepared prev src (some prev2) n hp hs =
    let better = ltb (zeros (delta_encode prev src)) (zeros (encode_order2 prev2 prev src)) in
    elim (Bool-cases (length prev2 == length src && better)) [
      | inl two ↦ rw two (second_order prev prev2 src n (ground (arith, two)) hs)
      | inr one ↦ rw one (first_order prev src (some prev2) n hp hs)
    ]

either :
    (prev prev2 : Option (List ℕ)) (src : List ℕ) (b : Bool) (p : Prepared)
    → (b ≡ true → IsPrepared prev prev2 src p)
    → IsPrepared prev prev2 src (if b then p else raw src)
either prev prev2 src true p h = h refl
either prev prev2 src false p h = raw-IsPrepared prev prev2 src

impossible : (on room : Bool) (n : ℕ) → (on && 0 == n && leb 8 n && room) ≡ true → ⊥
impossible on room n b = ground (arith, b)

sizes : (on a b : Bool) (m n : ℕ) → (on && m == n && a && b) ≡ true → m ≡ n
sizes on a c m n b = ground (arith, b)

-- With a packet before of as many bytes, or without, the pass is undone.
pub delta_pass-IsPrepared :
    (ctx : Ctx) (src : List ℕ)
    → All IsByte (packet ctx.prev_pkt)
    → All IsByte src
    → IsPrepared ctx.prev_pkt ctx.prev2_pkt src (delta_pass ctx src)
unfolding delta_pass
delta_pass-IsPrepared ctx src hp hs =
    passed ctx.prev_pkt (has ctx.flags cfg_delta) (leb (length src) ctx.arena_size) hp
  where
    passed :
        (prev : Option (List ℕ)) (on room : Bool)
        → All IsByte (packet prev)
        → IsPrepared prev ctx.prev2_pkt src (
            if on && length (packet prev) == length src && leb 8 (length src) && room
            then residuals (packet prev) ctx.prev2_pkt src
            else raw src)
    passed none on room hp =
        either none ctx.prev2_pkt src (on && 0 == length src && leb 8 (length src) && room)
          (residuals [] ctx.prev2_pkt src) (λ b. absurd (impossible on room (length src) b))
    passed (some prev) on room hp =
        either (some prev) ctx.prev2_pkt src
          (on && length prev == length src && leb 8 (length src) && room)
          (residuals prev ctx.prev2_pkt src)
          (λ b.
            residuals-IsPrepared prev src ctx.prev2_pkt
              (sizes on (leb 8 (length src)) room (length prev) (length src) b) hp hs)
