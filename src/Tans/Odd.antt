-- ===== src/Tans/Odd.antt =====
-- Three symbols through the coders of src/algo/netc_tans.c with two states.
use netc.Prelude.{ℕ, ◌+◌, ◌-◌, ◌*◌, ◌%◌, ◌^◌, ◌≤◌, ◌<◌, ◌≡◌, refl, arith}
use netc.Prelude.{[], ◌∷◌, some, inl, inr, false, not, ltb, leb, u32}
use netc.Prelude.{Option-cases, pow-add, ◌||◌, parts-lt, two-pow-pos}
use netc.Bitstream.Writer.{Writer}
use netc.Bitstream.Writer
use netc.Bitstream.Reader
use netc.Bitstream.Reader.{Reader, done}
use netc.Bitstream.Pushes.{init-Holds}
use netc.Bitstream.Flush.{flush-sentinel, flush-room}
use netc.Bitstream.Opens.{init-Loaded}
use netc.Bitstream.Pops.{Loaded}
use netc.Tans.Params.{params_12}
use netc.Tans.Table.{Table}
use netc.Tans.Codec.{bad_state}
use netc.Tans.Dual.{encode_pairs, decode_pairs, encode_x2, decode_x2}
use netc.Tans.Step.{
  IsState, target, moved, encode_step_lem, decode_step_lem, decode_step_any, target-IsState,
  moved-IsStep,
}
use netc.Tans.RoundTrip.{IsTable, IsCodable, IsTable-IsBuilt, codable-freq, state-good}
use native.Mathlib.Nat.{mod-lt}
use mathlib.Core.Path.{subst}

slot_in_range : (x : ℕ) → IsState params_12 x → leb 4096 (u32 (x + 2 ^ 32 - 4096)) ≡ false
slot_in_range x h = ground arith

grown : (v n x nb : ℕ) → v < 2 ^ n → v + x % 2 ^ nb * 2 ^ n < 2 ^ (n + nb)
grown v n x nb h =
    omega
      (arith, pow-add n nb, parts-lt (x % 2 ^ nb) (2 ^ nb) v (2 ^ n) (mod-lt x (two-pow-pos nb)) h)

-- With a table that the builder accepts, and room for the stream, three bytes of positive frequency are
-- encoded and decoded without an error, but the decoder returns the last two in the opposite order.
pub decode_x2-swaps :
    (t : Table) (a b c cap : ℕ)
    → IsTable params_12 t
    → IsCodable t a
    → IsCodable t b
    → IsCodable t c
    → 5 ≤ cap
    → (state0 : ℕ) × (state1 : ℕ) × (w : Writer) × (w' : Writer) × (encode_x2 t
          (a ∷ b ∷ c ∷ [])
          (Writer.init cap)
        ≡ done (state0, state1, w))
      × (Writer.flush w ≡ some w')
      × (decode_x2 t (Reader.init w'.out) 3 state0 state1 ≡ done (a ∷ c ∷ b ∷ []))
unfolding encode_x2 decode_x2 encode_pairs decode_pairs
decode_x2-swaps t a b c cap ht ha hb hc room =
    let (freq, norm, e) = ht in
    let built = IsTable-IsBuilt params_12 t ht in
    let fa = codable-freq params_12 freq t a built ha.1 in
    let fb = codable-freq params_12 freq t b built hb.1 in
    let fc = codable-freq params_12 freq t c built hc.1 in
    let start : IsState params_12 4096 = omega arith in
    let xc = target params_12 freq norm c 4096 in
    let xb = target params_12 freq norm b 4096 in
    let xa = target params_12 freq norm a xc in
    let sc = target-IsState params_12 freq norm t built c 4096 in
    let sb = target-IsState params_12 freq norm t built b 4096 in
    let sa = target-IsState params_12 freq norm t built a xc in
    let mc = moved params_12 freq norm c 4096 in
    let mb = moved params_12 freq norm b 4096 in
    let ma = moved params_12 freq norm a xc in
    let lc = (moved-IsStep params_12 freq norm c 4096 hc.0 fc start).few in
    let lb = (moved-IsStep params_12 freq norm b 4096 hb.0 fb start).few in
    let la = (moved-IsStep params_12 freq norm a xc ha.0 fa sc).few in
    let same : (Writer.init cap).cap ≡ cap = init-cap in
    let (w1, e1, h1, c1) =
      encode_step_lem params_12 freq norm t built c 4096 0 0 (Writer.init cap) hc.0 fc start
        (init-Holds cap) (omega (arith, same)) in
    let (w2, e2, h2, c2) =
      encode_step_lem params_12 freq norm t built b 4096 _ _ w1 hb.0 fb start h1
        (omega (arith, same, c1, lc)) in
    let (w3, e3, h3, c3) =
      encode_step_lem params_12 freq norm t built a xc _ _ w2 ha.0 fa sc h2
        (omega (arith, same, c1, c2, lc, lb)) in
    let f1 = grown 0 0 4096 mc (omega arith) in
    let f2 = grown _ (0 + mc) 4096 mb f1 in
    let f3 = grown _ (0 + mc + mb) xc ma f2 in
    elim (Option-cases (Writer.flush w3)) [
      | inl short ↦
          absurd (flush-room w3 _ _ h3 (omega (arith, same, c1, c2, c3, lc, lb, la)) short)
      | inr (w', f) ↦
          let (total, size, bytes, inside) = flush-sentinel w3 _ _ h3 f in
          let l0 = init-Loaded w'.out _ _ bytes size f3 total in
          let (r1, d1, l1) =
            decode_step_lem params_12 freq norm t built a xc _ (0 + mc + mb) (Reader.init w'.out)
              ha.0 fa sc f2 l0 in
          let turn : 0 + mc + mb ≡ mb + mc = omega arith in
          let v2 = 0 + 4096 % 2 ^ mc * 2 ^ 0 + 4096 % 2 ^ mb * 2 ^ (0 + mc) in
          let (yc, r2, d2, l2) =
            decode_step_any params_12 freq norm t built c 4096 v2 mb r1 hc.0 fc start
              (subst (λ n. v2 < 2 ^ n) turn f2) (subst (Loaded r1 v2) turn l1) in
          let none_left : mb ≡ 0 + mb = omega arith in
          let (yb, r3, d3, l3) =
            decode_step_any params_12 freq norm t built b 4096 (v2 % 2 ^ mb) 0 r2 hb.0 fb start
              (subst (λ n. v2 % 2 ^ mb < 2 ^ n) none_left (mod-lt v2 (two-pow-pos mb)))
              (subst (Loaded r2 (v2 % 2 ^ mb)) none_left l2) in
          let open_encoder : (not t.valid || ltb 3 2) ≡ false = rw built.valid refl in
          let open_decoder : (not t.valid
                || ltb 3 2
                || bad_state params_12 xa
                || bad_state params_12 xb)
              ≡ false =
            rw (built.valid, state-good params_12 xa sa, state-good params_12 xb sb) refl in
          let guard = slot_in_range xb sb in
          (
            xa,
            xb,
            w3,
            w',
            rw (open_encoder, e1, e2, e3) refl,
            f,
            rw (open_decoder, d1, guard, d2, d3) refl,
          )
    ]
  where
    init-cap : (Writer.init cap).cap ≡ cap
    init-cap = unfold Writer.init in refl
