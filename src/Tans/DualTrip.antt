-- ===== src/Tans/DualTrip.antt =====
-- Whole streams of the coders of src/algo/netc_tans.c with two states, on an even number of bytes.
use netc.Prelude.{ℕ, zero, suc, ◌+◌, ◌-◌, ◌*◌, ◌/◌, ◌%◌, ◌^◌, ◌≤◌, ◌<◌, ◌≡◌, refl, ap, arith, ◌∙◌}
use netc.Prelude.{List, [], ◌∷◌, some, inl, inr, length, true, false, ltb, leb, ◌==◌}
use netc.Prelude.{All, ◌||◌, not, u32, Option-cases}
use netc.Bitstream.Writer.{Writer}
use netc.Bitstream.Writer
use netc.Bitstream.Reader
use netc.Bitstream.Reader.{Reader, Outcome, done, failed, ◌>>=◌}
use netc.Bitstream.Pushes.{Holds, init-Holds}
use netc.Bitstream.Flush.{flush-sentinel, flush-room}
use netc.Bitstream.Pops.{Loaded}
use netc.Bitstream.Opens.{init-Loaded}
use netc.Tans.Params.{params_12}
use netc.Tans.Table.{Table}
use netc.Tans.Codec.{bad_state}
use netc.Tans.Dual.{encode_pairs, decode_pairs, encode_x2, decode_x2}
use netc.Tans.Step.{IsState}
use netc.Tans.RoundTrip.{IsTable, IsCodable, IsTable-IsBuilt, step_law, past, state-good}

module _ (t : Table) (ht : IsTable params_12 t) where
  record Paired (k : ℕ) (src : List ℕ) (w : Writer) : Type 0 where
    state0 : ℕ
    state1 : ℕ
    writer : Writer
    number : ℕ
    count : ℕ
    is_state0 : IsState params_12 state0
    is_state1 : IsState params_12 state1
    encodes : encode_pairs t src 4096 4096 w ≡ done (state0, state1, writer)
    holds : Holds writer number count
    fits : number < 2 ^ count
    cap : writer.cap ≡ w.cap
    few : count ≤ 24 * k
    decodes : (r : Reader) → Loaded r number count → decode_pairs t k state0 state1 r ≡ done src

  encode_pairs-Paired :
      (k : ℕ) (src : List ℕ) (w : Writer)
      → length src ≡ 2 * k
      → All (IsCodable t) src
      → Holds w 0 0
      → 24 * k / 8 ≤ w.cap
      → Paired k src w
  unfolding encode_pairs decode_pairs
  encode_pairs-Paired zero [] w hk ok h room = record {
    state0 = 4096;
    state1 = 4096;
    writer = w;
    number = 0;
    count = 0;
    is_state0 = omega arith;
    is_state1 = omega arith;
    encodes = refl;
    holds = h;
    fits = omega arith;
    cap = refl;
    few = omega arith;
    decodes = λ r hr. refl;
  }
  encode_pairs-Paired zero (s ∷ src) w hk ok h room = absurd (omega arith)
  encode_pairs-Paired (suc k) [] w hk ok h room = absurd (omega arith)
  encode_pairs-Paired (suc k) (s ∷ []) w hk ok h room = absurd (omega arith)
  encode_pairs-Paired (suc k) (s0 ∷ s1 ∷ src) w hk ok h room =
      let c = encode_pairs-Paired k src w (omega arith) ok.1.1 h (omega arith) in
      let a =
        step_law params_12 t ht s1 c.state1 c.number c.count c.writer ok.1.0 c.is_state1 c.holds
          c.fits (omega (arith, c.few, c.cap)) in
      let b =
        step_law params_12 t ht s0 c.state0 a.number a.count a.writer ok.0 c.is_state0 a.holds
          a.fits (omega (arith, c.few, c.cap, a.few, a.cap)) in
      let guard : leb 4096 (u32 (a.state + 2 ^ 32 - 4096)) ≡ false = ground (arith, a.is_state) in
      record {
        state0 = b.state;
        state1 = a.state;
        writer = b.writer;
        number = b.number;
        count = b.count;
        is_state0 = b.is_state;
        is_state1 = a.is_state;
        encodes = rw (c.encodes, a.encodes, b.encodes) refl;
        holds = b.holds;
        fits = b.fits;
        cap = omega (arith, b.cap, a.cap, c.cap);
        few = omega (arith, b.few, a.few, c.few);
        decodes = λ r hr.
            let (r1, e1, h1) = b.decodes r hr in
            let (r2, e2, h2) = a.decodes r1 h1 in rw (guard, e1, e2, c.decodes r2 h2) refl;
      }

-- With a table that the builder accepts, an even number of bytes of positive frequency, at least two,
-- and room for 12 bits a byte: the encoder and the flush return, and the decoder gets the bytes back
-- from the stream and the two states.
pub decode_x2-encode_x2 :
    (t : Table) (k cap : ℕ) (src : List ℕ)
    → IsTable params_12 t
    → 0 < k
    → length src ≡ 2 * k
    → All (IsCodable t) src
    → 24 * k / 8 + 1 ≤ cap
    → (state0 : ℕ) × (state1 : ℕ) × (w : Writer) × (w' : Writer) × (encode_x2 t src
          (Writer.init cap)
        ≡ done (state0, state1, w))
      × (Writer.flush w ≡ some w')
      × (decode_x2 t (Reader.init w'.out) (2 * k) state0 state1 ≡ done src)
unfolding encode_x2 decode_x2
decode_x2-encode_x2 t k cap src ht some_pairs hk ok room =
    let v = (IsTable-IsBuilt params_12 t ht).valid in
    let c =
      encode_pairs-Paired t ht k src (Writer.init cap) hk ok (init-Holds cap)
        (omega (arith, init-cap)) in
    elim (Option-cases (Writer.flush c.writer)) [
      | inl short ↦ absurd (
          flush-room c.writer c.number c.count c.holds (omega (arith, c.few, c.cap, init-cap))
            short)
      | inr (w', f) ↦
          let (total, size, bytes, inside) = flush-sentinel c.writer c.number c.count c.holds f in
          let loaded = init-Loaded w'.out c.number c.count bytes size c.fits total in
          (
            c.state0,
            c.state1,
            c.writer,
            w',
            past _ _ _ (encoder_open v) ∙ c.encodes,
            f,
            past _ _ _ (decoder_open c.state0 c.state1 v c.is_state0 c.is_state1)
                ∙ past _ _ _ even
                ∙ ap (λ n. decode_pairs t n c.state0 c.state1 (Reader.init w'.out)) half
                ∙ c.decodes (Reader.init w'.out) loaded,
          )
    ]
  where
    init-cap : (Writer.init cap).cap ≡ cap
    init-cap = unfold Writer.init in refl

    even : (2 * k % 2 == 1) ≡ false
    even = ground arith

    half : 2 * k / 2 ≡ k
    half = omega arith

    encoder_open : t.valid ≡ true → (not t.valid || ltb (length src) 2) ≡ false
    encoder_open v = rw v (ground arith)

    decoder_open :
        (x0 x1 : ℕ)
        → t.valid ≡ true
        → IsState params_12 x0
        → IsState params_12 x1
        → (not t.valid || ltb (2 * k) 2 || bad_state params_12 x0 || bad_state params_12 x1) ≡ false
    decoder_open x0 x1 v h0 h1 =
        rw (v, state-good params_12 x0 h0, state-good params_12 x1 h1) (ground arith)
