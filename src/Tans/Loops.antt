-- ===== src/Tans/Loops.antt =====
-- The loops of the coders of src/algo/netc_tans.c, for any step that the decoder's step undoes.
use netc.Prelude.{ℕ, ◌+◌, ◌*◌, ◌/◌, ◌^◌, ◌≤◌, ◌<◌, ◌≡◌, refl, arith}
use netc.Prelude.{List, [], ◌∷◌, some, inl, inr, length, Option-cases}
use netc.Bitstream.Writer.{Writer}
use netc.Bitstream.Writer
use netc.Bitstream.Reader
use netc.Bitstream.Reader.{Reader, Outcome, done, ◌>>=◌}
use netc.Bitstream.Pushes.{Holds, init-Holds}
use netc.Bitstream.Flush.{flush-sentinel, flush-room}
use netc.Bitstream.Pops.{Loaded}
use netc.Bitstream.Opens.{init-Loaded}
use netc.Tans.Params.{Params}
use netc.Tans.Codec.{encode_loop, decode_loop}
use netc.Tans.Step.{IsState, Inverts}

-- Every symbol satisfies the predicate at its offset and after its predecessor.
abbrev pub AllAt : (ℕ → ℕ → ℕ → Type 0) → ℕ → ℕ → List ℕ → Type 0
AllAt Ok i prev [] = Unit
AllAt Ok i prev (sym ∷ src) = Ok i prev sym × AllAt Ok (i + 1) sym src

module _ (p : Params) (enc : ℕ → ℕ → ℕ → ℕ → Writer → Outcome (ℕ × Writer))
    (dec : ℕ → ℕ → ℕ → Reader → Outcome (ℕ × ℕ × Reader)) (Ok : ℕ → ℕ → ℕ → Type 0)
    (law : (i prev sym x v n : ℕ) (w : Writer)
      → Ok i prev sym
      → IsState p x
      → Holds w v n
      → v < 2 ^ n
      → (n + p.table_log) / 8 ≤ w.cap
      → Inverts p (enc i prev sym x w) (dec i prev) sym x w v n) where
  record Coded (i prev : ℕ) (src : List ℕ) (x : ℕ) (w : Writer) (n : ℕ) : Type 0 where
    state : ℕ
    writer : Writer
    number : ℕ
    count : ℕ
    is_state : IsState p state
    encodes : encode_loop enc i prev src x w ≡ done (state, writer)
    holds : Holds writer number count
    fits : number < 2 ^ count
    cap : writer.cap ≡ w.cap
    few : count ≤ n + length src * p.table_log
    decodes :
        (r : Reader)
        → Loaded r number count
        → decode_loop dec i prev (length src) state r ≡ done src

  encode_loop-Coded :
      (src : List ℕ) (i prev x v n : ℕ) (w : Writer)
      → AllAt Ok i prev src
      → IsState p x
      → Holds w v n
      → v < 2 ^ n
      → (n + length src * p.table_log) / 8 ≤ w.cap
      → Coded i prev src x w n
  unfolding encode_loop decode_loop
  encode_loop-Coded [] i prev x v n w ok hx h hv room = record {
    state = x;
    writer = w;
    number = v;
    count = n;
    is_state = hx;
    encodes = refl;
    holds = h;
    fits = hv;
    cap = refl;
    few = omega arith;
    decodes = λ r hr. refl;
  }
  encode_loop-Coded (sym ∷ src) i prev x v n w ok hx h hv room =
      let c = encode_loop-Coded src (i + 1) sym x v n w ok.1 hx h hv (omega arith) in
      let s =
        law i prev sym c.state c.number c.count c.writer ok.0 c.is_state c.holds c.fits
          (omega (arith, c.few, c.cap)) in
      record {
        state = s.state;
        writer = s.writer;
        number = s.number;
        count = s.count;
        is_state = s.is_state;
        encodes = rw c.encodes s.encodes;
        holds = s.holds;
        fits = s.fits;
        cap = omega (arith, s.cap, c.cap);
        few = omega (arith, s.few, c.few);
        decodes = λ r hr. let (r', e, hr') = s.decodes r hr in rw (e, c.decodes r' hr') refl;
      }

  -- A whole stream: encoded, flushed, and decoded from its bytes.
  pub loops_lem :
      (src : List ℕ) (x cap : ℕ)
      → AllAt Ok 0 0 src
      → IsState p x
      → length src * p.table_log / 8 + 1 ≤ cap
      → (state : ℕ) × (w : Writer) × (w' : Writer) × IsState p state
        × (encode_loop enc 0 0 src x (Writer.init cap) ≡ done (state, w))
        × (Writer.flush w ≡ some w')
        × (length w'.out ≤ length src * p.table_log / 8 + 1)
        × (decode_loop dec 0 0 (length src) state (Reader.init w'.out) ≡ done src)
  loops_lem src x cap ok hx room =
      let same : (Writer.init cap).cap ≡ cap = init-cap in
      let c =
        encode_loop-Coded src 0 0 x 0 0 (Writer.init cap) ok hx (init-Holds cap) (omega arith)
          (omega (arith, same)) in
      elim (Option-cases (Writer.flush c.writer)) [
        | inl failed ↦ absurd (
            flush-room c.writer c.number c.count c.holds (omega (arith, c.few, c.cap, same)) failed)
        | inr (w', f) ↦
            let (total, size, bytes, inside) = flush-sentinel c.writer c.number c.count c.holds f in
            (
              c.state,
              c.writer,
              w',
              c.is_state,
              c.encodes,
              f,
              omega (arith, size, c.few),
              c.decodes (Reader.init w'.out)
                  (init-Loaded w'.out c.number c.count bytes size c.fits total),
            )
      ]
    where
      init-cap : (Writer.init cap).cap ≡ cap
      init-cap = unfold Writer.init in refl
