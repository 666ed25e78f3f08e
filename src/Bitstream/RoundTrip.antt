-- ===== src/Bitstream/RoundTrip.antt =====
-- A whole stream of src/util/netc_bitstream.h, written with `netc_bsw_write` and read with `netc_bsr_read`.
use netc.Prelude.{ℕ, ◌+◌, ◌*◌, ◌^◌, ◌≤◌, ◌<◌, ◌≡◌, refl, arith, ◌∙◌}
use netc.Prelude.{List, [], ◌∷◌, Option, some, All, parts-lt, pow-add}
use netc.Prelude.Fallible
use netc.Bitstream.Writer
use netc.Bitstream.Writer.{Writer}
use netc.Bitstream.Reader
use netc.Bitstream.Reader.{Reader, Outcome, done, ◌>>=◌}
use netc.Bitstream.Pushes.{Holds, init-Holds, write-pushes}
use netc.Bitstream.Flush.{flush-sentinel, flush-room}
use netc.Bitstream.Opens.{init-Loaded}
use netc.Bitstream.Pops.{Loaded, read-pops}
use netc.Prelude.{◌/◌, length, inl, inr, Option-cases}

-- A field is a value with its width in bits.
abbrev pub Field : Type 0
Field = ℕ × ℕ

abbrev pub IsField : Field → Type 0
IsField f = (1 ≤ f.1) × (f.1 ≤ 32) × (f.0 < 2 ^ f.1)

-- A caller's writes, the last of the list first, as the tANS encoder makes them.
pub write_fields : List Field → Writer → Option Writer
write_fields [] w = some w
write_fields (f ∷ fs) w = Fallible.◌>>=◌ (write_fields fs w) (λ w'. Writer.write w' f.0 f.1)

-- A caller's reads of fields with the given widths, the first of the list first.
pub read_fields : List Field → Reader → Outcome (List ℕ)
read_fields [] r = done []
read_fields (f ∷ fs) r = do (x, r') ← Reader.read r f.1; xs ← read_fields fs r'; done (x ∷ xs)

pub values : List Field → List ℕ
values [] = []
values (f ∷ fs) = f.0 ∷ values fs

-- The number that the fields make, and the bits in it, above a stack of `n` bits.
abbrev stacked : List Field → ℕ → ℕ → ℕ × ℕ
stacked [] v n = (v, n)
stacked (f ∷ fs) v n = ((stacked fs v n).0 + f.0 * 2 ^ (stacked fs v n).1, (stacked fs v n).1 + f.1)

stacked-lt :
    (fs : List Field) (v n : ℕ)
    → All IsField fs
    → v < 2 ^ n
    → (stacked fs v n).0 < 2 ^ (stacked fs v n).1
stacked-lt [] v n hf hv = hv
stacked-lt (f ∷ fs) v n hf hv =
    let below = stacked-lt fs v n hf.1 hv in
    let (s, m) = stacked fs v n in
    omega (
      arith,
      pow-add (stacked fs v n).1 f.1,
      parts-lt f.0 (2 ^ f.1) (stacked fs v n).0 (2 ^ (stacked fs v n).1) hf.0.2 below,
    )

write_fields-Holds :
    (fs : List Field) (w : Writer) (v n : ℕ)
    → All IsField fs
    → Holds w v n
    → (stacked fs v n).1 / 8 ≤ w.cap
    → (w' : Writer) × (write_fields fs w ≡ some w')
      × Holds w' (stacked fs v n).0 (stacked fs v n).1
      × (w'.cap ≡ w.cap)
unfolding write_fields
write_fields-Holds [] w v n hf h room = (w, refl, h, refl)
write_fields-Holds (f ∷ fs) w v n hf h room =
    let (w1, e1, h1, c1) = write_fields-Holds fs w v n hf.1 h (omega arith) in
    let (w2, e2, h2, c2) =
      write-pushes w1 (stacked fs v n).0 (stacked fs v n).1 f.0 f.1 h1 hf.0.1 hf.0.2
        (omega (arith, c1)) in
    (w2, rw (e1, e2), h2, c2 ∙ c1)

read_fields-values :
    (fs : List Field) (r : Reader) (v n : ℕ)
    → All IsField fs
    → v < 2 ^ n
    → Loaded r (stacked fs v n).0 (stacked fs v n).1
    → read_fields fs r ≡ done (values fs)
unfolding read_fields values
read_fields-values [] r v n hf hv h = refl
read_fields-values (f ∷ fs) r v n hf hv h =
    let (r', e, h') =
      read-pops r (stacked fs v n).0 (stacked fs v n).1 f.0 f.1 hf.0.0 hf.0.1 hf.0.2
        (stacked-lt fs v n hf.1 hv) h in
    rw (e, read_fields-values fs r' v n hf.1 hv h')

-- The number of bits in the fields.
abbrev pub width : List Field → ℕ
width fs = (stacked fs 0 0).1

-- Fields of 1 to 32 bits, each a number that fits its width, that with the sentinel bit fit the
-- buffer: every write and the flush succeed, the stream has the fewest bytes that hold the fields
-- and the sentinel, and a reader opened on it reads the fields back, the one written last first.
pub read_fields-write_fields :
    (fs : List Field) (cap : ℕ)
    → All IsField fs
    → width fs / 8 + 1 ≤ cap
    → (w w' : Writer) × (write_fields fs (Writer.init cap) ≡ some w)
      × (Writer.flush w ≡ some w')
      × (length w'.out ≡ width fs / 8 + 1)
      × (read_fields fs (Reader.init w'.out) ≡ done (values fs))
read_fields-write_fields fs cap hf room =
    let (w, e, h, c) =
      write_fields-Holds fs (Writer.init cap) 0 0 hf (init-Holds cap) (rw init-cap (omega arith)) in
    elim (Option-cases (Writer.flush w)) [
      | inl failed ↦ absurd (flush-room w _ _ h (rw (c, init-cap) room) failed)
      | inr (w', f) ↦
          let (total, size, bytes, inside) = flush-sentinel w _ _ h f in
          (
            w,
            w',
            e,
            f,
            size,
            read_fields-values fs (Reader.init w'.out) 0 0 hf (omega arith)
                (init-Loaded w'.out _ _ bytes size (stacked-lt fs 0 0 hf (omega arith)) total),
          )
    ]
  where
    init-cap : (Writer.init cap).cap ≡ cap
    init-cap = unfold Writer.init in refl
