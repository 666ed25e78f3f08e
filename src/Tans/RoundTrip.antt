-- ===== src/Tans/RoundTrip.antt =====
-- Whole streams of the coders of src/algo/netc_tans.c with one state, from the frequency table to the bytes
-- of the stream and back.
use netc.Prelude.{ℕ, ◌+◌, ◌*◌, ◌/◌, ◌^◌, ◌≤◌, ◌<◌, ◌≡◌, refl, arith, ◌∙◌, sym}
use netc.Prelude.{List, [], ◌∷◌, some, length, Bool, true, false, ◌==◌}
use netc.Prelude.{All, if◌then◌else◌, ◌||◌, not}
use netc.Bitstream.Writer.{Writer}
use netc.Bitstream.Writer
use netc.Bitstream.Reader
use netc.Bitstream.Reader.{Reader, Outcome, done, failed}
use netc.Bitstream.Pushes.{Holds}
use netc.Tans.Params.{Params, params_12, params_10, table_size}
use netc.Tans.Table.{Table, build, encode_entry}
use netc.Tans.Built.{IsNormalized, IsBuilt, build-IsBuilt}
use netc.Tans.Codec.{encode_step, encode_step_checked, decode_step}
use netc.Tans.Codec.{encode, decode, encode_10, decode_10}
use netc.Tans.Codec.{start_state, bad_state, is_empty}
use netc.Tans.Step.{IsState, Inverts, encode_step-Inverts, encode_step_checked-eq}
use netc.Tans.Loops.{AllAt, loops_lem}
use mathlib.Core.Path.{subst}
use mathlib.Core.Option.{some-injective}

-- A table that the builder accepts.
abbrev pub IsTable : Params → Table → Type 0
IsTable p t = (freq : ℕ → ℕ) × IsNormalized p freq × (build p freq ≡ some t)

-- A byte that has a positive frequency in the table.
abbrev pub IsCodable : Table → ℕ → Type 0
IsCodable t s = (s < 256) × (0 < (t.encode s).freq)

-- The encoder `enc` and the flush return, the stream has at most `table_log` bits for each symbol, and
-- `dec`, on a reader opened on the bytes and with the encoder's state, returns the symbols.
abbrev pub RoundTrips :
    Params → (Writer → Outcome (ℕ × Writer)) → (Reader → ℕ → Outcome (List ℕ)) → List ℕ → ℕ → Type 0
RoundTrips p enc dec src cap =
    (state : ℕ) × (w : Writer) × (w' : Writer) × (enc (Writer.init cap) ≡ done (state, w))
    × (Writer.flush w ≡ some w')
    × (length w'.out ≤ length src * p.table_log / 8 + 1)
    × (dec (Reader.init w'.out) state ≡ done src)

pub IsTable-IsBuilt : (p : Params) (t : Table) (h : IsTable p t) → IsBuilt p h.0 t
IsTable-IsBuilt p t (freq, norm, e) =
    let (t', e', b) = build-IsBuilt p freq norm in
    subst (IsBuilt p freq) (some-injective t' t (sym e' ∙ e)) b

pub codable-freq :
    (p : Params) (freq : ℕ → ℕ) (t : Table) (s : ℕ)
    → IsBuilt p freq t
    → 0 < (t.encode s).freq
    → 0 < freq s
unfolding encode_entry
codable-freq p freq t s b h = let h' = rw (b.encodes s) at h in ground (arith, h')

pub step_law :
    (p : Params) (t : Table)
    → IsTable p t
    → (sym x v n : ℕ) (w : Writer) → IsCodable t sym
    → IsState p x
    → Holds w v n
    → v < 2 ^ n
    → (n + p.table_log) / 8 ≤ w.cap
    → Inverts p (encode_step p t sym x w) (decode_step p t) sym x w v n
step_law p t ht sym x v n w ok hx h hv room =
    let b = IsTable-IsBuilt p t ht in
    encode_step-Inverts p ht.0 ht.1 t b sym x v n w ok.0 (codable-freq p ht.0 t sym b ok.1) hx h hv
      room

pub checked_law :
    (p : Params) (t : Table)
    → IsTable p t
    → (sym x v n : ℕ) (w : Writer) → IsCodable t sym
    → IsState p x
    → Holds w v n
    → v < 2 ^ n
    → (n + p.table_log) / 8 ≤ w.cap
    → Inverts p (encode_step_checked p t sym x w) (decode_step p t) sym x w v n
checked_law p t ht sym x v n w ok hx h hv room =
    let b = IsTable-IsBuilt p t ht in
    rw (encode_step_checked-eq p ht.0 ht.1 t b sym x w ok.0 (codable-freq p ht.0 t sym b ok.1))
      (step_law p t ht sym x v n w ok hx h hv room)

All-AllAt :
    (P : ℕ → Type 0) (src : List ℕ) (i prev : ℕ)
    → All P src
    → AllAt (λ i prev sym. P sym) i prev src
All-AllAt P [] i prev h = h
All-AllAt P (sym ∷ src) i prev h = (h.0, All-AllAt P src (i + 1) sym h.1)

pub start_state-IsState : (p : Params) (x : ℕ) → x < 2 * table_size p → IsState p (start_state p x)
start_state-IsState p x h = ground arith

pub state-good : (p : Params) (x : ℕ) → IsState p x → bad_state p x ≡ false
state-good p x h = ground arith

-- The guards let a valid table, a nonempty input and a state of the coder through.
pub past : {A : Type 0} (b : Bool) (stop a : Outcome A) → b ≡ false → (if b then stop else a) ≡ a
past b stop a e = rw e refl

pub is_empty-false : (src : List ℕ) → 0 < length src → is_empty src ≡ false
is_empty-false [] h = absurd (omega arith)
is_empty-false (x ∷ src) h = refl

pub encoder_guard :
    (t : Table) (src : List ℕ)
    → t.valid ≡ true
    → 0 < length src
    → (not t.valid || is_empty src) ≡ false
encoder_guard t src v h = rw (v, is_empty-false src h) refl

pub count_guard :
    (p : Params) (n state : ℕ) → 0 < n → IsState p state → (n == 0 || bad_state p state) ≡ false
count_guard p n state h hs = ground arith

pub decoder_guard :
    (p : Params) (t : Table) (n state : ℕ)
    → t.valid ≡ true
    → 0 < n
    → IsState p state
    → (not t.valid || n == 0 || bad_state p state) ≡ false
decoder_guard p t n state v h hs = rw (v, count_guard p n state h hs) refl

-- With a table that the builder accepts, one or more bytes of positive frequency, a first state below 8192
-- and room for 12 bits a byte, the encoder's stream decodes to the bytes.
pub encode-RoundTrips :
    (t : Table) (src : List ℕ) (initial_state cap : ℕ)
    → IsTable params_12 t
    → 0 < length src
    → All (IsCodable t) src
    → initial_state < 2 * 4096
    → length src * 12 / 8 + 1 ≤ cap
    → RoundTrips params_12
        (λ w. encode t src w initial_state)
        (λ r state. decode t r (length src) state)
        src
        cap
unfolding encode decode
encode-RoundTrips t src initial_state cap ht some_bytes ok hx room =
    let v = (IsTable-IsBuilt params_12 t ht).valid in
    let (state, w, w', good, e, f, size, d) =
      loops_lem params_12 (λ i prev. encode_step params_12 t) (λ i prev. decode_step params_12 t)
        (λ i prev. IsCodable t) (λ i prev. step_law params_12 t ht) src
        (start_state params_12 initial_state) cap (All-AllAt (IsCodable t) src 0 0 ok)
        (start_state-IsState params_12 initial_state hx) room in
    (
      state,
      w,
      w',
      past _ _ _ (encoder_guard t src v some_bytes) ∙ e,
      f,
      size,
      past _ _ _ (decoder_guard params_12 t (length src) state v some_bytes good) ∙ d,
    )

-- The same for the 10-bit tables, a first state below 2048 and room for 10 bits a byte.
pub encode_10-RoundTrips :
    (t : Table) (src : List ℕ) (initial_state cap : ℕ)
    → IsTable params_10 t
    → 0 < length src
    → All (IsCodable t) src
    → initial_state < 2 * 1024
    → length src * 10 / 8 + 1 ≤ cap
    → RoundTrips params_10
        (λ w. encode_10 t src w initial_state)
        (λ r state. decode_10 t r (length src) state)
        src
        cap
unfolding encode_10 decode_10
encode_10-RoundTrips t src initial_state cap ht some_bytes ok hx room =
    let v = (IsTable-IsBuilt params_10 t ht).valid in
    let (state, w, w', good, e, f, size, d) =
      loops_lem params_10 (λ i prev. encode_step_checked params_10 t)
        (λ i prev. decode_step params_10 t) (λ i prev. IsCodable t)
        (λ i prev. checked_law params_10 t ht) src (start_state params_10 initial_state) cap
        (All-AllAt (IsCodable t) src 0 0 ok) (start_state-IsState params_10 initial_state hx)
        room in
    (
      state,
      w,
      w',
      past _ _ _ (encoder_guard t src v some_bytes) ∙ e,
      f,
      size,
      past _ _ _ (decoder_guard params_10 t (length src) state v some_bytes good) ∙ d,
    )
