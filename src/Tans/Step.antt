-- ===== src/Tans/Step.antt =====
-- One step of the coders of src/algo/netc_tans.c: an encoding and the decoding after it.
use netc.Prelude.{ℕ, ◌+◌, ◌-◌, ◌*◌, ◌/◌, ◌%◌, ◌^◌, ◌≤◌, ◌<◌, ◌≡◌, refl, ap, ap₂, arith, ◌∙◌, sym}
use netc.Prelude.{◌==◌, u32, if◌then◌else◌}
use netc.Prelude.{bit_and, bit_and_mask, pow-add, two-pow-pos, lt-mul_of_lt, parts-lt}
use netc.Bitstream.Writer.{Writer, write}
use netc.Bitstream.Reader.{Reader, Outcome, done, read}
use netc.Bitstream.Pushes.{Holds, write-pushes}
use netc.Bitstream.Pops.{Loaded, read-pops}
use netc.Tans.Params.{Params, table_size, symbols}
use netc.Tans.Table.{Table, decode_entry, encode_entry, floor_log2_u32}
use netc.Tans.Log.{
  IsLog, floor_log2_u32-IsLog, IsLog-le, IsLog-unique, flush_bits, IsStep, flush_bits-IsStep,
}
use netc.Tans.Spread.{below, slot, slot-lt}
use netc.Tans.Built.{IsNormalized, IsBuilt, freq-le, cumul-is, occurrence-lt}
use netc.Tans.Codec.{encode_step, encode_step_checked, decode_step, from_option}
use native.Mathlib.Nat.{
  pow-le-pow_right, add-zero, div-add-mod', mod-lt, mod-eq_of_lt, div-lt_iff_lt-mul,
}
use native.Mathlib.Decide.{ℕ_discrete}
use mathlib.Core.Path.{subst}

-- A state of the coder.
abbrev pub IsState : Params → ℕ → Type 0
IsState p x = (table_size p ≤ x) × (x < 2 * table_size p)

-- `enc` has coded symbol `s` from state `x`, on top of the stack of `n` bits whose number is `v`, and `dec`
-- gives back the symbol, the state and the stack.
pub record Inverts (p : Params) (enc : Outcome (ℕ × Writer))
    (dec : ℕ → Reader → Outcome (ℕ × ℕ × Reader)) (s x : ℕ) (w : Writer) (v n : ℕ) : Type 0 where
  pub state : ℕ
  pub writer : Writer
  pub number : ℕ
  pub count : ℕ
  pub is_state : IsState p state
  pub encodes : enc ≡ done (state, writer)
  pub holds : Holds writer number count
  pub fits : number < 2 ^ count
  pub cap : writer.cap ≡ w.cap
  pub few : count ≤ n + p.table_log
  pub decodes :
      (r : Reader)
      → Loaded r number count
      → (r' : Reader) × (dec state r ≡ done (s, x, r')) × Loaded r' v n

module _ (p : Params) (freq : ℕ → ℕ) (norm : IsNormalized p freq) where
  abbrev pub log_of : ℕ → ℕ
  log_of s = floor_log2_u32 (freq s)

  size-le : table_size p ≤ 2 ^ 14
  size-le = pow-le-pow_right {n = 2} (omega arith) p.small

  freq-IsLog :
      (s : ℕ) → s < symbols → 0 < freq s → IsLog (freq s) (log_of s) × (log_of s ≤ p.table_log)
  freq-IsLog s hs hf =
      let le = freq-le p freq norm s hs in
      let log = floor_log2_u32-IsLog (freq s) hf (omega (arith, size-le)) in
      (log, IsLog-le (freq s) (log_of s) p.table_log log (omega arith))

  -- `f << (LOG - fl)` stays below twice the table size.
  scaled-lt :
      (f fl : ℕ) → IsLog f fl → fl ≤ p.table_log → f * 2 ^ (p.table_log - fl) < 2 * table_size p
  scaled-lt f fl log le =
      let whole : 2 * table_size p ≡ 2 ^ (fl + 1) * 2 ^ (p.table_log - fl) =
        omega (arith, pow-add p.table_log 1)
        ∙ ap (λ (t : ℕ). 2 ^ t) {x = p.table_log + 1} (omega arith)
        ∙ pow-add (fl + 1) (p.table_log - fl) in
      rw whole (
        lt-mul_of_lt f (2 ^ (fl + 1)) (2 ^ (p.table_log - fl)) log.1
          (two-pow-pos (p.table_log - fl)))

  -- The entries with no cast left.
  encode_entry_lem :
      (s : ℕ)
      → s < symbols
      → 0 < freq s
      → encode_entry p freq s ≡ record {
        freq = freq s;
        lower = freq s * 2 ^ (p.table_log - log_of s);
        cumul = below freq s;
        nb_hi = p.table_log - log_of s;
      }
  unfolding encode_entry
  encode_entry_lem s hs hf =
      let (log, le) = freq-IsLog s hs hf in
      ground (
        arith,
        size-le,
        freq-le p freq norm s hs,
        scaled-lt (freq s) (log_of s) log le,
        cumul-is p freq norm s hs,
        p.small,
      )

  decode_entry_lem :
      (s k fl : ℕ)
      → s < symbols
      → k < freq s
      → IsLog (freq s + k) fl
      → fl ≤ p.table_log
      → decode_entry p freq s k ≡ record {
        symbol = s;
        nb_bits = p.table_log - fl;
        next_state_base = (freq s + k) * 2 ^ (p.table_log - fl);
      }
  unfolding decode_entry
  decode_entry_lem s k fl hs hk log le =
      let same : floor_log2_u32 (freq s + k) ≡ fl =
        IsLog-unique (freq s + k) (floor_log2_u32 (freq s + k)) fl
          (floor_log2_u32-IsLog (freq s + k) (omega arith)
            (omega (arith, size-le, freq-le p freq norm s hs)))
          log in
      let fits = scaled-lt (freq s + k) fl log le in
      rw same (ground (arith, size-le, fits, p.small))

  -- The step for symbol `s` from state `x`: its frequency's logarithm, the bits it moves to the stream,
  -- and the occurrence it lands on.
  abbrev pub moved : ℕ → ℕ → ℕ
  moved s x = flush_bits (p.table_log - log_of s) (freq s * 2 ^ (p.table_log - log_of s)) x

  abbrev pub landing : ℕ → ℕ → ℕ
  landing s x = x / 2 ^ moved s x - freq s

  abbrev pub target : ℕ → ℕ → ℕ
  target s x = table_size p + slot p freq (below freq s + landing s x)

  state-IsLog : (x : ℕ) → IsState p x → IsLog x p.table_log
  state-IsLog x (lo, hi) = (lo, omega (arith, pow-add p.table_log 1))

  pub moved-IsStep :
      (s x : ℕ) → s < symbols → 0 < freq s → IsState p x → IsStep p.table_log (freq s) x (moved s x)
  moved-IsStep s x hs hf hx =
      flush_bits-IsStep p.table_log (freq s) x (log_of s) (freq-IsLog s hs hf).0
        (omega (arith, freq-le p freq norm s hs)) (state-IsLog x hx)

  mod_one : (x : ℕ) → x % 2 ^ 0 ≡ 0
  mod_one x = omega arith

  -- A write of the `nb` low bits of the state, skipped for no bits.
  low_bits :
      (w : Writer) (v n x nb : ℕ)
      → Holds w v n
      → nb ≤ p.table_log
      → (n + p.table_log) / 8 ≤ w.cap
      → (w' : Writer) × ((if nb == 0
            then done w
            else from_option (write w (bit_and x (2 ^ nb - 1)) nb))
          ≡ done w')
        × Holds w' (v + x % 2 ^ nb * 2 ^ n) (n + nb)
        × (w'.cap ≡ w.cap)
  low_bits w v n x nb h le room = elim (ℕ_discrete nb 0) [
    | yes z ↦
        let nothing : v + x % 2 ^ 0 * 2 ^ n ≡ v = rw (mod_one x) (omega arith) in
        subst
          (λ k.
            (w' : Writer) × ((if k == 0
                then done w
                else from_option (write w (bit_and x (2 ^ k - 1)) k))
              ≡ done w')
            × Holds w' (v + x % 2 ^ k * 2 ^ n) (n + k)
            × (w'.cap ≡ w.cap))
          (sym z) (w, refl, rw (nothing, add-zero) h, refl)
    | no nz ↦
        let (w', e, h', c) =
          write-pushes w v n (x % 2 ^ nb) nb h (omega (arith, p.small)) (mod-lt x (two-pow-pos nb))
            (omega arith) in
        (w', rw (bit_and_mask nb x) (ground (arith, e)), h', c)
  ]

  -- A read of the bits that `low_bits` wrote.
  high_bits :
      (r : Reader) (v n x nb : ℕ)
      → Loaded r (v + x % 2 ^ nb * 2 ^ n) (n + nb)
      → nb ≤ p.table_log
      → v < 2 ^ n
      → (r' : Reader) × (Path
          (Outcome (ℕ × Reader))
          (if nb == 0 then done (0, r) else read r nb)
          (done (x % 2 ^ nb, r')))
        × Loaded r' v n
  high_bits r v n x nb h le hv = elim (ℕ_discrete nb 0) [
    | yes z ↦
        let nothing : v + x % 2 ^ 0 * 2 ^ n ≡ v = rw (mod_one x) (omega arith) in
        subst
          (λ k.
            Loaded r (v + x % 2 ^ k * 2 ^ n) (n + k)
            → (r' : Reader) × (Path (Outcome (ℕ × Reader))
                (if k == 0 then done (0, r) else read r k) (done (x % 2 ^ k, r')))
              × Loaded r' v n)
          (sym z) (λ h0. (r, rw (mod_one x) refl, rw (nothing, add-zero) at h0)) h
    | no nz ↦
        let (r', e, h') =
          read-pops r v n (x % 2 ^ nb) nb (omega arith) (omega (arith, p.small))
            (mod-lt x (two-pow-pos nb)) hv h in
        (r', ground (arith, e), h')
  ]

  module _ (t : Table) (b : IsBuilt p freq t) where
    pub encode_step_lem :
        (s x v n : ℕ) (w : Writer)
        → s < symbols
        → 0 < freq s
        → IsState p x
        → Holds w v n
        → (n + p.table_log) / 8 ≤ w.cap
        → (w' : Writer) × (encode_step p t s x w ≡ done (target s x, w'))
          × Holds w' (v + x % 2 ^ moved s x * 2 ^ n) (n + moved s x)
          × (w'.cap ≡ w.cap)
    unfolding encode_step
    encode_step_lem s x v n w hs hf hx h room =
        let st = moved-IsStep s x hs hf hx in
        let (w', e, h', c) = low_bits w v n x (moved s x) h st.few room in
        let inside : below freq s + landing s x < table_size p =
          occurrence-lt p freq norm s (landing s x) hs (omega (arith, st.most, st.least)) in
        let index : u32 (below freq s + u32 (x / 2 ^ moved s x + 2 ^ 32 - freq s))
            ≡ below freq s + landing s x =
          omega (arith, st.least, size-le) in
        (
          w',
          rw (b.encodes s, encode_entry_lem s hs hf, e, index) (ground (arith, b.states _ inside)),
          h',
          c,
        )

    -- The entry of the slot that a step lands on.
    entry_at :
        (s x : ℕ)
        → s < symbols
        → 0 < freq s
        → IsState p x
        → t.decode (slot p freq (below freq s + landing s x)) ≡ record {
          symbol = s;
          nb_bits = moved s x;
          next_state_base = x / 2 ^ moved s x * 2 ^ moved s x;
        }
    entry_at s x hs hf hx =
        let st = moved-IsStep s x hs hf hx in
        let j = landing s x in
        let hj : j < freq s = omega (arith, st.most, st.least) in
        let back : freq s + j ≡ x / 2 ^ moved s x = omega (arith, st.least) in
        b.decodes s j hs hj
        ∙ decode_entry_lem s j (p.table_log - moved s x) hs hj
            (subst (λ y. IsLog y (p.table_log - moved s x)) (sym back) st.log_is) (omega arith)
        ∙ ap₂ (λ k y. record { symbol = s; nb_bits = k; next_state_base = y * 2 ^ k })
            (omega (arith, st.few)) back

    pub decode_step_lem :
        (s x v n : ℕ) (r : Reader)
        → s < symbols
        → 0 < freq s
        → IsState p x
        → v < 2 ^ n
        → Loaded r (v + x % 2 ^ moved s x * 2 ^ n) (n + moved s x)
        → (r' : Reader) × (decode_step p t (target s x) r ≡ done (s, x, r')) × Loaded r' v n
    unfolding decode_step
    decode_step_lem s x v n r hs hf hx hv h =
        let st = moved-IsStep s x hs hf hx in
        let j = landing s x in
        let hj : j < freq s = omega (arith, st.most, st.least) in
        let at : u32 (target s x + 2 ^ 32 - table_size p) ≡ slot p freq (below freq s + j) =
          omega (arith, slot-lt p freq (below freq s + j), size-le) in
        let back : freq s + j ≡ x / 2 ^ moved s x = omega (arith, st.least) in
        let entry = entry_at s x hs hf hx in
        let whole : u32 (x / 2 ^ moved s x * 2 ^ moved s x + x % 2 ^ moved s x) ≡ x =
          omega (arith, div-add-mod' x (2 ^ moved s x), hx, size-le) in
        let (r', e, h') = high_bits r v n x (moved s x) h st.few hv in
        (r', rw (at, entry, e, whole) (ground (arith, slot-lt p freq (below freq s + j))), h')

    pub target-IsState : (s x : ℕ) → IsState p (target s x)
    target-IsState s x = omega (arith, slot-lt p freq (below freq s + landing s x))

    -- A step of the encoder on a symbol of positive frequency, and the step of the decoder after it.
    pub encode_step-Inverts :
        (s x v n : ℕ) (w : Writer)
        → s < symbols
        → 0 < freq s
        → IsState p x
        → Holds w v n
        → v < 2 ^ n
        → (n + p.table_log) / 8 ≤ w.cap
        → Inverts p (encode_step p t s x w) (decode_step p t) s x w v n
    encode_step-Inverts s x v n w hs hf hx h hv room =
        let (w', e, h', c) = encode_step_lem s x v n w hs hf hx h room in
        let nb = moved s x in
        record {
          state = target s x;
          writer = w';
          number = v + x % 2 ^ nb * 2 ^ n;
          count = n + nb;
          is_state = target-IsState s x;
          encodes = e;
          holds = h';
          fits = omega (
            arith,
            pow-add n nb,
            parts-lt (x % 2 ^ nb) (2 ^ nb) v (2 ^ n) (mod-lt x (two-pow-pos nb)) hv,
          );
          cap = c;
          few = omega (arith, (moved-IsStep s x hs hf hx).few);
          decodes = λ r. decode_step_lem s x v n r hs hf hx hv;
        }

    -- The check for an absent symbol changes nothing on a present one.
    pub encode_step_checked-eq :
        (s x : ℕ) (w : Writer)
        → s < symbols
        → 0 < freq s
        → encode_step_checked p t s x w ≡ encode_step p t s x w
    unfolding encode_step_checked
    encode_step_checked-eq s x w hs hf = rw (b.encodes s, encode_entry_lem s hs hf) (ground arith)

    -- The decoder's step on any stack with enough bits: the symbol does not hang on the bits.
    pub decode_step_any :
        (s x v n : ℕ) (r : Reader)
        → s < symbols
        → 0 < freq s
        → IsState p x
        → v < 2 ^ (n + moved s x)
        → Loaded r v (n + moved s x)
        → (y : ℕ) × (r' : Reader) × (decode_step p t (target s x) r ≡ done (s, y, r'))
          × Loaded r' (v % 2 ^ n) n
    unfolding decode_step
    decode_step_any s x v n r hs hf hx hv h =
        let nb = moved s x in
        let st = moved-IsStep s x hs hf hx in
        let j = landing s x in
        let hj : j < freq s = omega (arith, st.most, st.least) in
        let at : u32 (target s x + 2 ^ 32 - table_size p) ≡ slot p freq (below freq s + j) =
          omega (arith, slot-lt p freq (below freq s + j), size-le) in
        let top = v / 2 ^ n in
        let top_fits : top < 2 ^ nb =
          (div-lt_iff_lt-mul (two-pow-pos n)).1 (omega (arith, pow-add n nb)) in
        let split : v ≡ v % 2 ^ n + top % 2 ^ nb * 2 ^ n =
          omega
            (arith, div-add-mod' v (2 ^ n), ap (λ (u : ℕ). u * 2 ^ n) (mod-eq_of_lt top_fits)) in
        let loaded = subst (λ u. Loaded r u (n + nb)) split h in
        let (r', e, h') =
          high_bits r (v % 2 ^ n) n top nb loaded st.few (mod-lt v (two-pow-pos n)) in
        (
          u32 (x / 2 ^ nb * 2 ^ nb + top % 2 ^ nb),
          r',
          rw (at, entry_at s x hs hf hx, e) (ground (arith, slot-lt p freq (below freq s + j))),
          h',
        )
