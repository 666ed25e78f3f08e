-- ===== src/Tans/PerContext.antt =====
-- Whole streams of the coders of src/algo/netc_tans.c that choose a table by the offset of a byte
-- and the byte before it: `netc_tans_encode_pctx`, `netc_tans_encode_pctx_bigram` and their decoders.
use netc.Prelude.{ℕ, ◌+◌, ◌*◌, ◌/◌, ◌^◌, ◌≤◌, ◌<◌, ◌≡◌, refl, ◌∙◌, sym}
use netc.Prelude.{List, Option, ◌⊎◌, inl, inr, length, false, ◌==◌}
use netc.Prelude.{if◌then◌else◌, ◌||◌, not}
use netc.Bitstream.Writer.{Writer}
use netc.Bitstream.Reader.{Reader, Outcome, failed}
use netc.Prelude.{arith, if-false, leb}
use netc.Bitstream.Pushes.{Holds}
use netc.Tans.Params.{params_12}
use netc.Tans.Table.{Table}
use netc.Tans.Buckets.{ctx_bucket, bigram_class, ctx_bucket-lt}
use netc.Tans.Codec.{encode_loop, decode_loop}
use netc.Tans.Codec.{encode_pctx, decode_pctx}
use netc.Tans.Codec.{
  bigram_ctx_count, bigram_encode, bigram_decode, picked_encode, picked_decode, bigram_table,
  encode_pctx_bigram, decode_pctx_bigram, start_state, bad_state, is_empty,
}
use netc.Tans.Step.{IsState, Inverts}
use netc.Tans.Loops.{AllAt, loops_lem}
use mathlib.Core.Path.{subst}
use netc.Tans.RoundTrip.{
  IsTable, IsCodable, RoundTrips, IsTable-IsBuilt, checked_law, past, is_empty-false, count_guard,
  start_state-IsState,
}

-- The coders that choose the table by the offset and the byte before it.
module _ (pick : ℕ → ℕ → Table) (ht : (i prev : ℕ) → IsTable params_12 (pick i prev)) where
  picked_law :
      (i prev sym x v n : ℕ) (w : Writer)
      → IsCodable (pick i prev) sym
      → IsState params_12 x
      → Holds w v n
      → v < 2 ^ n
      → (n + 12) / 8 ≤ w.cap
      → Inverts params_12
          (picked_encode pick i prev sym x w)
          (picked_decode pick i prev)
          sym
          x
          w
          v
          n
  picked_law i prev sym x v n w ok hx h hv room =
      let t = pick i prev in
      let valid : not t.valid ≡ false = rw (IsTable-IsBuilt params_12 t (ht i prev)).valid refl in
      let law = checked_law params_12 t (ht i prev) sym x v n w ok hx h hv room in
      record {
        state = law.state;
        writer = law.writer;
        number = law.number;
        count = law.count;
        is_state = law.is_state;
        holds = law.holds;
        fits = law.fits;
        cap = law.cap;
        few = law.few;
        encodes = past _ _ _ valid ∙ law.encodes;
        decodes = λ r hr. let (r', e, hr') = law.decodes r hr in (r', past _ _ _ valid ∙ e, hr');
      }

-- Whole streams of coders whose steps undo each other, behind the guards of the entry points.
module _ (enc : ℕ → ℕ → ℕ → ℕ → Writer → Outcome (ℕ × Writer))
    (dec : ℕ → ℕ → ℕ → Reader → Outcome (ℕ × ℕ × Reader)) (Ok : ℕ → ℕ → ℕ → Type 0)
    (law : (i prev sym x v n : ℕ) (w : Writer)
      → Ok i prev sym
      → IsState params_12 x
      → Holds w v n
      → v < 2 ^ n
      → (n + 12) / 8 ≤ w.cap
      → Inverts params_12 (enc i prev sym x w) (dec i prev) sym x w v n) where
  guarded_lem :
      (src : List ℕ) (initial_state cap : ℕ)
      → 0 < length src
      → AllAt Ok 0 0 src
      → initial_state < 2 * 4096
      → length src * 12 / 8 + 1 ≤ cap
      → RoundTrips params_12
          (λ w.
            if is_empty src
            then failed
            else encode_loop enc 0 0 src (start_state params_12 initial_state) w)
          (λ r state.
            if length src == 0 || bad_state params_12 state
            then failed
            else decode_loop dec 0 0 (length src) state r)
          src
          cap
  guarded_lem src initial_state cap some_bytes ok hx room =
      let (state, w, w', good, e, f, size, d) =
        loops_lem params_12 enc dec Ok law src (start_state params_12 initial_state) cap ok
          (start_state-IsState params_12 initial_state hx) room in
      (
        state,
        w,
        w',
        past _ _ _ (is_empty-false src some_bytes) ∙ e,
        f,
        size,
        past _ _ _ (count_guard params_12 (length src) state some_bytes good) ∙ d,
      )

-- The same with a table for each bucket of offsets, for bytes that have a positive frequency in the
-- table of their bucket.
pub encode_pctx-RoundTrips :
    (tables : ℕ → Table) (src : List ℕ) (initial_state cap : ℕ)
    → ((b : ℕ) → b < 16 → IsTable params_12 (tables b))
    → 0 < length src
    → AllAt (λ i prev. IsCodable (tables (ctx_bucket i))) 0 0 src
    → initial_state < 2 * 4096
    → length src * 12 / 8 + 1 ≤ cap
    → RoundTrips params_12
        (λ w. encode_pctx tables src w initial_state)
        (λ r state. decode_pctx tables r (length src) state)
        src
        cap
unfolding encode_pctx decode_pctx
encode_pctx-RoundTrips tables src initial_state cap ht some_bytes ok hx room =
    let pick = (λ (i prev : ℕ). tables (ctx_bucket i)) in
    guarded_lem (picked_encode pick) (picked_decode pick) (λ i prev. IsCodable (pick i prev))
      (picked_law pick (λ i prev. ht (ctx_bucket i) (ctx_bucket-lt i))) src initial_state cap
      some_bytes ok hx room

bigram_table-IsTable :
    (bigram_tables : ℕ → ℕ → Table) (unigram_tables : ℕ → Table) (class_map : Option (ℕ → ℕ))
    (i prev : ℕ)
    → ((b c : ℕ)
        → b < 16
        → ((bigram_tables b c).valid ≡ false) ⊎ IsTable params_12 (bigram_tables b c))
    → ((b : ℕ) → b < 16 → IsTable params_12 (unigram_tables b))
    → IsTable params_12 (bigram_table bigram_tables unigram_tables class_map i prev)
unfolding bigram_table
bigram_table-IsTable bigram_tables unigram_tables class_map i prev hb hu =
    let t = bigram_tables (ctx_bucket i) (bigram_class prev class_map) in
    let u = unigram_tables (ctx_bucket i) in
    elim (hb (ctx_bucket i) (bigram_class prev class_map) (ctx_bucket-lt i)) [
      | inl off ↦
          subst (λ b. IsTable params_12 (if not b then u else t)) (sym off)
            (hu (ctx_bucket i) (ctx_bucket-lt i))
      | inr table ↦
          subst (λ b. IsTable params_12 (if not b then u else t))
            (sym (IsTable-IsBuilt params_12 t table).valid) table
    ]

-- The bytes that have a positive frequency in the table of their bucket and of the class before them, where
-- this is one of the eight classes.
abbrev pub HasClass : (ℕ → ℕ → Table) → (ℕ → Table) → Option (ℕ → ℕ) → ℕ → ℕ → ℕ → Type 0
HasClass bigram_tables unigram_tables class_map i prev sym =
    (bigram_class prev class_map < bigram_ctx_count)
    × IsCodable (bigram_table bigram_tables unigram_tables class_map i prev) sym

module _ (bigram_tables : ℕ → ℕ → Table) (unigram_tables : ℕ → Table) (class_map : Option (ℕ → ℕ))
    (hb : (b c : ℕ)
      → b < 16
      → ((bigram_tables b c).valid ≡ false) ⊎ IsTable params_12 (bigram_tables b c))
    (hu : (b : ℕ) → b < 16 → IsTable params_12 (unigram_tables b)) where
  bigram_law :
      (i prev sym x v n : ℕ) (w : Writer)
      → HasClass bigram_tables unigram_tables class_map i prev sym
      → IsState params_12 x
      → Holds w v n
      → v < 2 ^ n
      → (n + 12) / 8 ≤ w.cap
      → Inverts params_12
          (bigram_encode bigram_tables unigram_tables class_map i prev sym x w)
          (bigram_decode bigram_tables unigram_tables class_map i prev)
          sym
          x
          w
          v
          n
  bigram_law i prev sym x v n w (class, ok) hx h hv room =
      let inside : leb bigram_ctx_count (bigram_class prev class_map) ≡ false = ground arith in
      let law =
        picked_law (bigram_table bigram_tables unigram_tables class_map)
          (λ i prev. bigram_table-IsTable bigram_tables unigram_tables class_map i prev hb hu) i
          prev sym x v n w ok hx h hv room in
      record {
        state = law.state;
        writer = law.writer;
        number = law.number;
        count = law.count;
        is_state = law.is_state;
        holds = law.holds;
        fits = law.fits;
        cap = law.cap;
        few = law.few;
        encodes = if-false _ _ _ inside ∙ law.encodes;
        decodes =
            λ r hr. let (r', e, hr') = law.decodes r hr in (r', if-false _ _ _ inside ∙ e, hr');
      }

-- The same with a table for each bucket and class of the byte before, where a table that is not
-- valid gives way to that of the bucket, for bytes whose class before is one of the eight and that have a
-- positive frequency in their table.
pub encode_pctx_bigram-RoundTrips :
    (bigram_tables : ℕ → ℕ → Table) (unigram_tables : ℕ → Table) (class_map : Option (ℕ → ℕ))
    (src : List ℕ) (initial_state cap : ℕ)
    → ((b c : ℕ)
        → b < 16
        → ((bigram_tables b c).valid ≡ false) ⊎ IsTable params_12 (bigram_tables b c))
    → ((b : ℕ) → b < 16 → IsTable params_12 (unigram_tables b))
    → 0 < length src
    → AllAt (HasClass bigram_tables unigram_tables class_map) 0 0 src
    → initial_state < 2 * 4096
    → length src * 12 / 8 + 1 ≤ cap
    → RoundTrips params_12
        (λ w. encode_pctx_bigram bigram_tables unigram_tables class_map src w initial_state)
        (λ r state. decode_pctx_bigram bigram_tables unigram_tables class_map r (length src) state)
        src
        cap
unfolding encode_pctx_bigram decode_pctx_bigram
encode_pctx_bigram-RoundTrips bigram_tables unigram_tables class_map src initial_state cap hb hu
      some_bytes ok hx room =
    guarded_lem (bigram_encode bigram_tables unigram_tables class_map)
      (bigram_decode bigram_tables unigram_tables class_map)
      (HasClass bigram_tables unigram_tables class_map)
      (bigram_law bigram_tables unigram_tables class_map hb hu) src initial_state cap some_bytes ok
      hx room
