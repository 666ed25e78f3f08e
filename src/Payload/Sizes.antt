-- ===== src/Payload/Sizes.antt =====
-- Sizes of what the entropy decoders of src/core/netc_decompress.c return, for any payload.
use netc.Prelude.{ℕ, zero, suc, ◌+◌, ◌-◌, ◌*◌, ◌/◌, ◌%◌, ◌^◌, ◌≤◌, ◌≡◌, refl, arith, List, ◌∷◌}
use netc.Prelude.{Bool, true, false, ◌||◌, not, Option}
use netc.Prelude.{ltb, leb, ◌==◌, if◌then◌else◌, length, u32}
use netc.Result.{corrupt, undefined_behaviour}
use netc.Bitstream.Reader.{Reader, Outcome, done, failed, undefined}
use netc.Bitstream.Reader
use netc.Tans.Params.{params_12, params_10}
use netc.Tans.Table.{Table}
use netc.Tans.Codec.{
  decode, decode_10, decode_pctx, decode_pctx_bigram, bad_state, decode_loop, decode_step,
}
use netc.Tans.Dual.{decode_x2, decode_pairs}
use netc.Payload.Decode.{decoded}
use netc.Decompress.Sizes.{Sized, err-Sized, ok-Sized}

abbrev pub Count : ℕ → Outcome (List ℕ) → Type 0
Count n (done bytes) = length bytes ≤ n
Count n failed = Unit
Count n undefined = Unit

pub record Counted (n : ℕ) (o : Outcome (List ℕ)) : Type 0 where
  pub holds : Count n o

no-Counted : (n : ℕ) → Counted n failed
no-Counted n = record { holds = tt }

or-Counted :
    (n : ℕ) (b : Bool) (o o' : Outcome (List ℕ))
    → Counted n o
    → Counted n o'
    → Counted n (if b then o else o')
or-Counted n true o o' h h' = h
or-Counted n false o o' h h' = h'

unless-Counted :
    (n : ℕ) (b : Bool) (o : Outcome (List ℕ)) → Counted n o → Counted n (if b then failed else o)
unless-Counted n b o h = or-Counted n b failed o (no-Counted n) h

after-Counted :
    {A : Type 0} (n : ℕ) (t : Outcome A) (f : A → Outcome (List ℕ))
    → ((a : A) → Counted n (f a))
    → Counted n (Reader.◌>>=◌ t f)
after-Counted n (done a) f h = h a
after-Counted n failed f h = record { holds = tt }
after-Counted n undefined f h = record { holds = tt }

more-Counted :
    (m n : ℕ) (t : Outcome (List ℕ)) (f : List ℕ → List ℕ)
    → Counted m t
    → ((bytes : List ℕ) → length bytes ≤ m → length (f bytes) ≤ n)
    → Counted n (Reader.◌>>=◌ t (λ bytes. done (f bytes)))
more-Counted m n (done bytes) f h hf = record { holds = hf bytes h.holds }
more-Counted m n failed f h hf = record { holds = tt }
more-Counted m n undefined f h hf = record { holds = tt }

pub decoded-Sized : (n : ℕ) (o : Outcome (List ℕ)) → Counted n o → Sized n (decoded o)
decoded-Sized n (done bytes) h = ok-Sized n bytes h.holds
decoded-Sized n failed h = err-Sized n corrupt
decoded-Sized n undefined h = err-Sized n undefined_behaviour

loop-Counted :
    (step : ℕ → ℕ → ℕ → Reader → Outcome (ℕ × ℕ × Reader)) (i prev left x : ℕ) (r : Reader)
    → Counted left (decode_loop step i prev left x r)
unfolding decode_loop
loop-Counted step i prev zero x r = record { holds = omega arith }
loop-Counted step i prev (suc left) x r = after-Counted (suc left) (step i prev x r) _ (λ p.
    more-Counted left (suc left) (decode_loop step (i + 1) p.0 left p.1 p.2) (λ dst. p.0 ∷ dst)
      (loop-Counted step (i + 1) p.0 left p.1 p.2) (λ bytes h. omega arith))

pairs-Counted :
    (t : Table) (left x0 x1 : ℕ) (r : Reader) → Counted (left * 2) (decode_pairs t left x0 x1 r)
unfolding decode_pairs
pairs-Counted t zero x0 x1 r = record { holds = omega arith }
pairs-Counted t (suc left) x0 x1 r =
    or-Counted (suc left * 2) (leb 4096 (u32 (x1 + 2 ^ 32 - 4096))) undefined _
      (record { holds = tt })
      (after-Counted (suc left * 2) (decode_step params_12 t x0 r) _ (λ p.
        after-Counted (suc left * 2) (decode_step params_12 t x1 p.2) _ (λ q.
          more-Counted (left * 2) (suc left * 2) (decode_pairs t left p.1 q.1 q.2)
            (λ dst. p.0 ∷ q.0 ∷ dst) (pairs-Counted t left p.1 q.1 q.2) (λ bytes h. omega arith))))

pub decode-Counted : (t : Table) (r : Reader) (n x : ℕ) → Counted n (decode t r n x)
unfolding decode
decode-Counted t r n x =
    unless-Counted n (not t.valid || n == 0 || bad_state params_12 x) _ (loop-Counted _ 0 0 n x r)

pub decode_10-Counted : (t : Table) (r : Reader) (n x : ℕ) → Counted n (decode_10 t r n x)
unfolding decode_10
decode_10-Counted t r n x =
    unless-Counted n (not t.valid || n == 0 || bad_state params_10 x) _ (loop-Counted _ 0 0 n x r)

pub decode_pctx-Counted :
    (tables : ℕ → Table) (r : Reader) (n x : ℕ) → Counted n (decode_pctx tables r n x)
unfolding decode_pctx
decode_pctx-Counted tables r n x =
    unless-Counted n (n == 0 || bad_state params_12 x) _ (loop-Counted _ 0 0 n x r)

pub decode_pctx_bigram-Counted :
    (bigrams : ℕ → ℕ → Table) (tables : ℕ → Table) (classes : Option (ℕ → ℕ)) (r : Reader) (n x : ℕ)
    → Counted n (decode_pctx_bigram bigrams tables classes r n x)
unfolding decode_pctx_bigram
decode_pctx_bigram-Counted bigrams tables classes r n x =
    unless-Counted n (n == 0 || bad_state params_12 x) _ (loop-Counted _ 0 0 n x r)

fewer-Counted : (m n : ℕ) (o : Outcome (List ℕ)) → m ≤ n → Counted m o → Counted n o
fewer-Counted m n (done bytes) le h = record { holds = omega (arith, h.holds) }
fewer-Counted m n failed le h = record { holds = tt }
fewer-Counted m n undefined le h = record { holds = tt }

pub decode_x2-Counted : (t : Table) (r : Reader) (n x0 x1 : ℕ) → Counted n (decode_x2 t r n x0 x1)
unfolding decode_x2
decode_x2-Counted t r n x0 x1 =
    let half = n / 2 in
    unless-Counted n (not t.valid || ltb n 2 || bad_state params_12 x0 || bad_state params_12 x1) _
      (tails n (n % 2 == 1) (λ odd. ground arith))
  where
    tails :
        (n : ℕ) (b : Bool)
        → (b ≡ true → n / 2 * 2 + 1 ≤ n)
        → Counted n (
            if b
            then Reader.◌>>=◌ (decode_step params_12 t x0 r) (λ (p : ℕ × ℕ × Reader).
              Reader.◌>>=◌ (decode_pairs t (n / 2) p.1 x1 p.2) (λ dst. done (p.0 ∷ dst)))
            else decode_pairs t (n / 2) x0 x1 r)
    tails n true odd = after-Counted n (decode_step params_12 t x0 r) _ (λ p.
        more-Counted (n / 2 * 2) n (decode_pairs t (n / 2) p.1 x1 p.2) (λ dst. p.0 ∷ dst)
          (pairs-Counted t (n / 2) p.1 x1 p.2) (λ bytes h. omega (arith, odd refl)))
    tails n false odd =
        fewer-Counted (n / 2 * 2) n (decode_pairs t (n / 2) x0 x1 r) (omega arith)
          (pairs-Counted t (n / 2) x0 x1 r)
