-- ===== src/Lz77/Leads.antt =====
-- How a decoder of src/core/netc_decompress.c gets on over a piece of its input, and the literal runs and the
-- prefixes of src/core/netc_compress.c that its rounds are about.
use netc.Prelude.{ℕ, zero, suc, ◌+◌, ◌-◌, ◌≤◌, ◌≡◌, refl, sym, ap, arith, ◌∙◌, min}
use netc.Prelude.{List, [], ◌∷◌, ◌++◌, some}
use netc.Prelude.{
  ltb, length, length-append, length-take, length-drop, take, drop, take-append-drop,
}
use netc.Prelude.Fallible.{guard-eq-some}
use netc.Result.{Result}
use netc.Lz77.Encode.{flush_runs}
use mathlib.Core.List.{append_assoc, append-nil}
use mathlib.Core.Path.{subst}
use mathlib.Core.Option.{some-injective}

module _ (dec : ℕ → List ℕ → List ℕ → Result (List ℕ)) where
  -- With fuel for the input, the decoder reads the piece and goes from output `p` to `q`.
  abbrev pub Leads : List ℕ → List ℕ → List ℕ → Type 0
  Leads piece p q =
      (rest : List ℕ) (fuel : ℕ)
      → length piece + length rest ≤ fuel
      → (left : ℕ) × (length rest ≤ left) × (dec fuel (piece ++ rest) p ≡ dec left rest q)

  pub Leads-nil : (p : List ℕ) → Leads [] p p
  Leads-nil p rest fuel h = (fuel, omega arith, refl)

  pub Leads-trans : (a b p q r : List ℕ) → Leads a p q → Leads b q r → Leads (a ++ b) p r
  Leads-trans a b p q r ha hb rest fuel h =
      let (fuel1, h1, e1) =
        ha (b ++ rest) fuel (omega (arith, length-append a b, length-append b rest)) in
      let (fuel2, h2, e2) = hb rest fuel1 (omega (arith, length-append b rest)) in
      (fuel2, h2, ap (λ xs. dec fuel xs p) (append_assoc a b rest) ∙ (e1 ∙ e2))

  -- A run of literals is read in one round.
  abbrev pub LiteralLaw : ℕ → Type 0
  LiteralLaw orig =
      (bytes p : List ℕ)
      → 1 ≤ length bytes
      → length bytes ≤ 128
      → length p + length bytes ≤ orig
      → Leads ((length bytes - 1) ∷ bytes) p (p ++ bytes)

  -- What the flush adds to the output, within its capacity.
  abbrev pub Flushed : ℕ → List ℕ → List ℕ → List ℕ → List ℕ → Type 0
  Flushed lz_cap out out' p q =
      (extra : List ℕ) × (out' ≡ out ++ extra)
      × Leads extra p q
      × (length out ≤ lz_cap → length out' ≤ lz_cap)

  module _ (orig : ℕ) (law : LiteralLaw orig) where
    flush_round :
        (lz_cap : ℕ) (run rest out out' p : List ℕ)
        → 1 ≤ length run
        → length run ≤ 128
        → length p + length run + length rest ≤ orig
        → length out + 1 + length run ≤ lz_cap
        → Flushed lz_cap (out ++ ((length run - 1) ∷ run)) out' (p ++ run) ((p ++ run) ++ rest)
        → Flushed lz_cap out out' p (p ++ (run ++ rest))
    flush_round lz_cap run rest out out' p h1 h2 room cap (extra, e, leads, few) =
        let token = (length run - 1) ∷ run in
        (
          token ++ extra,
          e ∙ append_assoc out token extra,
          subst (λ q. Leads (token ++ extra) p q) (append_assoc p run rest)
              (Leads-trans token extra p (p ++ run) ((p ++ run) ++ rest)
                (law run p h1 h2 (omega arith)) leads),
          λ (_ : length out ≤ lz_cap). few (omega (arith, length-append out token)),
        )

    nothing : (lz_cap : ℕ) (out out' p : List ℕ) → out ≡ out' → Flushed lz_cap out out' p (p ++ [])
    nothing lz_cap out out' p e = (
      [],
      sym e ∙ sym (append-nil out),
      subst (λ q. Leads [] p q) (sym (append-nil p)) (Leads-nil p),
      λ h. subst (λ q. length q ≤ lz_cap) e h,
    )

    pub flush_lem :
        (fuel : ℕ) (lits : List ℕ) (lz_cap : ℕ) (out out' p : List ℕ)
        → length lits ≤ fuel
        → length p + length lits ≤ orig
        → flush_runs fuel lits lz_cap out ≡ some out'
        → Flushed lz_cap out out' p (p ++ lits)
    unfolding flush_runs
    flush_lem zero [] lz_cap out out' p hf room e =
        nothing lz_cap out out' p (some-injective out out' e)
    flush_lem zero (x ∷ xs) lz_cap out out' p hf room e = absurd (omega arith)
    flush_lem (suc fuel) [] lz_cap out out' p hf room e =
        nothing lz_cap out out' p (some-injective out out' e)
    flush_lem (suc fuel) (x ∷ xs) lz_cap out out' p hf room e =
        let l = x ∷ xs in
        let ll = min (length l) 128 in
        let run = take ll l in
        let rest = drop ll l in
        let size : length run ≡ ll = omega (arith, length-take ll l) in
        let left : length rest ≡ length l - ll = length-drop ll l in
        let (fits, e') =
          guard-eq-some (ltb lz_cap (length out + 1 + ll))
            (flush_runs fuel rest lz_cap (out ++ ((ll - 1) ∷ run))) out' e in
        let later =
          flush_lem fuel rest lz_cap (out ++ ((ll - 1) ∷ run)) out' (p ++ run) (omega arith)
            (omega (arith, length-append p run)) e' in
        subst (λ q. Flushed lz_cap out out' p (p ++ q)) (take-append-drop ll l)
          (flush_round lz_cap run rest out out' p (omega arith) (omega arith) (omega arith)
            (ground (arith, size))
            (subst
              (λ n. Flushed lz_cap (out ++ ((n - 1) ∷ run)) out' (p ++ run) ((p ++ run) ++ rest))
              (sym size) later))
