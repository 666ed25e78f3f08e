-- ===== src/Tans/Spread.antt =====
-- What the loops of `netc_tans_build` in src/algo/netc_tans.c leave in the tables.
use netc.Prelude.{ℕ, zero, suc, ◌+◌, ◌-◌, ◌*◌, ◌%◌, ◌^◌, ◌≤◌, ◌<◌, ◌≡◌, refl, ap, arith, ◌∙◌, sym}
use netc.Prelude.{bit_and, bit_and_mask}
use netc.Tans.Params.{Params, table_size, symbols}
use netc.Tans.Table.{total, cumul}
use netc.Tans.Table.{visit_occurrences, visit_symbols}
use native.Mathlib.Nat.{mod-add-mod, mod-lt, zero-add, suc-add}
use mathlib.Core.Path.{subst}
use native.Mathlib.Decide.{dec_lt}
use netc.Prelude.{two-pow-pos}

-- The frequencies of the symbols below the argument, summed with no wrap.
unfoldable pub below : (ℕ → ℕ) → ℕ → ℕ
below freq zero = 0
below freq (suc s) = below freq s + freq s

-- The entries of a `uint16_t` array.
abbrev pub IsFreq : (ℕ → ℕ) → Type 0
IsFreq freq = (s : ℕ) → freq s < 2 ^ 16

below-le : (freq : ℕ → ℕ) (s : ℕ) → IsFreq freq → below freq s ≤ s * 65535
unfolding below
below-le freq zero h = omega arith
below-le freq (suc s) h = omega (arith, h s, below-le freq s h)

pub total-eq-below : (freq : ℕ → ℕ) (s : ℕ) → IsFreq freq → s ≤ 256 → total freq s ≡ below freq s
unfolding total below
total-eq-below freq zero h k = refl
total-eq-below freq (suc s) h k =
    omega (arith, total-eq-below freq s h (omega arith), below-le freq s h, h s)

pub below_mono : (freq : ℕ → ℕ) (s d : ℕ) → below freq s ≤ below freq (d + s)
unfolding below
below_mono freq s zero = rw zero-add (omega arith)
below_mono freq s (suc d) = rw suc-add (omega (arith, below_mono freq s d))

-- The occurrences of a symbol end where those of a later one begin, at the latest.
pub below-next : (freq : ℕ → ℕ) (s t : ℕ) → s < t → below freq s + freq s ≤ below freq t
unfolding below
below-next freq s t h =
    let e : t - suc s + suc s ≡ t = omega arith in
    let le = below_mono freq (suc s) (t - suc s) in rw e at le

pub cumul-eq-below : (freq : ℕ → ℕ) (s : ℕ) → below freq s < 2 ^ 16 → cumul freq s ≡ below freq s
unfolding cumul below
cumul-eq-below freq zero h = refl
cumul-eq-below freq (suc s) h = omega (arith, cumul-eq-below freq s (omega arith))

-- The decomposition of a rank among all occurrences is unique.
pub occurrence_unique :
    (freq : ℕ → ℕ) (s k t l : ℕ)
    → k < freq s
    → l < freq t
    → below freq s + k ≡ below freq t + l
    → (s ≡ t) × (k ≡ l)
occurrence_unique freq s k t l hk hl e = elim (dec_lt s t) [
  | yes lt ↦ absurd (omega (arith, below-next freq s t lt))
  | no ge ↦ elim (dec_lt t s) [
    | yes lt ↦ absurd (omega (arith, below-next freq t s lt))
    | no le ↦ let same : s ≡ t = omega arith in (same, omega (arith, ap (below freq) same))
  ]
]

module _ (p : Params) (freq : ℕ → ℕ) where
  -- The slot of the `n`-th occurrence.
  abbrev pub slot : ℕ → ℕ
  slot n = n * p.spread_step % table_size p

  slot-next : (n : ℕ) → bit_and (slot n + p.spread_step) (table_size p - 1) ≡ slot (n + 1)
  slot-next n =
      bit_and_mask p.table_log (slot n + p.spread_step)
      ∙ mod-add-mod (n * p.spread_step) (table_size p) p.spread_step
      ∙ ap (λ (t : ℕ). t % table_size p) (omega arith)

  pub slot-lt : (n : ℕ) → slot n < table_size p
  slot-lt n = mod-lt (n * p.spread_step) (two-pow-pos p.table_log)

  -- An invariant of the writes, by the number of occurrences that have been written.
  module _ {ℓ} {S : Type ℓ} (write : ℕ → ℕ → ℕ → S → S) (P : ℕ → S → Type 0)
      (keep : (s k : ℕ) (a : S)
        → s < symbols
        → k < freq s
        → P (below freq s + k) a
        → P (below freq s + k + 1) (write s k (slot (below freq s + k)) a)) where
    visit_occurrences-inv :
        (s k left : ℕ) (a : S)
        → s < symbols
        → k + left ≡ freq s
        → P (below freq s + k) a
        → let r = visit_occurrences p freq write s k left (slot (below freq s + k)) a in
          (r.0 ≡ slot (below freq (suc s))) × P (below freq (suc s)) r.1
    unfolding visit_occurrences below
    visit_occurrences-inv s k zero a hs hk h =
        let all : below freq s + k ≡ below freq s + freq s = omega arith in
        (ap slot all, subst (λ t. P t a) all h)
    visit_occurrences-inv s k (suc left) a hs hk h =
        let n = below freq s + k in
        let here : n + 1 ≡ below freq s + (k + 1) = omega arith in
        let a' = write s k (slot n) a in
        let rest =
          visit_occurrences-inv s (k + 1) left a' hs (omega arith)
            (subst (λ t. P t a') here (keep s k a hs (omega arith) h)) in
        subst
          (λ t.
            let r = visit_occurrences p freq write s (k + 1) left t a' in
            (r.0 ≡ slot (below freq (suc s))) × P (below freq (suc s)) r.1)
          (sym (slot-next n ∙ ap slot here)) rest

    visit_symbols-inv :
        (s left : ℕ) (a : S)
        → s + left ≡ symbols
        → P (below freq s) a
        → P (below freq symbols) (visit_symbols p freq write s left (slot (below freq s)) a).1
    unfolding visit_symbols
    visit_symbols-inv s zero a hs h =
        let all : s ≡ symbols = omega arith in subst (λ t. P (below freq t) a) all h
    visit_symbols-inv s (suc left) a hs h =
        let none : below freq s + 0 ≡ below freq s = omega arith in
        let next : suc s ≡ s + 1 = omega arith in
        let run = λ (t : ℕ). visit_occurrences p freq write s 0 (freq s) t a in
        let (moved, first) =
          visit_occurrences-inv s 0 (freq s) a (omega arith) (omega arith)
            (subst (λ t. P t a) (sym none) h) in
        let same : slot (below freq s) ≡ slot (below freq s + 0) = ap slot (sym none) in
        let rest =
          visit_symbols-inv (s + 1) left (run (slot (below freq s + 0))).1 (omega arith)
            (subst (λ t. P (below freq t) (run (slot (below freq s + 0))).1) next first) in
        subst
          (λ t.
            P (below freq symbols) (visit_symbols p freq write (s + 1) left (run t).0 (run t).1).1)
          (sym same)
          (subst
            (λ t.
              P (below freq symbols)
                (visit_symbols p freq write (s + 1) left t (run (slot (below freq s + 0))).1).1)
            (sym (moved ∙ ap (λ t. slot (below freq t)) next)) rest)

    pub visit-inv :
        (a : S) → P 0 a → P (below freq symbols) (visit_symbols p freq write 0 symbols 0 a).1
    unfolding below
    visit-inv a h =
        subst (λ t. P (below freq symbols) (visit_symbols p freq write 0 symbols t a).1) start
          (visit_symbols-inv 0 symbols a (omega arith) h)
      where
        start : slot 0 ≡ 0
        start = omega arith
