-- ===== src/Lz77/Rounds.antt =====
-- The loop that `lz77_encode` and `lz77x_encode` of src/core/netc_compress.c share, against a decoder that reads
-- the literal runs and the tokens of the matches.
use netc.Prelude.{ℕ, zero, suc, ◌+◌, ◌-◌, ◌<◌, ◌≤◌, ◌≡◌, refl, sym, arith, ◌∙◌}
use netc.Prelude.{List, [], ◌++◌, Option, none, some}
use netc.Prelude.{Bool-cases, inl, inr}
use netc.Prelude.{ltb, leb, ◌==◌, length, length-append, length-take, length-drop}
use netc.Prelude.{take, drop, take-append-drop}
use netc.Prelude.Fallible.{guard-eq-some, unless-eq-some, >>=-eq-some}
use netc.Result.{Result}
use netc.Tans.Table.{update}
use netc.Lz77.Encode.{Encoder, flush_lits, skip, emit, step, finish, loop, start}
use netc.Lz77.Leads.{Leads, Leads-nil, Leads-trans, LiteralLaw, flush_lem}
use netc.Lz77.Prefixes.{take-take-drop, take_eq}
use mathlib.Core.Path.{subst}
use mathlib.Core.Option.{some-injective}

-- Every slot has a position before `i`.
abbrev pub Behind : (ℕ → Option ℕ) → ℕ → Type 0
Behind ht i = (slot p : ℕ) → ht slot ≡ some p → p < i

module _ (dec : ℕ → List ℕ → List ℕ → Result (List ℕ)) (src : List ℕ) (lz_cap limit : ℕ)
    (hash : ℕ → ℕ) (find : Option ℕ → ℕ → Option (ℕ × List ℕ)) where
  -- A match that is found has a token that the decoder reads as the next bytes of the packet.
  abbrev pub FindLaw : Type 0
  FindLaw =
      (entry : Option ℕ) (i n : ℕ) (token : List ℕ)
      → ((p : ℕ) → entry ≡ some p → p < i)
      → find entry i ≡ some (n, token)
      → (0 < n) × (i + n ≤ length src) × Leads dec token (take i src) (take (i + n) src)

  record IsEncoder (e : Encoder) : Type 0 where
    started : e.lit_start ≤ e.i
    inside : e.i ≤ length src
    behind : Behind e.ht e.i
    leads : Leads dec e.out [] (take e.lit_start src)
    few : length e.out ≤ lz_cap

  module _ (law : LiteralLaw dec (length src)) (finds : FindLaw) where
    update-Behind :
        (ht : ℕ → Option ℕ) (slot at i : ℕ)
        → Behind ht i
        → at < i
        → Behind (update ht slot (some at)) i
    update-Behind ht slot at i h lt j p e = elim (Bool-cases (slot == j)) [
      | inl same ↦ let e' : some at ≡ some p = rw same at e in omega (arith, some-injective at p e')
      | inr other ↦ let e' : ht j ≡ some p = rw other at e in h j p e'
    ]

    weaker : (ht : ℕ → Option ℕ) (i j : ℕ) → i ≤ j → Behind ht i → Behind ht j
    weaker ht i j h b slot p e = omega (arith, b slot p e)

    skip-Behind :
        (left at i : ℕ) (ht : ℕ → Option ℕ)
        → at + left ≤ i
        → Behind ht i
        → Behind (skip src lz_cap limit hash find left at ht) i
    unfolding skip
    skip-Behind zero at i ht h b = b
    skip-Behind (suc left) at i ht h b =
        let rest =
          skip-Behind left (at + 1) i (update ht (hash at) (some at)) (omega arith)
            (update-Behind ht (hash at) at i b (omega arith)) in
        elim (Bool-cases (leb (at + 3) (length src))) [
          | inl more ↦ rw more rest
          | inr stop ↦ rw stop b
        ]

    emit-IsEncoder :
        (e e' : Encoder) (ht : ℕ → Option ℕ) (found : Option (ℕ × List ℕ))
        → IsEncoder e
        → e.i < length src
        → Behind ht (e.i + 1)
        → ((n : ℕ) (token : List ℕ)
            → found ≡ some (n, token)
            → (0 < n)
              × (e.i + n ≤ length src)
              × Leads dec token (take e.i src) (take (e.i + n) src))
        → emit src lz_cap limit hash find e ht found ≡ some e'
        → IsEncoder e'
    unfolding emit
    emit-IsEncoder e e' ht none it more b next eq =
        let moved = record e { i = e.i + 1; ht = ht } in
        let (_, same) = guard-eq-some (leb (length src) (length e.out)) (some moved) e' eq in
        subst (λ t. IsEncoder t) (some-injective moved e' same)
          (record {
            started = omega (arith, it.started);
            inside = omega arith;
            behind = b;
            leads = it.leads;
            few = it.few;
          })
    emit-IsEncoder e e' ht (some (n, token)) it more b next eq =
        let lits = take (e.i - e.lit_start) (drop e.lit_start src) in
        let (out, flushed, checks) = >>=-eq-some (flush_lits lits lz_cap e.out) _ e' eq in
        let (_, checks2) = guard-eq-some (leb limit (length out)) _ e' checks in
        let (fits, checks3) = guard-eq-some (ltb lz_cap (length out + length token)) _ e' checks2 in
        let (_, same) = guard-eq-some (leb (length src) (length out + length token)) _ e' checks3 in
        let (positive, inside, token_leads) = next n token refl in
        let here : take e.lit_start src ++ lits ≡ take e.i src =
          take-take-drop e.lit_start (e.i - e.lit_start) src
          ∙ take_eq src (e.lit_start + (e.i - e.lit_start)) e.i (omega (arith, it.started)) in
        let size : length (take e.lit_start src) + length lits ≤ length src = omega (
          arith,
          it.inside,
          it.started,
          length-take e.lit_start src,
          length-take (e.i - e.lit_start) (drop e.lit_start src),
          length-drop e.lit_start src,
        ) in
        let (extra, grown, lits_lead, few) =
          flush_lem dec (length src) law (length lits) lits lz_cap e.out out (take e.lit_start src)
            (omega arith) size flushed in
        let to_here =
          Leads-trans dec e.out extra [] (take e.lit_start src) (take e.i src) it.leads
            (subst (λ q. Leads dec extra (take e.lit_start src) q) here lits_lead) in
        let to_next =
          Leads-trans dec (e.out ++ extra) token [] (take e.i src) (take (e.i + n) src) to_here
            token_leads in
        subst (λ t. IsEncoder t) (some-injective _ e' same)
          (record {
            started = omega arith;
            inside = inside;
            behind =
                skip-Behind (n - 1) (e.i + 1) (e.i + n) ht (omega arith)
                  (weaker ht (e.i + 1) (e.i + n) (omega arith) b);
            leads = subst (λ o. Leads dec (o ++ token) [] (take (e.i + n) src)) (sym grown) to_next;
            few = ground (arith, fits, length-append out token);
          })

    finish_lem :
        (e : Encoder) (out : List ℕ)
        → IsEncoder e
        → finish src lz_cap limit hash find e ≡ some out
        → Leads dec out [] src × (length out ≤ lz_cap) × (length out < length src)
    unfolding finish
    finish_lem e out it eq =
        let lits = drop e.lit_start src in
        let (out', flushed, checks) = >>=-eq-some (flush_lits lits lz_cap e.out) _ out eq in
        let (small, same) =
          unless-eq-some (ltb (length out') (length src)) (some out') out checks in
        let size : length (take e.lit_start src) + length lits ≤ length src = omega (
          arith,
          it.inside,
          it.started,
          length-take e.lit_start src,
          length-drop e.lit_start src,
        ) in
        let (extra, grown, lits_lead, few) =
          flush_lem dec (length src) law (length lits) lits lz_cap e.out out' (take e.lit_start src)
            (omega arith) size flushed in
        let all = Leads-trans dec e.out extra [] (take e.lit_start src) src it.leads (
          subst (λ q. Leads dec extra (take e.lit_start src) q) (take-append-drop e.lit_start src)
            lits_lead) in
        let fits : length out' ≤ lz_cap = few it.few in
        let smaller : length out' < length src = ground (arith, small) in
        subst (λ o. Leads dec o [] src × (length o ≤ lz_cap) × (length o < length src))
          (some-injective out' out same)
          (subst (λ o. Leads dec o [] src) (sym grown) all, fits, smaller)

    loop_lem :
        (fuel : ℕ) (e : Encoder) (out : List ℕ)
        → IsEncoder e
        → loop src lz_cap limit hash find fuel e ≡ some out
        → Leads dec out [] src × (length out ≤ lz_cap) × (length out < length src)
    unfolding loop step
    loop_lem zero e out it eq = finish_lem e out it eq
    loop_lem (suc fuel) e out it eq = elim (Bool-cases (leb (e.i + 3) (length src))) [
      | inr stop ↦
          let eq' : finish src lz_cap limit hash find e ≡ some out = rw stop at eq in
          finish_lem e out it eq'
      | inl more ↦
          let eq' = rw more at eq in
          let (e', moved, eq2) =
            >>=-eq-some (step src lz_cap limit hash find e)
              (λ e'. loop src lz_cap limit hash find fuel e') out eq' in
          let inside : e.i < length src = ground (arith, more) in
          let it' =
            emit-IsEncoder e e' (update e.ht (hash e.i) (some e.i)) (find (e.ht (hash e.i)) e.i) it
              inside
              (update-Behind e.ht (hash e.i) e.i (e.i + 1)
                (weaker e.ht e.i (e.i + 1) (omega arith) it.behind) (omega arith))
              (λ n token found.
                finds (e.ht (hash e.i)) e.i n token (λ p. it.behind (hash e.i) p) found)
              moved in
          loop_lem fuel e' out it' eq2
    ]

    -- What the encoder returns is read by the decoder as the packet, and is smaller than it.
    pub encoder_lem :
        (fuel : ℕ) (out : List ℕ)
        → loop src lz_cap limit hash find fuel start ≡ some out
        → Leads dec out [] src × (length out ≤ lz_cap) × (length out < length src)
    encoder_lem fuel out eq =
        loop_lem fuel start out
          (record {
            started = omega arith;
            inside = omega arith;
            behind = λ slot p e. cc;
            leads = Leads-nil dec [];
            few = omega arith;
          })
          eq
