-- ===== src/History/Append.antt =====
-- What an append does to the history, oldest byte first: `ctx_ring_append` of src/core/netc_compress.c.
use netc.Prelude.{ℕ, ◌+◌, ◌-◌, ◌<◌, ◌≤◌, ◌≡◌, refl, sym, ap, ap₂, arith, ◌∙◌, List, [], ◌∷◌, ◌++◌}
use netc.Prelude.{Bool, true, false, ◌==◌, ◌||◌, length, length-append, drop}
use netc.History.{Ring, ring_append}
use mathlib.Core.List.{append-nil}
use mathlib.Core.Path.{subst}
use native.Mathlib.Decide.{dec_le}
use netc.History.Parts.{parts}
use netc.History.Moves.{IsRing, oldest_first, at, Appended, straight, wrapped, whole}

or_true : (b : Bool) → (b || true) ≡ true
or_true true = refl
or_true false = refl

nothing : (r : Ring) → IsRing r → Appended r [] (ring_append r [])
unfolding ring_append
nothing r h =
    let busy : (length r.ring == 0 || true) ≡ true = or_true (length r.ring == 0) in
    rw busy (h, refl, sym (append-nil (oldest_first r)))

straight_case :
    (r : Ring) (bytes : List ℕ)
    → 0 < length bytes
    → length bytes < length r.ring
    → r.ring_pos + length bytes ≤ length r.ring
    → Appended r bytes (ring_append r bytes)
straight_case r bytes h hl fits =
    let (a, t, ea, la) = parts r.ring r.ring_pos (omega arith) in
    let sizes : length r.ring ≡ length a + length t = ap length ea ∙ length-append a t in
    let (b, c, eb, lb) = parts t (length bytes) (omega arith) in
    let whole_ring : r.ring ≡ a ++ (b ++ c) = ea ∙ ap (λ xs. a ++ xs) eb in
    let same : at (length a) (a ++ (b ++ c)) ≡ r = ap₂ at la (sym whole_ring) in
    subst (λ q. Appended q bytes (ring_append q bytes)) same
      (straight a b c bytes h lb (omega (arith, ap length whole_ring)))

wrapped_case :
    (r : Ring) (bytes : List ℕ)
    → IsRing r
    → length bytes < length r.ring
    → length r.ring < r.ring_pos + length bytes
    → Appended r bytes (ring_append r bytes)
wrapped_case r bytes h hl over =
    let (d, e, ed, ld) = parts bytes (length r.ring - r.ring_pos) (omega arith) in
    let lbytes : length bytes ≡ length d + length e = ap length ed ∙ length-append d e in
    let (a, t, ea, la) = parts r.ring (length e) (omega arith) in
    let lring : length r.ring ≡ length a + length t = ap length ea ∙ length-append a t in
    let (b, c, eb, lb) = parts t (r.ring_pos - length e) (omega arith) in
    let lt : length t ≡ length b + length c = ap length eb ∙ length-append b c in
    let whole_ring : r.ring ≡ a ++ (b ++ c) = ea ∙ ap (λ xs. a ++ xs) eb in
    let here : length (a ++ b) ≡ r.ring_pos = omega (arith, length-append a b) in
    let same : at (length (a ++ b)) (a ++ (b ++ c)) ≡ r = ap₂ at here (sym whole_ring) in
    subst (λ q. Appended q bytes (ring_append q bytes)) same
      (subst
        (λ q.
          Appended (at (length (a ++ b)) (a ++ (b ++ c))) q
            (ring_append (at (length (a ++ b)) (a ++ (b ++ c))) q))
        (sym ed)
        (wrapped a b c d e (omega arith) (omega arith) la
          (omega (arith, ap length whole_ring, ap length ed))))

whole_case :
    (r : Ring) (bytes : List ℕ)
    → IsRing r
    → length r.ring ≤ length bytes
    → Appended r bytes (ring_append r bytes)
whole_case r bytes h long =
    let (j, k, e, l) = parts bytes (length bytes - length r.ring) (omega arith) in
    let sizes : length bytes ≡ length j + length k = ap length e ∙ length-append j k in
    subst (λ q. Appended r q (ring_append r q)) (sym e) (whole r j k h (omega arith))

-- An append keeps the ring's size and its position inside the ring, and the ring then has the newest bytes of
-- the history: what it had and the appended bytes, without the oldest ones.
pub ring_append-oldest_first :
    (r : Ring) (bytes : List ℕ)
    → IsRing r
    → IsRing (ring_append r bytes)
      × (length (ring_append r bytes).ring ≡ length r.ring)
      × (oldest_first (ring_append r bytes) ≡ drop (length bytes) (oldest_first r ++ bytes))
ring_append-oldest_first r [] h = nothing r h
ring_append-oldest_first r (byte ∷ bytes) h =
    elim (dec_le (length r.ring) (length (byte ∷ bytes))) [
      | yes long ↦ whole_case r (byte ∷ bytes) h long
      | no short ↦ elim (dec_le (r.ring_pos + length (byte ∷ bytes)) (length r.ring)) [
        | yes fits ↦ straight_case r (byte ∷ bytes) (omega arith) (omega arith) fits
        | no over ↦ wrapped_case r (byte ∷ bytes) h (omega arith) (omega arith)
      ]
    ]
