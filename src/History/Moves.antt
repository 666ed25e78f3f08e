-- ===== src/History/Moves.antt =====
-- The three ways of `ctx_ring_append` in src/core/netc_compress.c: straight on, around the end, and a whole new ring.
use netc.Prelude.{
  ℕ, ◌+◌, ◌-◌, ◌*◌, ◌%◌, ◌<◌, ◌≡◌, refl, sym, ap, ap₂, arith, ◌∙◌, List, [], ◌∷◌, ◌++◌,
}
use netc.Prelude.{
  true, false, leb, ◌==◌, ◌||◌, length, length-append, take, drop, take_append, drop_append,
  mod_of_parts,
}
use netc.History.{Ring, splice, ring_append}
use mathlib.Core.List.{append_assoc, append-nil}
use mathlib.Core.Path.{subst}
use native.Mathlib.Nat.{mod-eq_of_lt}
use netc.History.Parts.{splice_middle, length-rotated}

-- The ring is not empty and the next position is inside it.
abbrev pub IsRing : Ring → Type 0
IsRing r = r.ring_pos < length r.ring

-- The bytes of the ring from the oldest to the newest.
abbrev pub oldest_first : Ring → List ℕ
oldest_first r = drop r.ring_pos r.ring ++ take r.ring_pos r.ring

abbrev pub at : ℕ → List ℕ → Ring
at start bytes = record { ring = bytes; ring_pos = start }

-- A ring whose next position is behind its first part.
rotated :
    (x y : List ℕ)
    → 0 < length (x ++ y)
    → let r = at (length x % length (x ++ y)) (x ++ y) in IsRing r × (oldest_first r ≡ y ++ x)
rotated x [] h =
    let n = length (x ++ []) in
    let start : length x % n ≡ 0 =
      ap (λ (t : ℕ). t % n) (omega (arith, length-append x [])) ∙ mod_of_parts n 1 0 h in
    (
      omega arith,
      ap (λ (t : ℕ). drop t (x ++ []) ++ take t (x ++ [])) start
          ∙ append-nil (x ++ [])
          ∙ append-nil x,
    )
rotated x (c ∷ y) h =
    let start : length x % length (x ++ (c ∷ y)) ≡ length x =
      mod-eq_of_lt (omega (arith, length-append x (c ∷ y))) in
    (
      omega (arith, start, length-append x (c ∷ y)),
      ap (λ (t : ℕ). drop t (x ++ (c ∷ y)) ++ take t (x ++ (c ∷ y))) start
          ∙ ap₂ (λ xs ys. xs ++ ys) (drop_append x (c ∷ y) (length x) refl)
              (take_append x (c ∷ y) (length x) refl),
    )

-- What an append promises: the ring keeps its size and has the newest bytes of the history.
abbrev pub Appended : Ring → List ℕ → Ring → Type 0
Appended r bytes r' =
    IsRing r'
    × (length r'.ring ≡ length r.ring)
    × (oldest_first r' ≡ drop (length bytes) (oldest_first r ++ bytes))

appended :
    (r : Ring) (bytes x y : List ℕ) (p : ℕ)
    → 0 < length (x ++ y)
    → p ≡ length x % length (x ++ y)
    → length (x ++ y) ≡ length r.ring
    → y ++ x ≡ drop (length bytes) (oldest_first r ++ bytes)
    → Appended r bytes (at p (x ++ y))
appended r bytes x y p h hp size e =
    let (good, old) = rotated x y h in
    subst (λ t. Appended r bytes (at t (x ++ y))) (sym hp) (good, size, old ∙ e)

-- An append that stays behind the position: the parts `a`, `b` and `c` are those before it, under it, and
-- behind it.
pub straight :
    (a b c bytes : List ℕ)
    → 0 < length bytes
    → length b ≡ length bytes
    → length bytes < length (a ++ (b ++ c))
    → Appended
        (at (length a) (a ++ (b ++ c)))
        bytes
        (ring_append (at (length a) (a ++ (b ++ c))) bytes)
unfolding ring_append
straight a b c bytes h hb hl =
    let ring = a ++ (b ++ c) in
    let sizes : length ring ≡ length a + (length b + length c) =
      omega (arith, length-append a (b ++ c), length-append b c) in
    let short : leb (length ring) (length bytes) ≡ false = ground arith in
    let busy : (length ring == 0 || length bytes == 0) ≡ false = ground arith in
    let fits : leb (length bytes) (length ring - length a) ≡ true = ground (arith, sizes, hb) in
    let front = length-append a bytes in
    let same : (a ++ bytes) ++ c ≡ splice (length a) bytes ring =
      append_assoc a bytes c ∙ sym (splice_middle a b c bytes (length a) refl hb) in
    let size' : length ((a ++ bytes) ++ c) ≡ length ring =
      omega (arith, length-append (a ++ bytes) c, front, sizes, hb) in
    let old : drop (length a) ring ++ take (length a) ring ≡ (b ++ c) ++ a =
      ap₂ (λ xs ys. xs ++ ys) (drop_append a (b ++ c) (length a) refl)
        (take_append a (b ++ c) (length a) refl) in
    let later : drop (length bytes) (((b ++ c) ++ a) ++ bytes) ≡ c ++ (a ++ bytes) =
      ap (drop (length bytes)) (append_assoc (b ++ c) a bytes ∙ append_assoc b c (a ++ bytes))
      ∙ drop_append b (c ++ (a ++ bytes)) (length bytes) hb in
    rw (busy, short, fits)
      (subst
        (λ t. Appended (at (length a) ring) bytes (at ((length a + length bytes) % length ring) t))
        same
        (appended (at (length a) ring) bytes (a ++ bytes) c
          ((length a + length bytes) % length ring) (omega (arith, size', sizes))
          (ap₂ (λ (m : ℕ) (n : ℕ). m % n) (sym front) (sym size')) size'
          (sym later ∙ ap (λ t. drop (length bytes) (t ++ bytes)) (sym old))))

-- An append that goes on from the start: it ends behind `a`, the position is behind `b`, and the bytes are
-- `d` up to the end of the ring and `e` from its start.
pub wrapped :
    (a b c d e : List ℕ)
    → 0 < length e
    → length c ≡ length d
    → length a ≡ length e
    → length (d ++ e) < length (a ++ (b ++ c))
    → Appended
        (at (length (a ++ b)) (a ++ (b ++ c)))
        (d ++ e)
        (ring_append (at (length (a ++ b)) (a ++ (b ++ c))) (d ++ e))
unfolding ring_append
wrapped a b c d e he hc ha hl =
    let ring = a ++ (b ++ c) in
    let bytes = d ++ e in
    let pos_is = length-append a b in
    let len_is = length-append d e in
    let sizes : length ring ≡ length a + (length b + length c) =
      omega (arith, length-append a (b ++ c), length-append b c) in
    let short : leb (length ring) (length bytes) ≡ false = ground arith in
    let busy : (length ring == 0 || length bytes == 0) ≡ false = ground (arith, len_is) in
    let fits : leb (length bytes) (length ring - length (a ++ b)) ≡ false =
      ground (arith, sizes, len_is, pos_is) in
    let tail : length ring - length (a ++ b) ≡ length d = omega (arith, sizes, pos_is) in
    let kept : drop (length ring - length (a ++ b)) bytes ≡ e =
      ap (λ (t : ℕ). drop t bytes) tail ∙ drop_append d e (length d) refl in
    let first : take (length ring - length (a ++ b)) bytes ≡ d =
      ap (λ (t : ℕ). take t bytes) tail ∙ take_append d e (length d) refl in
    let ends : splice (length (a ++ b)) d ring ≡ a ++ (b ++ d) =
      ap (splice (length (a ++ b)) d)
        (sym (append_assoc a b c) ∙ ap (λ t. (a ++ b) ++ t) (sym (append-nil c)))
      ∙ splice_middle (a ++ b) c [] d (length (a ++ b)) refl hc
      ∙ ap (λ t. (a ++ b) ++ t) (append-nil d)
      ∙ append_assoc a b d in
    let starts : splice 0 e (a ++ (b ++ d)) ≡ e ++ (b ++ d) =
      splice_middle [] a (b ++ d) e 0 refl ha in
    let same : e ++ (b ++ d)
        ≡ splice 0 (drop (length ring - length (a ++ b)) bytes)
            (splice (length (a ++ b)) (take (length ring - length (a ++ b)) bytes) ring) =
      sym (
        ap₂ (λ xs ys. splice 0 xs (splice (length (a ++ b)) ys ring)) kept first
        ∙ ap (splice 0 e) ends
        ∙ starts) in
    let size' : length (e ++ (b ++ d)) ≡ length ring =
      omega (arith, length-append e (b ++ d), length-append b d, sizes) in
    let old : drop (length (a ++ b)) ring ++ take (length (a ++ b)) ring ≡ c ++ (a ++ b) =
      ap (λ t. drop (length (a ++ b)) t ++ take (length (a ++ b)) t) (sym (append_assoc a b c))
      ∙ ap₂ (λ xs ys. xs ++ ys) (drop_append (a ++ b) c (length (a ++ b)) refl)
          (take_append (a ++ b) c (length (a ++ b)) refl) in
    let later : drop (length bytes) ((c ++ (a ++ b)) ++ bytes) ≡ (b ++ d) ++ e =
      ap (drop (length bytes))
        (ap (λ t. t ++ bytes) (sym (append_assoc c a b)) ∙ append_assoc (c ++ a) b bytes)
      ∙ drop_append (c ++ a) (b ++ bytes) (length bytes) (omega (arith, length-append c a))
      ∙ sym (append_assoc b d e) in
    let here : (length (a ++ b) + length bytes) % length ring ≡ length e % length (e ++ (b ++ d)) =
      ap (λ (t : ℕ). t % length ring) {y = 1 * length ring + length e}
        (omega (arith, pos_is, len_is, sizes))
      ∙ mod_of_parts (length ring) 1 (length e) (omega (arith, len_is))
      ∙ sym (mod-eq_of_lt (omega (arith, len_is, size'))) in
    rw (busy, short, fits)
      (subst
        (λ t.
          Appended (at (length (a ++ b)) ring) bytes
            (at ((length (a ++ b) + length bytes) % length ring) t))
        same
        (appended (at (length (a ++ b)) ring) bytes e (b ++ d)
          ((length (a ++ b) + length bytes) % length ring) (omega (arith, size', len_is)) here size'
          (sym later ∙ ap (λ t. drop (length bytes) (t ++ bytes)) (sym old))))

-- An append of as many bytes as the ring has, or more: `k` are the last of them.
pub whole :
    (r : Ring) (j k : List ℕ)
    → IsRing r
    → length k ≡ length r.ring
    → Appended r (j ++ k) (ring_append r (j ++ k))
unfolding ring_append
whole r j k h hk =
    let len_is = length-append j k in
    let long : leb (length r.ring) (length (j ++ k)) ≡ true = ground (arith, len_is) in
    let busy : (length r.ring == 0 || length (j ++ k) == 0) ≡ false = ground (arith, len_is) in
    let kept : drop (length (j ++ k) - length r.ring) (j ++ k) ≡ k =
      drop_append j k _ (omega (arith, len_is)) in
    let fits : leb (length k) (length r.ring - 0) ≡ true = ground arith in
    let all_gone : drop (0 + length k) r.ring ≡ [] =
      ap (drop (0 + length k)) (sym (append-nil r.ring))
      ∙ drop_append r.ring [] (0 + length k) (omega arith) in
    let same : k ++ [] ≡ splice 0 k r.ring = ap (λ t. k ++ t) (sym all_gone) in
    let size' : length (k ++ []) ≡ length r.ring = omega (arith, length-append k []) in
    let old_size : length (oldest_first r) ≡ length r.ring = omega (
      arith,
      length-append (drop r.ring_pos r.ring) (take r.ring_pos r.ring),
      length-rotated r.ring r.ring_pos (omega arith),
    ) in
    let later : drop (length (j ++ k)) (oldest_first r ++ (j ++ k)) ≡ k =
      ap (drop (length (j ++ k))) (sym (append_assoc (oldest_first r) j k))
      ∙ drop_append (oldest_first r ++ j) k (length (j ++ k))
          (omega (arith, length-append (oldest_first r) j, old_size, len_is)) in
    rw (busy, long, kept, fits)
      (subst (λ t. Appended r (j ++ k) (at ((0 + length k) % length r.ring) t)) same
        (appended r (j ++ k) k [] ((0 + length k) % length r.ring) (omega (arith, size'))
          (ap₂ (λ (m : ℕ) (n : ℕ). m % n) (omega arith) (sym size')) size' (sym later)))
