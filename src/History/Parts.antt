-- ===== src/History/Parts.antt =====
-- Lists cut in parts, for the copies of `ctx_ring_append` in src/core/netc_compress.c.
use netc.Prelude.{ℕ, zero, suc, ◌+◌, ◌≤◌, ◌≡◌, refl, sym, ap, ap₂, arith, ◌∙◌, List, [], ◌∷◌, ◌++◌}
use netc.Prelude.{length, length-append, take, drop, take_append, drop_append}
use netc.History.{splice}
use mathlib.Core.List.{append_assoc}

-- A list in two parts, the first of the given length.
pub parts :
    (xs : List ℕ) (n : ℕ)
    → n ≤ length xs
    → (a : List ℕ) × (b : List ℕ) × (xs ≡ a ++ b) × (length a ≡ n)
parts xs zero h = ([], xs, refl, refl)
parts [] (suc n) h = absurd (omega arith)
parts (x ∷ xs) (suc n) h =
    let (a, b, e, l) = parts xs n (omega arith) in (x ∷ a, b, ap (λ ys. x ∷ ys) e, omega arith)

-- A copy into the middle of three parts.
pub splice_middle :
    (a b c bytes : List ℕ) (n : ℕ)
    → length a ≡ n
    → length b ≡ length bytes
    → splice n bytes (a ++ (b ++ c)) ≡ a ++ (bytes ++ c)
splice_middle a b c bytes n ha hb =
    let rest : drop (n + length bytes) ((a ++ b) ++ c) ≡ c =
      drop_append (a ++ b) c (n + length bytes) (omega (arith, length-append a b)) in
    ap₂ (λ xs ys. xs ++ (bytes ++ ys)) (take_append a (b ++ c) n ha)
      (ap (drop (n + length bytes)) (sym (append_assoc a b c)) ∙ rest)

pub length-rotated :
    (xs : List ℕ) (n : ℕ) → n ≤ length xs → length (drop n xs) + length (take n xs) ≡ length xs
length-rotated xs zero h = omega arith
length-rotated [] (suc n) h = absurd (omega arith)
length-rotated (x ∷ xs) (suc n) h = omega (arith, length-rotated xs n (omega arith))
