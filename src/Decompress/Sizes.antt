-- ===== src/Decompress/Sizes.antt =====
-- Sizes of what the byte-oriented decoders of src/core/netc_decompress.c return, for any input.
use netc.Prelude.{ℕ, zero, suc, ◌+◌, ◌-◌, ◌≤◌, ◌≡◌, refl, sym, arith, List, [], ◌∷◌, ◌++◌}
use netc.Prelude.{Bool, true, false, ◌||◌}
use netc.Prelude.{
  ltb, ◌==◌, if◌then◌else◌, length, length-append, take, drop, replicate, length-replicate,
}
use netc.Result.{Result, ok, err, Error, corrupt, ◌>>=◌}
use mathlib.Core.Path.{subst}
use netc.Prelude.{bit_and, get_or}
use netc.Rle
use netc.Lz77
use netc.Lz77x
use netc.Rle.{rle_decode}
use netc.Lz77.{lz77_decode}
use netc.Lz77x.{lz77x_decode, token}

-- The bytes that a decoder returns, if it does, are at most so many.
abbrev pub AtMost : ℕ → Result (List ℕ) → Type 0
AtMost n (err e) = Unit
AtMost n (ok bytes) = length bytes ≤ n

pub record Sized (n : ℕ) (o : Result (List ℕ)) : Type 0 where
  pub holds : AtMost n o

pub err-Sized : (n : ℕ) (e : Error) → Sized n (err e)
err-Sized n e = record { holds = tt }

pub ok-Sized : (n : ℕ) (bytes : List ℕ) → length bytes ≤ n → Sized n (ok bytes)
ok-Sized n bytes h = record { holds = h }

-- The branches of a test, and of a test that fails.
pub either-Sized :
    (n : ℕ) (b : Bool) (o o' : Result (List ℕ))
    → (b ≡ true → Sized n o)
    → (b ≡ false → Sized n o')
    → Sized n (if b then o else o')
either-Sized n true o o' h h' = h refl
either-Sized n false o o' h h' = h' refl

pub unless-Sized :
    (n : ℕ) (b : Bool) (e : Error) (o : Result (List ℕ))
    → (b ≡ false → Sized n o)
    → Sized n (if b then err e else o)
unless-Sized n true e o h = err-Sized _ _
unless-Sized n false e o h = h refl

pub next-Sized :
    {A : Type 0} (n : ℕ) (t : Result A) (f : A → Result (List ℕ))
    → ((a : A) → Sized n (f a))
    → Sized n (t >>= f)
next-Sized n (err e) f h = err-Sized n e
next-Sized n (ok a) f h = h a

pub map-Sized :
    (m n : ℕ) (t : Result (List ℕ)) (f : List ℕ → List ℕ)
    → Sized m t
    → ((bytes : List ℕ) → length bytes ≤ m → length (f bytes) ≤ n)
    → Sized n (t >>= λ bytes. ok (f bytes))
map-Sized m n (err e) f h hf = err-Sized n e
map-Sized m n (ok bytes) f h hf = ok-Sized n (f bytes) (hf bytes h.holds)

end-Sized : (n : ℕ) (dst : List ℕ) → Sized n (if length dst == n then ok dst else err corrupt)
end-Sized n dst =
    either-Sized n _ _ _ (λ e. ok-Sized n dst (ground arith)) (λ e. err-Sized n corrupt)

or_right : (a b : Bool) → a || b ≡ false → b ≡ false
or_right false b e = e
or_right true b e = cc

rle_loop-Sized : (n out : ℕ) (src : List ℕ) → Sized (n - out) (Rle.decode_loop n out src)
unfolding Rle.decode_loop
rle_loop-Sized n out [] =
    either-Sized (n - out) _ _ _ (λ e. ok-Sized (n - out) [] (omega arith))
      (λ e. err-Sized (n - out) corrupt)
rle_loop-Sized n out (count ∷ []) = err-Sized (n - out) corrupt
rle_loop-Sized n out (count ∷ sym ∷ src) =
    let rest = Rle.decode_loop n (out + count) src in
    unless-Sized (n - out) (count == 0 || ltb n (out + count)) corrupt
      (rest >>= λ dst. ok (replicate count sym ++ dst))
      (λ e.
        map-Sized (n - (out + count)) (n - out) rest (λ dst. replicate count sym ++ dst)
          (rle_loop-Sized n (out + count) src)
          (λ bytes h.
            let fits : ltb n (out + count) ≡ false =
              or_right (count == 0) (ltb n (out + count)) e in
            let within : out + count ≤ n = ground arith in
            omega (
              arith,
              length-append (replicate count sym) bytes,
              length-replicate {A = ℕ} count sym,
            )))

lz77_loop-Sized : (fuel n : ℕ) (src dst : List ℕ) → Sized n (Lz77.decode_loop fuel n src dst)
unfolding Lz77.decode_loop
lz77_loop-Sized fuel n [] dst = end-Sized n dst
lz77_loop-Sized zero n (tok ∷ src) dst = err-Sized n corrupt
lz77_loop-Sized (suc fuel) n (tok ∷ src) dst =
    let match_len = bit_and tok 0x7f + 3 in
    let offset = get_or src 0 0 + 1 in
    let lit_len = bit_and tok 0x7f + 1 in
    let matched =
      lz77_loop-Sized fuel n (drop 1 src) (Lz77.copy match_len (length dst - offset) dst) in
    let literal = lz77_loop-Sized fuel n (drop lit_len src) (dst ++ take lit_len src) in
    let bad = err-Sized n corrupt in ground arith

lz77x_loop-Sized :
    (ring : List ℕ) (pos n fuel : ℕ) (src dst : List ℕ)
    → Sized n (Lz77x.decode_loop ring pos n fuel src dst)
unfolding Lz77x.decode_loop
lz77x_loop-Sized ring pos n fuel [] dst = end-Sized n dst
lz77x_loop-Sized ring pos n zero (tok ∷ src) dst = err-Sized n corrupt
lz77x_loop-Sized ring pos n (suc fuel) (tok ∷ src) dst =
    next-Sized n (token ring pos n tok src dst) _ (λ p. lz77x_loop-Sized ring pos n fuel p.0 p.1)

pub rle_decode-Sized : (src : List ℕ) (n : ℕ) → Sized n (rle_decode src n)
unfolding rle_decode
rle_decode-Sized src n =
    subst (λ m. Sized m (Rle.decode_loop n 0 src)) (omega arith) (rle_loop-Sized n 0 src)

pub lz77_decode-Sized : (src : List ℕ) (n : ℕ) → Sized n (lz77_decode src n)
unfolding lz77_decode
lz77_decode-Sized src n = lz77_loop-Sized (length src) n src []

pub lz77x_decode-Sized :
    (src : List ℕ) (n : ℕ) (ring : List ℕ) (pos : ℕ) → Sized n (lz77x_decode src n ring pos)
unfolding lz77x_decode
lz77x_decode-Sized src n ring pos = lz77x_loop-Sized ring pos n (length src) src []

pub fewer-Sized : (m n : ℕ) (o : Result (List ℕ)) → m ≤ n → Sized m o → Sized n o
fewer-Sized m n (err e) h it = err-Sized n e
fewer-Sized m n (ok bytes) h it = ok-Sized n bytes (omega (arith, it.holds))
