-- ===== src/Decompress/Clean.antt =====
-- The byte-oriented decoders of src/core/netc_decompress.c return or fail, for any input.
use netc.Prelude.{
  ℕ, zero, suc, ◌+◌, ◌-◌, ◌≡◌, refl, arith, List, [], ◌∷◌, ◌++◌, Bool, true, false, ◌||◌,
}
use netc.Prelude.{ltb, ◌==◌, if◌then◌else◌, length, take, drop, replicate, bit_and, get_or}
use netc.Result.{Result, ok, err, Error, corrupt, is_undefined, ◌>>=◌}
use netc.Rle
use netc.Lz77
use netc.Lz77x
use netc.Rle.{rle_decode}
use netc.Lz77.{lz77_decode}
use netc.Lz77x.{lz77x_decode, token, ring_bytes, back_from}
use netc.Prelude.{u16, ◌*◌}

-- The result is not the mark of an undefined run.
abbrev pub NoMark : {A : Type 0} → Result A → Type 0
NoMark (ok a) = Unit
NoMark (err e) = is_undefined e ≡ false

pub record Clean {A : Type 0} (o : Result A) : Type 0 where
  pub holds : NoMark o

pub ok-Clean : {A : Type 0} (a : A) → Clean (ok a)
ok-Clean a = record { holds = tt }

pub err-Clean : {A : Type 0} (e : Error) → is_undefined e ≡ false → Clean {A = A} (err e)
err-Clean e h = record { holds = h }

pub either-Clean :
    {A : Type 0} (b : Bool) (o o' : Result A) → Clean o → Clean o' → Clean (if b then o else o')
either-Clean true o o' h h' = h
either-Clean false o o' h h' = h'

unless-Clean :
    {A : Type 0} (b : Bool) (o : Result A) → Clean o → Clean (if b then err corrupt else o)
unless-Clean b o h = either-Clean b (err corrupt) o (err-Clean corrupt refl) h

next-Clean :
    {A B : Type 0} (t : Result A) (f : A → Result B)
    → Clean t
    → ((a : A) → Clean (f a))
    → Clean (t >>= f)
next-Clean (err e) f h hf = record { holds = h.holds }
next-Clean (ok a) f h hf = hf a

end-Clean : (n m : ℕ) (dst : List ℕ) → Clean (if m == n then ok dst else err corrupt)
end-Clean n m dst =
    either-Clean (m == n) (ok dst) (err corrupt) (ok-Clean dst) (err-Clean corrupt refl)

rle_loop-Clean : (n out : ℕ) (src : List ℕ) → Clean (Rle.decode_loop n out src)
unfolding Rle.decode_loop
rle_loop-Clean n out [] = end-Clean n out []
rle_loop-Clean n out (count ∷ []) = err-Clean corrupt refl
rle_loop-Clean n out (count ∷ sym ∷ src) = unless-Clean (count == 0 || ltb n (out + count)) _ (
    next-Clean (Rle.decode_loop n (out + count) src) _ (rle_loop-Clean n (out + count) src)
      (λ dst. ok-Clean (replicate count sym ++ dst)))

lz77_loop-Clean : (fuel n : ℕ) (src dst : List ℕ) → Clean (Lz77.decode_loop fuel n src dst)
unfolding Lz77.decode_loop
lz77_loop-Clean fuel n [] dst = end-Clean n (length dst) dst
lz77_loop-Clean zero n (tok ∷ src) dst = err-Clean corrupt refl
lz77_loop-Clean (suc fuel) n (tok ∷ src) dst =
    let match_len = bit_and tok 0x7f + 3 in
    let offset = get_or src 0 0 + 1 in
    let lit_len = bit_and tok 0x7f + 1 in
    let matched =
      lz77_loop-Clean fuel n (drop 1 src) (Lz77.copy match_len (length dst - offset) dst) in
    let literal = lz77_loop-Clean fuel n (drop lit_len src) (dst ++ take lit_len src) in
    let bad : Clean {A = List ℕ} (err corrupt) = err-Clean corrupt refl in ground arith

token-Clean :
    (ring : List ℕ) (pos n tok : ℕ) (src dst : List ℕ) → Clean (token ring pos n tok src dst)
unfolding token
token-Clean ring pos n tok src dst =
    let match_len = bit_and tok 0x3f + 3 in
    let offset = get_or src 0 0 + 1 in
    let lit_len = bit_and tok 0x7f + 1 in
    let literal = ok-Clean {A = List ℕ × List ℕ} (drop lit_len src, dst ++ take lit_len src) in
    let near =
      ok-Clean {A = List ℕ × List ℕ} (drop 1 src, Lz77.copy match_len (length dst - offset) dst) in
    let bad : Clean {A = List ℕ × List ℕ} (err corrupt) = err-Clean corrupt refl in
    let distance = u16 (get_or src 0 0 + get_or src 1 0 * 256) + 1 in
    let far =
      ok-Clean {A = List ℕ × List ℕ}
        (drop 2 src, dst ++ ring_bytes ring (back_from ring pos distance) 0 match_len) in
    ground arith

lz77x_loop-Clean :
    (ring : List ℕ) (pos n fuel : ℕ) (src dst : List ℕ)
    → Clean (Lz77x.decode_loop ring pos n fuel src dst)
unfolding Lz77x.decode_loop
lz77x_loop-Clean ring pos n fuel [] dst = end-Clean n (length dst) dst
lz77x_loop-Clean ring pos n zero (tok ∷ src) dst = err-Clean corrupt refl
lz77x_loop-Clean ring pos n (suc fuel) (tok ∷ src) dst =
    next-Clean (token ring pos n tok src dst) _ (token-Clean ring pos n tok src dst)
      (λ p. lz77x_loop-Clean ring pos n fuel p.0 p.1)

pub rle_decode-Clean : (src : List ℕ) (n : ℕ) → Clean (rle_decode src n)
unfolding rle_decode
rle_decode-Clean src n = rle_loop-Clean n 0 src

pub lz77_decode-Clean : (src : List ℕ) (n : ℕ) → Clean (lz77_decode src n)
unfolding lz77_decode
lz77_decode-Clean src n = lz77_loop-Clean (length src) n src []

pub lz77x_decode-Clean :
    (src : List ℕ) (n : ℕ) (ring : List ℕ) (pos : ℕ) → Clean (lz77x_decode src n ring pos)
unfolding lz77x_decode
lz77x_decode-Clean src n ring pos = lz77x_loop-Clean ring pos n (length src) src []
