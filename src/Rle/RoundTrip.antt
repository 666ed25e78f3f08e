-- ===== src/Rle/RoundTrip.antt =====
-- Run-length coding there and back: `rle_encode` of src/core/netc_compress.c and `rle_decode` of
-- src/core/netc_decompress.c.
use netc.Prelude.{
  ℕ, zero, suc, ◌+◌, ◌*◌, ◌≤◌, ◌≡◌, refl, ap, ap₂, arith, ◌∙◌, sym, List, [], ◌∷◌, ◌++◌,
}
use netc.Prelude.{some, ◌==◌, true, false, ltb, u8, length, replicate}
use netc.Result.{ok}
use netc.Rle.{run_from, encode_loop, rle_encode, decode_loop, rle_decode}
use native.Mathlib.Decide.{ℕ_discrete}

-- The bytes of the run and those behind it are the source.
run_from-lem :
    (room s : ℕ) (src : List ℕ)
    → (src ≡ replicate (run_from room s src).0 s ++ (run_from room s src).1)
      × ((run_from room s src).0 ≤ room)
      × (length src ≡ (run_from room s src).0 + length (run_from room s src).1)
unfolding run_from
run_from-lem zero s src = (refl, omega arith, omega arith)
run_from-lem (suc room) s [] = (refl, omega arith, omega arith)
run_from-lem (suc room) s (byte ∷ src) = elim (ℕ_discrete byte s) [
  | yes same ↦
      let (e, le, size) = run_from-lem room s src in
      let hit : (byte == s) ≡ true = ground arith in
      rw hit (ap₂ (λ b xs. b ∷ xs) same e, omega arith, omega (arith, size))
  | no other ↦
      let miss : (byte == s) ≡ false = ground arith in rw miss (refl, omega arith, omega arith)
]

decode_loop_run :
    (orig made n s : ℕ) (bytes dst : List ℕ)
    → made + suc n ≤ orig
    → decode_loop orig (made + suc n) bytes ≡ ok dst
    → decode_loop orig made (suc n ∷ s ∷ bytes) ≡ ok (replicate (suc n) s ++ dst)
unfolding decode_loop
decode_loop_run orig made n s bytes dst h e =
    let some_bytes : (suc n == 0) ≡ false = ground arith in
    let fits : ltb orig (made + suc n) ≡ false = ground arith in rw (some_bytes, fits, e) refl

decode_loop_end : (made : ℕ) → decode_loop (made + 0) made [] ≡ ok []
unfolding decode_loop
decode_loop_end made = ground arith

-- A buffer of two bytes for each byte is enough for the encoder, and the decoder gives the source back
-- from what the encoder wrote.
loops_lem :
    (fuel rle_cap out made : ℕ) (src : List ℕ)
    → length src ≤ fuel
    → out + 2 * length src ≤ rle_cap
    → (bytes : List ℕ) × (encode_loop fuel rle_cap out src ≡ some bytes)
      × (decode_loop (made + length src) made bytes ≡ ok src)
unfolding encode_loop
loops_lem fuel rle_cap out made [] hf hc = ([], refl, decode_loop_end made)
loops_lem zero rle_cap out made (s ∷ src) hf hc = absurd (omega arith)
loops_lem (suc fuel) rle_cap out made (s ∷ src) hf hc =
    let (e, le, size) = run_from-lem 254 s src in
    let more = (run_from 254 s src).0 in
    let rest = (run_from 254 s src).1 in
    let (bytes, enc, dec) =
      loops_lem fuel rle_cap (out + 2) (made + suc more) rest (omega arith) (omega arith) in
    let fits : ltb rle_cap (out + 2) ≡ false = ground arith in
    let small : u8 (suc more) ≡ suc more = omega arith in
    let whole : made + length (s ∷ src) ≡ made + suc more + length rest = omega (arith, size) in
    let back =
      decode_loop_run (made + suc more + length rest) made more s bytes rest (omega arith) dec
      ∙ ap (λ xs. ok (s ∷ xs)) (sym e) in
    (
      u8 (suc more) ∷ s ∷ bytes,
      rw (fits, enc) refl,
      ap₂ (λ (t : ℕ) (c : ℕ). decode_loop t made (c ∷ s ∷ bytes)) whole small ∙ back,
    )

-- With room for two bytes for each byte of the source, the encoder returns and the decoder restores
-- the source from its bytes.
pub rle_decode-rle_encode :
    (src : List ℕ) (rle_cap : ℕ)
    → 2 * length src ≤ rle_cap
    → (bytes : List ℕ) × (rle_encode src rle_cap ≡ some bytes)
      × (rle_decode bytes (length src) ≡ ok src)
unfolding rle_encode rle_decode
rle_decode-rle_encode src rle_cap h =
    let (bytes, enc, dec) = loops_lem (length src) rle_cap 0 0 src (omega arith) (omega arith) in
    let start : 0 + length src ≡ length src = omega arith in
    (bytes, enc, ap (λ (t : ℕ). decode_loop t 0 bytes) (sym start) ∙ dec)
