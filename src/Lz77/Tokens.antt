-- ===== src/Lz77/Tokens.antt =====
-- What the tokens of `lz77_decode` in src/core/netc_decompress.c stand for.
use netc.Prelude.{ℕ, zero, suc, ◌+◌, ◌-◌, ◌<◌, ◌≤◌, ◌≡◌, refl, ap, arith, ◌∙◌, List, [], ◌∷◌, ◌++◌}
use netc.Prelude.{
  Bool, true, false, ◌&&◌, ltb, ◌==◌, ◌!=◌, bit_and, length, length-append, get_or, take_append,
  drop_append,
}
use netc.Prelude.{all_below, all_below_sound}
use netc.Result.{ok}
use netc.Lz77.{copy, decode_loop, lz77_decode}

-- Some bytes, or a copy of bytes `offset` back.
pub data Token : Type 0 where
  literals : List ℕ → Token
  back : ℕ → ℕ → Token

unfoldable pub print : Token → List ℕ
print (literals bytes) = (length bytes - 1) ∷ bytes
print (back match_len offset) = (0x80 + (match_len - 3)) ∷ (offset - 1) ∷ []

unfoldable pub print_all : List Token → List ℕ
print_all [] = []
print_all (t ∷ ts) = print t ++ print_all ts

-- The bytes of a match, each of them the one `offset` before the end of what is there.
unfoldable pub repeat_back : ℕ → ℕ → List ℕ → List ℕ
repeat_back zero offset dst = dst
repeat_back (suc left) offset dst =
    repeat_back left offset (dst ++ (get_or dst (length dst - offset) 0 ∷ []))

-- The output after a token.
unfoldable pub expand : Token → List ℕ → List ℕ
expand (literals bytes) dst = dst ++ bytes
expand (back match_len offset) dst = repeat_back match_len offset dst

unfoldable pub expand_all : List Token → List ℕ → List ℕ
expand_all [] dst = dst
expand_all (t ∷ ts) dst = expand_all ts (expand t dst)

-- The tokens that have a code, after the given output.
abbrev pub IsToken : Token → List ℕ → Type 0
IsToken (literals bytes) dst = (1 ≤ length bytes) × (length bytes ≤ 128)
IsToken (back match_len offset) dst =
    (3 ≤ match_len) × (match_len ≤ 130) × (1 ≤ offset) × (offset ≤ 256) × (offset ≤ length dst)

unfoldable pub AllTokens : List Token → List ℕ → Type 0
AllTokens [] dst = Unit
AllTokens (t ∷ ts) dst = IsToken t dst × AllTokens ts (expand t dst)

-- The low seven bits of a first byte, and its high bit.
tok_bits : ℕ → Bool
tok_bits t =
    (bit_and t 0x80 == 0)
    && (bit_and t 0x7f == t)
    && (bit_and (128 + t) 0x80 != 0)
    && (bit_and (128 + t) 0x7f == t)

tok_checked : all_below 128 tok_bits ≡ true
unfolding tok_bits all_below
tok_checked = refl

tok_bits_lem :
    (t : ℕ)
    → t < 128
    → ((bit_and t 0x80 != 0) ≡ false)
      × (bit_and t 0x7f ≡ t)
      × ((bit_and (128 + t) 0x80 != 0) ≡ true)
      × (bit_and (128 + t) 0x7f ≡ t)
unfolding tok_bits
tok_bits_lem t h = ground (arith, all_below_sound 128 tok_bits t tok_checked h)

length-copy : (n f : ℕ) (dst : List ℕ) → length (copy n f dst) ≡ length dst + n
unfolding copy
length-copy zero f dst = omega arith
length-copy (suc n) f dst = omega (
  arith,
  length-copy n (f + 1) (dst ++ (get_or dst f 0 ∷ [])),
  length-append dst (get_or dst f 0 ∷ []),
)

pub decode_literals :
    (fuel orig : ℕ) (bytes rest dst : List ℕ)
    → 1 ≤ length bytes
    → length bytes ≤ 128
    → length dst + length bytes ≤ orig
    → decode_loop (suc fuel) orig ((length bytes - 1) ∷ (bytes ++ rest)) dst
      ≡ decode_loop fuel orig rest (dst ++ bytes)
unfolding decode_loop
decode_literals fuel orig bytes rest dst h1 h2 room =
    let (high, low, x, y) = tok_bits_lem (length bytes - 1) (omega arith) in
    let len : length bytes - 1 + 1 ≡ length bytes = omega arith in
    let enough : ltb (length (bytes ++ rest)) (length bytes) ≡ false =
      ground (arith, length-append bytes rest) in
    let fits : ltb orig (length dst + length bytes) ≡ false = ground arith in
    rw
      (
        high,
        low,
        len,
        enough,
        fits,
        drop_append bytes rest (length bytes) refl,
        take_append bytes rest (length bytes) refl,
      )
      refl

pub decode_back :
    (fuel orig match_len offset : ℕ) (rest dst : List ℕ)
    → 3 ≤ match_len
    → match_len ≤ 130
    → 1 ≤ offset
    → offset ≤ length dst
    → length dst + match_len ≤ orig
    → decode_loop (suc fuel) orig ((0x80 + (match_len - 3)) ∷ (offset - 1) ∷ rest) dst
      ≡ decode_loop fuel orig rest (copy match_len (length dst - offset) dst)
unfolding decode_loop
decode_back fuel orig match_len offset rest dst h1 h2 h3 h4 room =
    let (x, y, high, low) = tok_bits_lem (match_len - 3) (omega arith) in
    let len : match_len - 3 + 3 ≡ match_len = omega arith in
    let off : offset - 1 + 1 ≡ offset = omega arith in
    let there : (suc (length rest) == 0) ≡ false = ground arith in
    let known : ltb (length dst) offset ≡ false = ground arith in
    let fits : ltb orig (length dst + match_len) ≡ false = ground arith in
    rw (high, low, len, off, there, known, fits) refl

-- The decoder's copy, whose source moves on with each byte, repeats the output so.
copy-repeat_back :
    (n offset from : ℕ) (dst : List ℕ)
    → offset ≤ length dst
    → from ≡ length dst - offset
    → copy n from dst ≡ repeat_back n offset dst
unfolding copy repeat_back
copy-repeat_back zero offset from dst h e = refl
copy-repeat_back (suc n) offset from dst h e =
    let next = dst ++ (get_or dst from 0 ∷ []) in
    let longer = length-append dst (get_or dst from 0 ∷ []) in
    copy-repeat_back n offset (from + 1) next (omega (arith, longer)) (omega (arith, longer))
    ∙ ap (λ (k : ℕ). repeat_back n offset (dst ++ (get_or dst k 0 ∷ []))) e

length-repeat_back :
    (n offset : ℕ) (dst : List ℕ) → length (repeat_back n offset dst) ≡ length dst + n
unfolding repeat_back
length-repeat_back zero offset dst = omega arith
length-repeat_back (suc n) offset dst =
    let byte = get_or dst (length dst - offset) 0 in
    omega (arith, length-repeat_back n offset (dst ++ (byte ∷ [])), length-append dst (byte ∷ []))

length-expand :
    (t : Token) (dst : List ℕ)
    → length (expand t dst) ≡ length dst + (length (expand t dst) - length dst)
unfolding expand
length-expand (literals bytes) dst = omega (arith, length-append dst bytes)
length-expand (back match_len offset) dst = omega (arith, length-repeat_back match_len offset dst)

expand_all-grows : (ts : List Token) (dst : List ℕ) → length dst ≤ length (expand_all ts dst)
unfolding expand_all
expand_all-grows [] dst = omega arith
expand_all-grows (t ∷ ts) dst =
    omega (arith, length-expand t dst, expand_all-grows ts (expand t dst))

pub finished :
    (fuel orig : ℕ) (dst : List ℕ) → orig ≡ length dst → decode_loop fuel orig [] dst ≡ ok dst
unfolding decode_loop
finished fuel orig dst e = let same : (length dst == orig) ≡ true = ground arith in rw same refl

loop_lem :
    (ts : List Token) (dst : List ℕ) (fuel orig : ℕ)
    → AllTokens ts dst
    → length (print_all ts) ≤ fuel
    → orig ≡ length (expand_all ts dst)
    → decode_loop fuel orig (print_all ts) dst ≡ ok (expand_all ts dst)
unfolding print print_all expand expand_all AllTokens
loop_lem [] dst fuel orig h hf e = finished fuel orig dst e
loop_lem (literals bytes ∷ ts) dst zero orig h hf e = absurd (omega arith)
loop_lem (literals bytes ∷ ts) dst (suc fuel) orig h hf e =
    decode_literals fuel orig bytes (print_all ts) dst h.0.0 h.0.1
      (omega (arith, length-append dst bytes, expand_all-grows ts (dst ++ bytes)))
    ∙ loop_lem ts (dst ++ bytes) fuel orig h.1 (omega (arith, length-append bytes (print_all ts))) e
loop_lem (back match_len offset ∷ ts) dst zero orig h hf e = absurd (omega arith)
loop_lem (back match_len offset ∷ ts) dst (suc fuel) orig h hf e =
    let dst' = repeat_back match_len offset dst in
    let repeats = copy-repeat_back match_len offset (length dst - offset) dst h.0.4 refl in
    decode_back fuel orig match_len offset (print_all ts) dst h.0.0 h.0.1 h.0.2 h.0.4
      (omega (arith, length-repeat_back match_len offset dst, expand_all-grows ts dst'))
    ∙ ap (decode_loop fuel orig (print_all ts)) repeats
    ∙ loop_lem ts dst' fuel orig h.1 (omega arith) e

-- Tokens that have a code, with matches inside the output before them, are decoded to the bytes they stand
-- for, where these are as many as the header says: of a match, each byte is that `offset` before it.
pub lz77_decode-print_all :
    (ts : List Token)
    → AllTokens ts []
    → lz77_decode (print_all ts) (length (expand_all ts [])) ≡ ok (expand_all ts [])
unfolding lz77_decode
lz77_decode-print_all ts h =
    loop_lem ts [] (length (print_all ts)) (length (expand_all ts [])) h (omega arith) refl
