-- ===== src/Lz77/Tests.antt =====
-- `lz77_decode` of src/core/netc_decompress.c on tokens with an overlapping copy.
use netc.Prelude.{ℕ, some, ◌≡◌, ◌<◌, ◌≤◌, refl, arith, List, [], ◌∷◌, length}
use netc.Result.{ok, err, corrupt}
use netc.Lz77.{lz77_decode}
use netc.Lz77.Encode.{lz77_encode}
use netc.Lz77.RoundTrip.{lz77_decode-lz77_encode}
use netc.Lz77.Tokens.{
  repeat_back, Token, literals, back, print, print_all, expand, expand_all, AllTokens,
  lz77_decode-print_all,
}

-- Two bytes, then seven from two back.
abbrev tokens : List Token
tokens = literals (5 ∷ 6 ∷ []) ∷ back 7 2 ∷ literals (9 ∷ []) ∷ []

tokens-AllTokens : AllTokens tokens []
unfolding AllTokens expand repeat_back
tokens-AllTokens = omega arith

printed : print_all tokens ≡ 1 ∷ 5 ∷ 6 ∷ 0x84 ∷ 1 ∷ 0 ∷ 9 ∷ []
unfolding print print_all
printed = refl

expanded : expand_all tokens [] ≡ 5 ∷ 6 ∷ 5 ∷ 6 ∷ 5 ∷ 6 ∷ 5 ∷ 6 ∷ 5 ∷ 9 ∷ []
unfolding expand expand_all repeat_back
expanded = refl

too_far_back : lz77_decode (0 ∷ 5 ∷ 0x80 ∷ 1 ∷ []) 4 ≡ err corrupt
unfolding lz77_decode
too_far_back = refl

lz77_decode-print_all_example :
    lz77_decode (print_all tokens) (length (expand_all tokens [])) ≡ ok (expand_all tokens [])
lz77_decode-print_all_example = lz77_decode-print_all tokens tokens-AllTokens

-- Twelve equal bytes.
abbrev run : List ℕ
run = 4 ∷ 4 ∷ 4 ∷ 4 ∷ 4 ∷ 4 ∷ 4 ∷ 4 ∷ 4 ∷ 4 ∷ 4 ∷ 4 ∷ []

abbrev run_stream : List ℕ
run_stream = 0 ∷ 4 ∷ 0x88 ∷ 0 ∷ []

run_encoded : lz77_encode run 20 ≡ some run_stream
unfolding lz77_encode
run_encoded = refl

lz77_decode-lz77_encode_example :
    (lz77_decode run_stream 12 ≡ ok run) × (length run_stream ≤ 20) × (length run_stream < 12)
unfolding lz77_encode
lz77_decode-lz77_encode_example = lz77_decode-lz77_encode run run_stream 20 (omega arith) refl
