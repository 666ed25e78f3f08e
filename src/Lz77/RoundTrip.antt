-- ===== src/Lz77/RoundTrip.antt =====
-- `lz77_encode` of src/core/netc_compress.c against `lz77_decode` of src/core/netc_decompress.c.
use netc.Prelude.{ℕ, zero, suc, ◌+◌, ◌-◌, ◌<◌, ◌≤◌, ◌≡◌, refl, sym, ap, arith, ◌∙◌, ◌^◌, min}
use netc.Prelude.{List, [], ◌∷◌, none, some, length, length-take, length-drop}
use netc.Prelude.{leb, ◌&&◌, take, drop, get_or, u64}
use netc.Prelude.Fallible.{unless-eq-some}
use netc.Result.{Result, ok}
use netc.Lz77.{copy, decode_loop, lz77_decode}
use netc.Lz77.Encode.{match_length, candidate, lz77_hash3, lz77_encode}
use netc.Lz77.Leads.{Leads, LiteralLaw}
use netc.Lz77.Prefixes.{get_or-drop, match_length_lem, copy_prefix}
use netc.Lz77.Rounds.{FindLaw, encoder_lem}
use netc.Lz77.Tokens.{decode_literals, decode_back, finished}
use mathlib.Core.Path.{subst}
use mathlib.Core.List.{append-nil}
use mathlib.Core.Option.{some-injective}

abbrev reads : ℕ → ℕ → List ℕ → List ℕ → Result (List ℕ)
reads orig fuel lz_src dst = decode_loop fuel orig lz_src dst

literal_law : (orig : ℕ) → LiteralLaw (reads orig) orig
literal_law orig bytes p h1 h2 room rest zero h = absurd (omega arith)
literal_law orig bytes p h1 h2 room rest (suc fuel) h =
    (fuel, omega arith, decode_literals fuel orig bytes rest p h1 h2 room)

-- Two places of a packet that agree for `n` bytes, and the code of the match.
back_law :
    (src : List ℕ) (pos i n : ℕ)
    → pos < i
    → i ≤ pos + 256
    → 3 ≤ n
    → n ≤ 130
    → i + n ≤ length src
    → ((k : ℕ) → k < n → get_or (drop pos src) k 0 ≡ get_or (drop i src) k 0)
    → Leads
        (reads (length src))
        ((0x80 + (n - 3)) ∷ (i - pos - 1) ∷ [])
        (take i src)
        (take (i + n) src)
back_law src pos i n h near h3 h130 room same rest zero hf = absurd (omega arith)
back_law src pos i n h near h3 h130 room same rest (suc fuel) hf =
    let size : length (take i src) ≡ i = omega (arith, length-take i src) in
    let from : length (take i src) - (i - pos) ≡ pos = omega arith in
    let copied =
      copy_prefix n pos i src h room
        (λ k hk. sym (get_or-drop pos k src) ∙ (same k hk ∙ get_or-drop i k src)) in
    (
      fuel,
      omega arith,
      decode_back fuel (length src) n (i - pos) rest (take i src) h3 h130 (omega arith)
            (omega arith) (omega arith)
          ∙ ap (λ t. decode_loop fuel (length src) rest t)
              (ap (λ (t : ℕ). copy n t (take i src)) from ∙ copied),
    )

find_law :
    (src : List ℕ) (lz_cap : ℕ)
    → length src < 2 ^ 64
    → FindLaw (reads (length src)) src lz_cap (length src) (lz77_hash3 src) (candidate src)
unfolding candidate
find_law src lz_cap hs none i n token behind e = cc
find_law src lz_cap hs (some pos) i n token behind e =
    let off = u64 (i + 2 ^ 64 - pos) in
    let max_m = min (length src - i) 130 in
    let mlen = match_length max_m (drop pos src) (drop i src) in
    let found : ℕ × List ℕ = (mlen, (0x80 + (mlen - 3)) ∷ (off - 1) ∷ []) in
    let (test, same) = unless-eq-some (leb off 256 && leb 3 mlen) (some found) (n, token) e in
    let (h1, _, h2, agree) = match_length_lem max_m (drop pos src) (drop i src) in
    let long : 3 ≤ mlen = ground (arith, test) in
    let near : off ≤ 256 = ground (arith, test) in
    let room : i + mlen ≤ length src = omega (arith, length-drop i src) in
    let before : pos < i = behind pos refl in
    let off_is : off ≡ i - pos = omega arith in
    subst
      (λ (f : ℕ × List ℕ).
        (0 < f.0)
        × (i + f.0 ≤ length src)
        × Leads (reads (length src)) f.1 (take i src) (take (i + f.0) src))
      (some-injective found (n, token) same)
      (
        omega arith,
        room,
        subst
            (λ (o : ℕ).
              Leads (reads (length src)) ((0x80 + (mlen - 3)) ∷ (o - 1) ∷ []) (take i src)
                (take (i + mlen) src))
            (sym off_is)
            (back_law src pos i mlen before (omega arith) long (omega arith) room agree),
      )

-- When `lz77_encode` returns a stream, the stream is within the capacity and smaller than the
-- packet, and `lz77_decode` returns the packet.
pub lz77_decode-lz77_encode :
    (src out : List ℕ) (lz_cap : ℕ)
    → length src < 2 ^ 64
    → lz77_encode src lz_cap ≡ some out
    → (lz77_decode out (length src) ≡ ok src) × (length out ≤ lz_cap) × (length out < length src)
unfolding lz77_encode lz77_decode
lz77_decode-lz77_encode src out lz_cap hs e =
    let (leads, fits, small) =
      encoder_lem (reads (length src)) src lz_cap (length src) (lz77_hash3 src) (candidate src)
        (literal_law (length src)) (find_law src lz_cap hs) (length src) out e in
    let (left, _, reading) = leads [] (length out) (omega arith) in
    (
      ap (λ t. decode_loop (length out) (length src) t []) (sym (append-nil out))
          ∙ (reading ∙ finished left (length src) src refl),
      fits,
      small,
    )
