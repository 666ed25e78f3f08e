-- ===== src/Lz77x/RoundTrip.antt =====
-- `lz77x_encode` of src/core/netc_compress.c against `lz77x_decode` of src/core/netc_decompress.c.
use netc.Prelude.{
  ℕ, zero, suc, ◌+◌, ◌-◌, ◌*◌, ◌%◌, ◌^◌, ◌<◌, ◌≤◌, ◌≡◌, refl, sym, ap, ap₂, arith, ◌∙◌,
}
use netc.Prelude.{min, List, [], ◌∷◌, ◌++◌, Bool, true, false, ◌&&◌, Option, none, some}
use netc.Prelude.{length, length-take, length-drop, take, drop, get_or}
use netc.Prelude.{bit_and_mask, ltb, leb, ◌==◌, if◌then◌else◌, bit_and, u16, u32, ◌>>>◌}
use netc.Prelude.Fallible.{unless-eq-some}
use netc.Result.{ok}
use netc.Lz77.{copy}
use netc.Lz77.Encode.{match_length, hash3, loop, start}
use netc.Lz77.Leads.{Leads, LiteralLaw}
use netc.Lz77.Prefixes.{get_or-drop, match_length_lem, copy_prefix, take-take-drop}
use netc.Lz77.Rounds.{FindLaw, encoder_lem}
use netc.Lz77x.Tokens.{reads, round, literal_token, short_token, long_token}
use netc.Lz77x.{
  ring_bytes, back_from, ring_table, Best, short_candidate, long_candidate, find, lz77x_encode,
  decode_loop, lz77x_decode,
}
use mathlib.Core.Path.{subst}
use mathlib.Core.List.{append-nil}
use mathlib.Core.Option.{some-injective}

literal_law : (ring : List ℕ) (ring_pos orig : ℕ) → LiteralLaw (reads ring ring_pos orig) orig
literal_law ring ring_pos orig bytes p h1 h2 room rest zero h = absurd (omega arith)
literal_law ring ring_pos orig bytes p h1 h2 room rest (suc fuel) h = (
  fuel,
  omega arith,
  round ring ring_pos orig fuel (length bytes - 1) (bytes ++ rest) rest p (p ++ bytes)
      (literal_token ring ring_pos orig bytes rest p h1 h2 room),
)

ring_match :
    (ring : List ℕ) (rstart n m k : ℕ) (ys : List ℕ)
    → n ≤ m
    → n ≤ length ys
    → ((j : ℕ) → j < n → get_or (ring_bytes ring rstart k m) j 0 ≡ get_or ys j 0)
    → ring_bytes ring rstart k n ≡ take n ys
unfolding ring_bytes
ring_match ring rstart zero m k ys hm hy same = refl
ring_match ring rstart (suc n) zero k ys hm hy same = absurd (omega arith)
ring_match ring rstart (suc n) (suc m) k [] hm hy same = absurd (omega arith)
ring_match ring rstart (suc n) (suc m) k (y ∷ ys) hm hy same =
    ap₂ (λ b bs. b ∷ bs) (same 0 (omega arith))
      (ring_match ring rstart n m (k + 1) ys (omega arith) (omega arith)
        (λ j hj. same (suc j) (omega arith)))

distance_test :
    (off : ℕ) (b : Bool) → ((leb 1 off && leb off 65536) && b) ≡ true → (1 ≤ off) × (off ≤ 65536)
distance_test off b near = ground (arith, near)

mod_lt : (a n : ℕ) → 0 < n → a % n < n
mod_lt a n h = omega arith

module _ (src ring : List ℕ) (ring_pos : ℕ) where
  -- A match of three bytes or more has a token that is read as the next bytes of the packet.
  IsBest : ℕ → Best → Type 0
  IsBest i best =
      3 ≤ best.0
      → (i + best.0 ≤ length src)
        × Leads (reads ring ring_pos (length src)) best.1 (take i src) (take (i + best.0) src)

  choose :
      (i : ℕ) (b : Bool) (x y : Best)
      → (b ≡ true → IsBest i x)
      → IsBest i y
      → IsBest i (if b then x else y)
  choose i true x y hx hy = hx refl
  choose i false x y hx hy = hy

  short_token-Leads :
      (i p n : ℕ)
      → p < i
      → i ≤ p + 256
      → 3 ≤ n
      → n ≤ 66
      → i + n ≤ length src
      → ((k : ℕ) → k < n → get_or (drop p src) k 0 ≡ get_or (drop i src) k 0)
      → Leads
          (reads ring ring_pos (length src))
          ((0x80 + (n - 3)) ∷ (i - p - 1) ∷ [])
          (take i src)
          (take (i + n) src)
  short_token-Leads i p n h near h3 h66 room same rest zero hf = absurd (omega arith)
  short_token-Leads i p n h near h3 h66 room same rest (suc fuel) hf =
      let size : length (take i src) ≡ i = omega (arith, length-take i src) in
      let from : length (take i src) - (i - p) ≡ p = omega arith in
      let copied =
        copy_prefix n p i src h room
          (λ k hk. sym (get_or-drop p k src) ∙ (same k hk ∙ get_or-drop i k src)) in
      (
        fuel,
        omega arith,
        round ring ring_pos (length src) fuel (0x80 + (n - 3)) ((i - p - 1) ∷ rest) rest
              (take i src) (copy n (length (take i src) - (i - p)) (take i src))
              (short_token ring ring_pos (length src) n (i - p) rest (take i src) h3 h66
                (omega arith) (omega arith) (omega arith))
            ∙ ap (λ t. reads ring ring_pos (length src) fuel rest t)
                (ap (λ (t : ℕ). copy n t (take i src)) from ∙ copied),
      )

  short_candidate-IsBest : (entry : Option ℕ) (i : ℕ) → IsBest i (short_candidate src entry i)
  unfolding short_candidate IsBest
  short_candidate-IsBest none i = λ h. absurd (omega arith)
  short_candidate-IsBest (some p) i =
      let max_m = min (length src - i) 66 in
      let mlen = match_length max_m (drop p src) (drop i src) in
      let (h1, _, h2, agree) = match_length_lem max_m (drop p src) (drop i src) in
      let test = leb 1 (i - p) && leb (i - p) 256 && leb 3 mlen in
      choose i test (mlen, (0x80 + (mlen - 3)) ∷ (i - p - 1) ∷ []) (0, [])
        (λ near_test h.
          let far : (1 ≤ i - p) × (i - p ≤ 256) = ground (arith, near_test) in
          let room : i + mlen ≤ length src = omega (arith, length-drop i src) in
          (
            room,
            short_token-Leads i p mlen (omega (arith, far)) (omega (arith, far)) h (omega arith)
                room agree,
          ))
        (λ h. absurd (omega arith))

  long_token-Leads :
      (i distance n : ℕ)
      → 1 ≤ distance
      → distance ≤ 65536
      → distance ≤ length ring
      → 3 ≤ n
      → n ≤ 66
      → i + n ≤ length src
      → ring_bytes ring (back_from ring ring_pos distance) 0 n ≡ take n (drop i src)
      → let off16 = u16 (distance - 1) in
        Leads
          (reads ring ring_pos (length src))
          ((0xc0 + (n - 3)) ∷ bit_and off16 0xff ∷ (off16 >>> 8) ∷ [])
          (take i src)
          (take (i + n) src)
  long_token-Leads i distance n h1 h2 known h3 h66 room same rest zero hf = absurd (omega arith)
  long_token-Leads i distance n h1 h2 known h3 h66 room same rest (suc fuel) hf =
      let off16 = u16 (distance - 1) in
      let value : off16 ≡ distance - 1 = omega arith in
      let low : bit_and off16 0xff ≡ off16 % 256 = bit_and_mask 8 off16 in
      let back : u16 (bit_and off16 0xff + (off16 >>> 8) * 256) + 1 ≡ distance =
        omega (arith, low, value) in
      let next = ap (λ t. take i src ++ t) same ∙ take-take-drop i n src in
      (
        fuel,
        omega arith,
        round ring ring_pos (length src) fuel (0xc0 + (n - 3))
              (bit_and off16 0xff ∷ (off16 >>> 8) ∷ rest) rest (take i src)
              (take i src ++ ring_bytes ring (back_from ring ring_pos distance) 0 n)
              (long_token ring ring_pos (length src) n distance (bit_and off16 0xff) (off16 >>> 8)
                rest (take i src) h3 h66 back known (omega (arith, length-take i src)))
            ∙ ap (λ t. reads ring ring_pos (length src) fuel rest t) next,
      )

  long_candidate-IsBest :
      (entry : Option ℕ) (i : ℕ) (best : Best)
      → 0 < length ring
      → IsBest i best
      → IsBest i (long_candidate src ring ring_pos entry i best)
  unfolding long_candidate IsBest
  long_candidate-IsBest none i best some_ring h = h
  long_candidate-IsBest (some abs_pos) i best some_ring h =
      let ring_off = back_from ring ring_pos abs_pos in
      let max_m = min (length src - i) 66 in
      let rstart = back_from ring ring_pos ring_off in
      let mlen = match_length max_m (ring_bytes ring rstart 0 max_m) (drop i src) in
      let off16 = u16 (ring_off - 1) in
      let (h1, _, h2, agree) =
        match_length_lem max_m (ring_bytes ring rstart 0 max_m) (drop i src) in
      let test = (leb 1 ring_off && leb ring_off 65536) && (leb 3 mlen && ltb best.0 mlen) in
      let inside : ring_off < length ring =
        mod_lt (u32 (ring_pos + length ring + 2 ^ 32 - abs_pos)) (length ring) some_ring in
      choose i test (mlen, (0xc0 + (mlen - 3)) ∷ bit_and off16 0xff ∷ (off16 >>> 8) ∷ []) best
        (λ near_test h3.
          let near : (1 ≤ ring_off) × (ring_off ≤ 65536) = distance_test ring_off _ near_test in
          let room : i + mlen ≤ length src = omega (arith, length-drop i src) in
          (
            room,
            long_token-Leads i ring_off mlen near.0 near.1 (omega arith) h3 (omega arith) room
                (ring_match ring rstart mlen max_m 0 (drop i src) h1 h2 agree),
          ))
        h

  find_law :
      (ring_ht : ℕ → Option ℕ) (lz_cap : ℕ)
      → 0 < length ring
      → FindLaw
          (reads ring ring_pos (length src))
          src
          lz_cap
          lz_cap
          (hash3 4095 src)
          (find src ring ring_pos ring_ht)
  unfolding find IsBest
  find_law ring_ht lz_cap some_ring entry i n tok behind e =
      let best =
        long_candidate src ring ring_pos (ring_ht (hash3 4095 src i)) i
          (short_candidate src entry i) in
      let (test, same) = unless-eq-some (leb 3 best.0) (some best) (n, tok) e in
      let is =
        long_candidate-IsBest (ring_ht (hash3 4095 src i)) i (short_candidate src entry i) some_ring
          (short_candidate-IsBest entry i) in
      let long : 3 ≤ best.0 = ground (arith, test) in
      subst
        (λ (f : Best).
          (0 < f.0)
          × (i + f.0 ≤ length src)
          × Leads (reads ring ring_pos (length src)) f.1 (take i src) (take (i + f.0) src))
        (some-injective best (n, tok) same) (omega arith, (is long).0, (is long).1)

finished :
    (ring : List ℕ) (ring_pos orig fuel : ℕ) (dst : List ℕ)
    → orig ≡ length dst
    → decode_loop ring ring_pos orig fuel [] dst ≡ ok dst
unfolding decode_loop
finished ring ring_pos orig fuel dst e =
    let same : (length dst == orig) ≡ true = ground arith in rw same refl

-- With a ring that is not empty, a stream that `lz77x_encode` returns is within the capacity and smaller
-- than the packet, and `lz77x_decode` with the same ring returns the packet from it.
pub lz77x_decode-lz77x_encode :
    (src ring : List ℕ) (ring_pos prev_pkt_size lz_cap : ℕ) (out : List ℕ)
    → 0 < length ring
    → lz77x_encode src ring ring_pos prev_pkt_size lz_cap ≡ some out
    → (lz77x_decode out (length src) ring ring_pos ≡ ok src)
      × (length out ≤ lz_cap)
      × (length out < length src)
unfolding lz77x_encode lz77x_decode
lz77x_decode-lz77x_encode src ring ring_pos prev_pkt_size lz_cap out some_ring e =
    let table = ring_table ring ring_pos prev_pkt_size in
    let with_ring : (length ring == 0) ≡ false = ground arith in
    let e' : loop src lz_cap lz_cap (hash3 4095 src) (find src ring ring_pos table) (length src)
          start
        ≡ some out =
      rw with_ring at e in
    let (leads, fits, small) =
      encoder_lem (reads ring ring_pos (length src)) src lz_cap lz_cap (hash3 4095 src)
        (find src ring ring_pos table) (literal_law ring ring_pos (length src))
        (find_law src ring ring_pos table lz_cap some_ring) (length src) out e' in
    let (left, _, reading) = leads [] (length out) (omega arith) in
    (
      ap (λ t. decode_loop ring ring_pos (length src) (length out) t []) (sym (append-nil out))
          ∙ (reading ∙ finished ring ring_pos (length src) left src refl),
      fits,
      small,
    )
