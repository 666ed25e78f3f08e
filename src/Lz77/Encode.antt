-- ===== src/Lz77/Encode.antt =====
-- `lz77_encode` of src/core/netc_compress.c, and the parts it shares with `lz77x_encode`. The hash table is a
-- function of the slot, with `none` for the sentinel of an empty slot.
use netc.Prelude.{ℕ, zero, suc, ◌+◌, ◌-◌, ◌*◌, ◌^◌, min, List, [], ◌∷◌, ◌++◌, Option, none, some}
use netc.Prelude.{
  ltb, leb, ◌==◌, if◌then◌else◌, u32, u64, bit_and, bit_xor, length, get_or, take, drop,
}
use netc.Prelude.{◌&&◌}
use netc.Prelude.Fallible.{◌>>=◌}
use netc.Tans.Table.{update}

-- FNV-1a of the three bytes from `i` on, under the table's mask: `lz77_hash3` and `lz77x_hash3`.
unfoldable pub hash3 : ℕ → List ℕ → ℕ → ℕ
hash3 mask p i =
    let h0 = u32 (bit_xor 2166136261 (get_or p i 0) * 16777619) in
    let h1 = u32 (bit_xor h0 (get_or p (i + 1) 0) * 16777619) in
    let h2 = u32 (bit_xor h1 (get_or p (i + 2) 0) * 16777619) in bit_and h2 mask

abbrev pub lz77_hash3 : List ℕ → ℕ → ℕ
lz77_hash3 p i = hash3 1023 p i

-- `while (mlen < max_m && a[mlen] == b[mlen]) mlen++`.
unfoldable pub match_length : ℕ → List ℕ → List ℕ → ℕ
match_length zero a b = 0
match_length (suc max_m) (x ∷ a) (y ∷ b) = if x == y then suc (match_length max_m a b) else 0
match_length (suc max_m) a b = 0

-- `LZ77_FLUSH_LITS`: the pending literals in runs of up to 128. Each round writes a byte, so that their
-- number is enough fuel.
unfoldable pub flush_runs : ℕ → List ℕ → ℕ → List ℕ → Option (List ℕ)
flush_runs zero lits lz_cap out = some out
flush_runs (suc fuel) [] lz_cap out = some out
flush_runs (suc fuel) (x ∷ xs) lz_cap out =
    let ll = min (length (x ∷ xs)) 128 in
    let rest = flush_runs fuel (drop ll (x ∷ xs)) lz_cap (out ++ ((ll - 1) ∷ take ll (x ∷ xs))) in
    if ltb lz_cap (length out + 1 + ll) then none else rest

abbrev pub flush_lits : List ℕ → ℕ → List ℕ → Option (List ℕ)
flush_lits lits lz_cap out = flush_runs (length lits) lits lz_cap out

-- The locals of the loop: `i`, `lit_start`, the hash table, and the bytes written.
pub record Encoder : Type 0 where
  pub i : ℕ
  pub lit_start : ℕ
  pub ht : ℕ → Option ℕ
  pub out : List ℕ

abbrev pub start : Encoder
start = record { i = 0; lit_start = 0; ht = λ _. none; out = [] }

-- The loop that the two encoders share: the hash of a position, the search for a match at a
-- position, given the slot's last position, and the bound after a flush.
module _ (src : List ℕ) (lz_cap limit : ℕ) (hash : ℕ → ℕ)
    (find : Option ℕ → ℕ → Option (ℕ × List ℕ)) where
  -- `for (k = 1; k < best_len && i + k + 3 <= src_size; k++) ht[hash(i + k)] = i + k`, from `at` on.
  unfoldable pub skip : ℕ → ℕ → (ℕ → Option ℕ) → ℕ → Option ℕ
  skip zero at ht = ht
  skip (suc left) at ht =
      let rest = skip left (at + 1) (update ht (hash at) (some at)) in
      if leb (at + 3) (length src) then rest else ht

  -- The branch of a match of `best_len` bytes, and that of a literal.
  unfoldable pub emit : Encoder → (ℕ → Option ℕ) → Option (ℕ × List ℕ) → Option Encoder
  unfolding skip flush_runs
  emit e ht none =
      if leb (length src) (length e.out) then none else some (record e { i = e.i + 1; ht = ht })
  emit e ht (some (best_len, token)) = do
    out ← flush_lits (take (e.i - e.lit_start) (drop e.lit_start src)) lz_cap e.out
    if leb limit (length out)
        then none
        else if ltb lz_cap (length out + length token)
        then none
        else if leb (length src) (length out + length token)
        then none
        else some (record {
          i = e.i + best_len;
          lit_start = e.i + best_len;
          ht = skip (best_len - 1) (e.i + 1) ht;
          out = out ++ token;
        })

  -- The rounds. Each moves on by a byte at least, so that the size is enough fuel.
  unfoldable pub step : Encoder → Option Encoder
  unfolding emit
  step e = emit e (update e.ht (hash e.i) (some e.i)) (find (e.ht (hash e.i)) e.i)

  -- The last literals; `none` is the return value -1.
  unfoldable pub finish : Encoder → Option (List ℕ)
  unfolding flush_runs
  finish e = do
    out ← flush_lits (drop e.lit_start src) lz_cap e.out
    if ltb (length out) (length src) then some out else none

  unfoldable pub loop : ℕ → Encoder → Option (List ℕ)
  unfolding step finish
  loop zero e = finish e
  loop (suc fuel) e =
      let rest = (step e >>= λ e'. loop fuel e') in
      if leb (e.i + 3) (length src) then rest else finish e

-- The candidate of `lz77_encode`: the last position of the hash, when it is at most 256 bytes back.
unfoldable pub candidate : List ℕ → Option ℕ → ℕ → Option (ℕ × List ℕ)
unfolding match_length
candidate src none i = none
candidate src (some pos) i =
    let off = u64 (i + 2 ^ 64 - pos) in
    let mlen = match_length (min (length src - i) 130) (drop pos src) (drop i src) in
    if leb off 256 && leb 3 mlen then some (mlen, (0x80 + (mlen - 3)) ∷ (off - 1) ∷ []) else none

unfoldable pub lz77_encode : List ℕ → ℕ → Option (List ℕ)
unfolding loop candidate hash3
lz77_encode src lz_cap =
    loop src lz_cap (length src) (lz77_hash3 src) (candidate src) (length src) start
