-- ===== src/Tans/Built.antt =====
-- The table that `netc_tans_build` of src/algo/netc_tans.c makes, entry by entry.
use netc.Prelude.{ℕ, ◌+◌, ◌^◌, ◌≤◌, ◌<◌, ◌≡◌, refl, ap, ap₂, arith, ◌∙◌, sym}
use netc.Prelude.{◌≢◌, true, none, some, u16}
use netc.Tans.Params.{Params, table_size, symbols}
use netc.Tans.Table.{Table, DecodeEntry, empty_decode, total, cumul, update, decode_entry}
use netc.Tans.Table.{encode_entry, spread_states, spread_decode, build}
use netc.Tans.Spread.{below, below-next, total-eq-below, cumul-eq-below, occurrence_unique}
use netc.Tans.Spread.{IsFreq, slot, slot-lt, visit-inv}
use native.Mathlib.Nat.{pow-le-pow_right}
use native.Mathlib.Decide.{ℕ_discrete}

-- A frequency table that fills the coder's table exactly.
pub record IsNormalized (p : Params) (freq : ℕ → ℕ) : Type 0 where
  pub words : IsFreq freq
  pub sums : below freq symbols ≡ table_size p

module _ (p : Params) (freq : ℕ → ℕ) (norm : IsNormalized p freq) where
  size-le : table_size p ≤ 2 ^ 14
  size-le = pow-le-pow_right {n = 2} (omega arith) p.small

  -- The occurrences of a symbol lie inside the table.
  pub occurrence-lt : (s k : ℕ) → s < symbols → k < freq s → below freq s + k < table_size p
  occurrence-lt s k hs hk = omega (arith, below-next freq s symbols hs, norm.sums)

  pub freq-le : (s : ℕ) → s < symbols → below freq s + freq s ≤ table_size p
  freq-le s hs = omega (arith, below-next freq s symbols hs, norm.sums)

  pub cumul-is : (s : ℕ) → s < symbols → cumul freq s ≡ below freq s
  cumul-is s hs = cumul-eq-below freq s (omega (arith, freq-le s hs, size-le))

  states_keep :
      (s k : ℕ) (a : ℕ → ℕ)
      → s < symbols
      → k < freq s
      → ((m : ℕ) → m < below freq s + k → a m ≡ table_size p + slot p freq m)
      → (m : ℕ) → m < below freq s + k + 1
      → update a (cumul freq s + k) (u16 (table_size p + slot p freq (below freq s + k))) m
        ≡ table_size p + slot p freq m
  states_keep s k a hs hk h m hm =
      let n = below freq s + k in
      let index : cumul freq s + k ≡ n = omega (arith, cumul-is s hs) in
      let word : u16 (table_size p + slot p freq n) ≡ table_size p + slot p freq n =
        omega (arith, slot-lt p freq n, size-le) in
      elim (ℕ_discrete n m) [
        | yes same ↦ rw (index, word) (ground (arith, ap (slot p freq) same))
        | no other ↦ rw (index, word) (ground (arith, h m))
      ]

  pub spread_states_lem :
      (n : ℕ) → n < table_size p → spread_states p freq n ≡ table_size p + slot p freq n
  unfolding spread_states
  spread_states_lem n hn =
      visit-inv p freq (λ s k pos a. update a (cumul freq s + k) (u16 (table_size p + pos)))
        (λ m a. (i : ℕ) → i < m → a i ≡ table_size p + slot p freq i) states_keep (λ _. 0)
        (λ i hi. absurd (omega arith)) n (omega (arith, norm.sums))

  decode_keep :
      (s k : ℕ) (a : ℕ → DecodeEntry)
      → s < symbols
      → k < freq s
      → ((t l : ℕ)
          → l < freq t
          → below freq t + l < below freq s + k
          → a (slot p freq (below freq t + l)) ≡ decode_entry p freq t l)
      → (t l : ℕ) → l < freq t
      → below freq t + l < below freq s + k + 1
      → update a
          (slot p freq (below freq s + k))
          (decode_entry p freq s k)
          (slot p freq (below freq t + l))
        ≡ decode_entry p freq t l
  decode_keep s k a hs hk h t l hl hm =
      let n = below freq s + k in
      let m = below freq t + l in
      elim (ℕ_discrete m n) [
        | yes same ↦
            let (es, ek) = occurrence_unique freq t l s k hl hk same in
            ground (arith, ap (slot p freq) same, ap₂ (decode_entry p freq) (sym es) (sym ek))
        | no other ↦ ground (arith, h t l hl, occurrence-lt s k hs hk, p.visits_once n m)
      ]

  pub spread_decode_lem :
      (s k : ℕ)
      → s < symbols
      → k < freq s
      → spread_decode p freq (slot p freq (below freq s + k)) ≡ decode_entry p freq s k
  unfolding spread_decode
  spread_decode_lem s k hs hk =
      visit-inv p freq (λ t l pos a. update a pos (decode_entry p freq t l))
        (λ m a.
          (t l : ℕ)
          → l < freq t
          → below freq t + l < m
          → a (slot p freq (below freq t + l)) ≡ decode_entry p freq t l)
        decode_keep (λ _. empty_decode) (λ t l hl hm. absurd (omega arith)) s k hk
        (omega (arith, occurrence-lt s k hs hk, norm.sums))

-- The entries of the built tables, without the loops that wrote them.
pub record IsBuilt (p : Params) (freq : ℕ → ℕ) (t : Table) : Type 0 where
  pub valid : t.valid ≡ true
  pub encodes : (s : ℕ) → t.encode s ≡ encode_entry p freq s
  pub states : (n : ℕ) → n < table_size p → t.encode_state n ≡ table_size p + slot p freq n
  pub decodes :
      (s k : ℕ)
      → s < symbols
      → k < freq s
      → t.decode (slot p freq (below freq s + k)) ≡ decode_entry p freq s k

abbrev pub built_table : Params → (ℕ → ℕ) → Table
built_table p freq = record {
  decode = spread_decode p freq;
  encode_state = spread_states p freq;
  encode = encode_entry p freq;
  freq = freq;
  valid = true;
}

pub build-eq-some :
    (p : Params) (freq : ℕ → ℕ) → IsNormalized p freq → build p freq ≡ some (built_table p freq)
unfolding build
build-eq-some p freq norm =
    let sum : total freq symbols ≡ table_size p =
      total-eq-below freq symbols norm.words (omega arith) ∙ norm.sums in
    rw sum (ground arith)

-- A frequency table of 16-bit words that sums to the table size is accepted: each occurrence of a
-- symbol gets a state, and the slot of that state decodes to the occurrence.
pub build-IsBuilt :
    (p : Params) (freq : ℕ → ℕ)
    → IsNormalized p freq
    → (t : Table) × (build p freq ≡ some t) × IsBuilt p freq t
build-IsBuilt p freq norm = (
  built_table p freq,
  build-eq-some p freq norm,
  record {
    valid = refl;
    encodes = λ s. refl;
    states = spread_states_lem p freq norm;
    decodes = spread_decode_lem p freq norm;
  },
)

-- A frequency table of 16-bit words that sums to anything else is refused.
pub build-eq-none :
    (p : Params) (freq : ℕ → ℕ)
    → IsFreq freq
    → below freq symbols ≢ table_size p
    → build p freq ≡ none
unfolding build
build-eq-none p freq words ne =
    let sum : total freq symbols ≡ below freq symbols =
      total-eq-below freq symbols words (omega arith) in
    ground arith
