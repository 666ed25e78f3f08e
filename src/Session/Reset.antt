-- ===== src/Session/Reset.antt =====
-- `netc_ctx_reset` of src/core/netc_ctx.c after packets that `netc_decompress` took or refused.
use netc.Prelude.{ℕ, zero, suc, ◌+◌, ◌≡◌, refl, sym, ap, arith, ◌∙◌, List, [], ◌∷◌}
use netc.Prelude.{Bool, true, false, ◌&&◌, not, Bool-cases, ◌⊎◌, inl, inr, Option, none, some}
use netc.Prelude.{
  ◌==◌, ◌||◌, if-true, ltb, leb, if◌then◌else◌, length, replicate, length-replicate, u8, u32,
}
use netc.Prelude.Fallible.{guard-eq-some}
use netc.Result.{Result, ok, err}
use netc.Lzp.{LzpTable}
use netc.History.{Ring, ring_append}
use netc.History.Moves.{IsRing}
use netc.History.Append.{ring_append-oldest_first}
use netc.Adaptive.{Adapt, accumulate, tables_rebuild, adaptive_update}
use netc.Context.{
  Ctx, Cfg, Dict, Stats, cfg_stats, has, cfg_stateful, cfg_adaptive, created, ctx_create, ctx_reset,
  remember, update_prev, learn, learned, learned_lzp, replaced, rotated, emptied, reset_adapt,
  reset_lzp, fresh_adapt, boosted_table, cloned_lzp, cloned_tables, no_stats,
}
use netc.Decompress.{decompress, accept, count_decompressed}
use netc.Context.{cfg_compact_hdr}
use netc.Decompress.Within.{filled, IsSafe, decompress-IsSafe}
use netc.Header.Wire.{PktHeader}
use mathlib.Core.Path.{subst}
use mathlib.Core.Option.{some-injective}

-- An adaptive LZP table stands only beside adaptive tables, over a dictionary that has one.
abbrev Sourced : Option Dict → Option Adapt → Option LzpTable → Type 0
Sourced dict adapt none = Unit
Sourced (some d) (some a) (some t) = (u : LzpTable) × (d.lzp_table ≡ some u)
Sourced none adapt (some t) = ⊥
Sourced (some d) none (some t) = ⊥

record IsFresh (c : Ctx) : Type 0 where
  pub ring : IsRing c.ring ⊎ (c.ring.ring ≡ [])
  pub sourced : Sourced c.dict c.adapt c.adapt_lzp

accumulate-tables : (bytes : List ℕ) (i : ℕ) (a : Adapt) → (accumulate a i bytes).tables ≡ a.tables
unfolding accumulate
accumulate-tables [] i a = refl
accumulate-tables (byte ∷ bytes) i a = accumulate-tables bytes (i + 1) _

update-tables : (a : Adapt) (bytes : List ℕ) → (adaptive_update none a bytes).tables ≡ a.tables
unfolding adaptive_update tables_rebuild
update-tables a bytes = elim (Bool-cases (leb 128 (u32 (a.pkt_count + 1)))) [
  | inl on ↦ rw on (accumulate-tables bytes 0 a)
  | inr off ↦ rw off (accumulate-tables bytes 0 a)
]

reset_adapt-learned :
    (dict : Option Dict) (bytes : List ℕ) (adapt : Option Adapt)
    → reset_adapt dict (learned dict bytes adapt) ≡ reset_adapt dict adapt
reset_adapt-learned none bytes none = refl
reset_adapt-learned (some d) bytes none = refl
reset_adapt-learned none bytes (some a) = ap (λ t. some (fresh_adapt t)) (update-tables a bytes)
reset_adapt-learned (some d) bytes (some a) = refl

reset_lzp-learned :
    (dict : Option Dict) (bytes : List ℕ) (adapt : Option Adapt) (lzp : Option LzpTable)
    → Sourced dict adapt lzp
    → (reset_lzp dict (learned dict bytes adapt) (learned_lzp bytes lzp) ≡ reset_lzp dict adapt lzp)
      × Sourced dict (learned dict bytes adapt) (learned_lzp bytes lzp)
reset_lzp-learned none bytes none none h = (refl, tt)
reset_lzp-learned none bytes (some a) none h = (refl, tt)
reset_lzp-learned (some d) bytes none none h = (refl, tt)
reset_lzp-learned (some d) bytes (some a) none h = (refl, tt)
reset_lzp-learned (some d) bytes (some a) (some t) (u, e) = (rw e refl, (u, e))
reset_lzp-learned none bytes none (some t) h = elim h [ ]
reset_lzp-learned none bytes (some a) (some t) h = elim h [ ]
reset_lzp-learned (some d) bytes none (some t) h = elim h [ ]

emptied-replaced : (p : Option (List ℕ)) (bytes : List ℕ) → emptied (replaced p bytes) ≡ emptied p
emptied-replaced none bytes = refl
emptied-replaced (some p) bytes = refl

emptied-rotated : (p q : Option (List ℕ)) → emptied (rotated p q) ≡ emptied q
emptied-rotated none q = refl
emptied-rotated (some p) none = refl
emptied-rotated (some p) (some q) = refl

length-ring_append :
    (r : Ring) (bytes : List ℕ)
    → IsRing r ⊎ (r.ring ≡ [])
    → (length (ring_append r bytes).ring ≡ length r.ring)
      × (IsRing (ring_append r bytes) ⊎ ((ring_append r bytes).ring ≡ []))
unfolding ring_append
length-ring_append r bytes (inl it) =
    let (it', same, _) = ring_append-oldest_first r bytes it in (same, inl it')
length-ring_append r bytes (inr e) =
    let skipped : (length r.ring == 0 || length bytes == 0) ≡ true = ground (arith, ap length e) in
    let same : ring_append r bytes ≡ r = if-true _ _ _ skipped in
    (ap (λ t. length t.ring) same, inr (ap (λ t. t.ring) same ∙ e))

-- A context at rest, with its ring of the given size.
abbrev at_rest : Ctx → ℕ → Option (List ℕ) → Option (List ℕ) → Option Adapt → Option LzpTable → Ctx
at_rest c size prev prev2 adapt lzp = record c {
  ring = record { ring = replicate size 0; ring_pos = 0 };
  prev_pkt = prev;
  prev2_pkt = prev2;
  context_seq = 0;
  stats = no_stats;
  adapt = adapt;
  adapt_lzp = lzp;
}

at_rest_lem :
    (c : Ctx) (m n : ℕ) (p p' q q' : Option (List ℕ)) (a a' : Option Adapt) (l l' : Option LzpTable)
    → m ≡ n
    → p ≡ p'
    → q ≡ q'
    → a ≡ a'
    → l ≡ l'
    → at_rest c m p q a l ≡ at_rest c n p' q' a' l'
at_rest_lem c m n p p' q q' a a' l l' em ep eq ea el = rw (em, ep, eq, ea, el) refl

reset-remember :
    (c : Ctx) (bytes : List ℕ)
    → IsFresh c
    → (ctx_reset (remember c bytes) ≡ ctx_reset c) × IsFresh (remember c bytes)
unfolding ctx_reset remember update_prev learn
reset-remember c bytes it =
    let (size, ring) = length-ring_append c.ring bytes it.ring in
    let (lzp, sourced) = reset_lzp-learned c.dict bytes c.adapt c.adapt_lzp it.sourced in
    (
      at_rest_lem c _ _ _ _ _ _ _ _ _ _ size (emptied-replaced c.prev_pkt bytes)
          (emptied-rotated c.prev_pkt c.prev2_pkt) (reset_adapt-learned c.dict bytes c.adapt) lzp,
      record { ring = ring; sourced = sourced },
    )

-- The context after calls that are given these packets, each with a buffer, or `none` from an undefined
-- run on.
abbrev pub then_receive : (Ctx → Option Ctx) → Option (Result (List ℕ) × Ctx) → Option Ctx
then_receive rest none = none
then_receive rest (some (r, c')) = rest c'

unfoldable pub receive_all : Ctx → List (List ℕ × List ℕ) → Option Ctx
unfolding decompress
receive_all c [] = some c
receive_all c ((src, dst) ∷ packets) =
    then_receive (λ c'. receive_all c' packets) (decompress c src dst)

-- What a reset then gives, in terms of the reset of another context. Without a dictionary the runs are defined.
abbrev pub ResetsTo : Ctx → Option Ctx → Option Dict → Type 0
ResetsTo rest none dict = (d : Dict) × (dict ≡ some d)
ResetsTo rest (some c') dict = ctx_reset c' ≡ rest

stats_lem :
    (b : Bool) (c : Ctx) (stats : Stats) (seq : ℕ)
    → IsFresh c
    → let counted = (if b then record c { stats = stats } else c) in
      let c' = record counted { context_seq = seq } in (ctx_reset c' ≡ ctx_reset c) × IsFresh c'
unfolding ctx_reset
stats_lem true c stats seq it = (refl, record { ring = it.ring; sourced = it.sourced })
stats_lem false c stats seq it = (refl, record { ring = it.ring; sourced = it.sourced })

reset-accept :
    (c : Ctx) (h : PktHeader) (size : ℕ) (bytes : List ℕ)
    → IsFresh c
    → (ctx_reset (accept c h size bytes) ≡ ctx_reset c) × IsFresh (accept c h size bytes)
unfolding accept count_decompressed
reset-accept c h size bytes it =
    let (resets, fresh) = reset-remember c bytes it in
    let after = remember c bytes in
    let (counted, it') =
      stats_lem (has after.flags cfg_stats) after _ (u8 (h.context_seq + 1)) fresh in
    (counted ∙ resets, it')

accept-dict :
    (c : Ctx) (h : PktHeader) (size : ℕ) (bytes : List ℕ) → (accept c h size bytes).dict ≡ c.dict
unfolding accept count_decompressed remember update_prev learn
accept-dict c h size bytes = choose (has c.flags cfg_stats) _
  where
    choose :
        (b : Bool) (stats : Stats)
        → let after = remember c bytes in
          (if b then record after { stats = stats } else after).dict ≡ c.dict
    choose true stats = refl
    choose false stats = refl

kept_lem :
    (c c' : Ctx) (rest : Ctx → Option Ctx)
    → ctx_reset c' ≡ ctx_reset c
    → c'.dict ≡ c.dict
    → ResetsTo (ctx_reset c') (rest c') c'.dict
    → ResetsTo (ctx_reset c) (rest c') c.dict
kept_lem c c' rest resets dict it =
    subst (λ o. ResetsTo (ctx_reset c) (rest c') o) dict
      (subst (λ r. ResetsTo r (rest c') c'.dict) resets it)

taken_lem :
    (c : Ctx) (src dst : List ℕ) (rest : Ctx → Option Ctx) (r : Option (Result (List ℕ) × Ctx))
    → IsFresh c
    → IsSafe c src dst r
    → ((c' : Ctx) → IsFresh c' → ResetsTo (ctx_reset c') (rest c') c'.dict)
    → ResetsTo (ctx_reset c) (then_receive rest r) c.dict
taken_lem c src dst rest none it safe h = safe
taken_lem c src dst rest (some (err e, c')) it (_, same) h =
    kept_lem c c' rest (ap ctx_reset same) (ap (λ t. t.dict) same)
      (h c' (subst IsFresh (sym same) it))
taken_lem c src dst rest (some (ok bytes, c')) it (head, sz, _, _, _, moved) h =
    let full = filled c (has c.flags cfg_compact_hdr) head in
    let (resets, it') = reset-accept c full (length src) bytes it in
    kept_lem c c' rest (ap ctx_reset moved ∙ resets)
      (ap (λ t. t.dict) moved ∙ accept-dict c full (length src) bytes)
      (h c' (subst IsFresh (sym moved) it'))

reset-receive_all :
    (packets : List (List ℕ × List ℕ)) (c : Ctx)
    → IsFresh c
    → ResetsTo (ctx_reset c) (receive_all c packets) c.dict
unfolding receive_all
reset-receive_all [] c it = refl
reset-receive_all ((src, dst) ∷ packets) c it =
    taken_lem c src dst (λ c'. receive_all c' packets) (decompress c src dst) it
      (decompress-IsSafe c src dst) (λ c' it'. reset-receive_all packets c' it')

fresh_ring :
    (stateful : Bool) (n : ℕ)
    → let r : Ring = (record { ring = if stateful then replicate n 0 else []; ring_pos = 0 }) in
      IsRing r ⊎ (r.ring ≡ [])
fresh_ring false n = inr refl
fresh_ring true zero = inr refl
fresh_ring true (suc n) = inl (omega arith)

fresh_lzp :
    (dict : Option Dict) (adaptive : Bool)
    → Sourced dict
        (if adaptive then some (fresh_adapt (cloned_tables dict)) else none)
        (if adaptive then cloned_lzp dict else none)
fresh_lzp none false = tt
fresh_lzp none true = tt
fresh_lzp (some d) false = tt
fresh_lzp (some d) true = source d.lzp_table refl
  where
    source :
        (t : Option LzpTable)
        → d.lzp_table ≡ t
        → Sourced (some d) (some (fresh_adapt d.tables)) (boosted_table t)
    source none e = tt
    source (some t) e = (t, e)

rest_size :
    (stateful : Bool) (n : ℕ)
    → let ring : List ℕ = (if stateful then replicate n 0 else []) in
      replicate (length ring) 0 ≡ ring
rest_size false n = refl
rest_size true n = ap (λ m. replicate m 0) (length-replicate {A = ℕ} n 0)

reset-fresh :
    (dict : Option Dict) (adaptive : Bool)
    → let adapt : Option Adapt =
        (if adaptive then some (fresh_adapt (cloned_tables dict)) else none) in
      (reset_adapt dict adapt ≡ adapt)
      × (reset_lzp dict adapt (if adaptive then cloned_lzp dict else none)
          ≡ (if adaptive then cloned_lzp dict else none))
reset-fresh none false = (refl, refl)
reset-fresh none true = (refl, refl)
reset-fresh (some d) false = (refl, refl)
reset-fresh (some d) true = (refl, clone d.lzp_table refl)
  where
    clone :
        (t : Option LzpTable)
        → d.lzp_table ≡ t
        → reset_lzp (some d) (some (fresh_adapt d.tables)) (boosted_table t) ≡ boosted_table t
    clone none e = refl
    clone (some t) e = rw e refl

rest_buffer : (b : Bool) → emptied (if b then some [] else none) ≡ (if b then some [] else none)
rest_buffer true = refl
rest_buffer false = refl

created_lem :
    (dict : Option Dict) (cfg : Cfg)
    → (ctx_reset (created dict cfg) ≡ created dict cfg) × IsFresh (created dict cfg)
unfolding ctx_reset
created_lem dict cfg =
    let stateful = has cfg.flags cfg_stateful in
    let adaptive = has cfg.flags cfg_adaptive in
    let size = (if ltb 0 cfg.ring_buffer_size then u32 cfg.ring_buffer_size else 65536) in
    let (adapt, lzp) = reset-fresh dict adaptive in
    (
      fields (created dict cfg) _ _ _ _ _ (rest_size stateful size) (rest_buffer stateful)
          (rest_buffer adaptive) adapt lzp,
      record { ring = fresh_ring stateful size; sourced = fresh_lzp dict adaptive },
    )
  where
    fields :
        (c : Ctx) (xs : List ℕ) (p q : Option (List ℕ)) (a : Option Adapt) (l : Option LzpTable)
        → xs ≡ c.ring.ring
        → p ≡ c.prev_pkt
        → q ≡ c.prev2_pkt
        → a ≡ c.adapt
        → l ≡ c.adapt_lzp
        → record c {
          ring = record { ring = xs; ring_pos = 0 };
          prev_pkt = p;
          prev2_pkt = q;
          context_seq = 0;
          stats = no_stats;
          adapt = a;
          adapt_lzp = l;
        }
          ≡ record c {
            ring = record { ring = c.ring.ring; ring_pos = 0 };
            context_seq = 0;
            stats = no_stats;
          }
    fields c xs p q a l ex ep eq ea el = rw (ex, ep, eq, ea, el) refl

-- A context that was created, with or without a dictionary, and that has since been given any packets, is
-- as it was created after a reset. Only with a dictionary may a packet end in a run that C leaves undefined,
-- after which nothing is stated.
pub ctx_reset-receive_all :
    (dict : Option Dict) (cfg : Cfg) (c : Ctx) (packets : List (List ℕ × List ℕ))
    → ctx_create dict cfg ≡ some c
    → ResetsTo c (receive_all c packets) dict
unfolding ctx_create
ctx_reset-receive_all dict cfg c packets e =
    let (_, same) =
      guard-eq-some (has cfg.flags cfg_adaptive && not (has cfg.flags cfg_stateful))
        (some (created dict cfg)) c e in
    let (rest, it) = created_lem dict cfg in
    subst (λ t. ResetsTo t (receive_all t packets) dict) (some-injective (created dict cfg) c same)
      (subst (λ r. ResetsTo r (receive_all (created dict cfg) packets) dict) rest
        (reset-receive_all packets (created dict cfg) it))
