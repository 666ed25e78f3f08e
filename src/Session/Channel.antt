-- ===== src/Session/Channel.antt =====
-- A connection as a whole: packet after packet from `netc_compress` of src/core/netc_compress.c to `netc_decompress` of
-- src/core/netc_decompress.c, with buffers as include/netc.h asks for.
use netc.Prelude.{ℕ, ◌+◌, ◌≤◌, ◌≡◌, refl, arith, List, [], ◌∷◌, Bool, true, false, ◌&&◌, not}
use netc.Prelude.{Option, none, some, if◌then◌else◌, IsByte, All}
use netc.Prelude.{length, replicate, length-replicate}
use netc.Prelude.Fallible.{◌>>=◌, guard-eq-some}
use netc.Result.{Result, ok, err}
use netc.Context.{
  Ctx, Cfg, has, cfg_compact_hdr, cfg_adaptive, cfg_stateful, ctx_create, created, packet,
}
use netc.Compress.Driver.{compress}
use netc.Decompress.{decompress}
use netc.Session.View.{view}
use netc.Session.Trip.{IsLink, decompress-compress}
use mathlib.Core.Path.{subst}
use mathlib.Core.Option.{some-injective}

-- `netc_compress_bound`.
abbrev pub compress_bound : ℕ → ℕ
compress_bound src_size = src_size + 8

-- The receiver's part, for a packet of the given size.
abbrev pub received : Option (Result (List ℕ) × Ctx) → Ctx → Option (List ℕ × Ctx × Ctx)
received none c' = none
received (some (err e, d')) c' = none
received (some (ok bytes, d')) c' = some (bytes, c', d')

abbrev pub exchange : Option (Result (List ℕ) × Ctx) → Ctx → ℕ → Option (List ℕ × Ctx × Ctx)
exchange none d size = none
exchange (some (err e, c')) d size = none
exchange (some (ok sent, c')) d size = received (decompress d sent (replicate size 0)) c'

-- The packets that arrive, or `none` as soon as a call fails or is undefined.
unfoldable pub converse : Ctx → Ctx → List (List ℕ) → Option (List (List ℕ))
unfolding compress decompress
converse c d [] = some []
converse c d (src ∷ packets) = do
  (bytes, c', d') ← exchange (compress c src (compress_bound (length src))) d (length src)
  rest ← converse c' d' packets
  some (bytes ∷ rest)

-- Bytes that a call takes.
abbrev pub IsPacket : List ℕ → Type 0
IsPacket src = All IsByte src × (length src ≤ 65535)

converse-IsLink :
    (c d : Ctx) (packets : List (List ℕ))
    → IsLink c d
    → All IsPacket packets
    → converse c d packets ≡ some packets
unfolding converse
converse-IsLink c d [] it h = refl
converse-IsLink c d (src ∷ packets) it h =
    let (sent, c', d', out, back, it') =
      decompress-compress c d src (replicate (length src) 0) (compress_bound (length src)) it h.0.0
        h.0.1 (omega (arith, length-replicate {A = ℕ} (length src) 0)) (omega arith) in
    rw (out, back, converse-IsLink c' d' packets it' h.1) refl

no_packet : (b : Bool) → All IsByte (packet (if b then some [] else none))
no_packet true = tt
no_packet false = tt

no_second :
    (adaptive compact : Bool)
    → (adaptive && compact) ≡ false
    → compact ≡ true
    → let prev2 : Option (List ℕ) = (if adaptive then some [] else none) in prev2 ≡ none
no_second true compact apart on = cc
no_second false compact apart on = refl

created-IsLink :
    (cfg : Cfg) (c : Ctx)
    → (has cfg.flags cfg_adaptive && has cfg.flags cfg_compact_hdr) ≡ false
    → ctx_create none cfg ≡ some c
    → IsLink c c
unfolding ctx_create view
created-IsLink cfg c apart e =
    let (_, same) =
      guard-eq-some (has cfg.flags cfg_adaptive && not (has cfg.flags cfg_stateful))
        (some (created none cfg)) c e in
    subst (λ t. IsLink t t) (some-injective (created none cfg) c same)
      (record {
        synced = refl;
        no_dict = refl;
        number = omega arith;
        prev = no_packet (has cfg.flags cfg_stateful);
        first = no_second (has cfg.flags cfg_adaptive) (has cfg.flags cfg_compact_hdr) apart;
      })

-- Two contexts that are created without a dictionary and with the same configuration, not both adaptive and
-- with compact headers, are a channel: every packet of at most 65535 bytes arrives, in order.
pub converse-ctx_create :
    (cfg : Cfg) (c : Ctx) (packets : List (List ℕ))
    → (has cfg.flags cfg_adaptive && has cfg.flags cfg_compact_hdr) ≡ false
    → ctx_create none cfg ≡ some c
    → All IsPacket packets
    → converse c c packets ≡ some packets
converse-ctx_create cfg c packets apart e h =
    converse-IsLink c c packets (created-IsLink cfg c apart e) h
