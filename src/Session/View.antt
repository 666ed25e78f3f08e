-- ===== src/Session/View.antt =====
-- What the two ends of a connection share: the fields of `netc_ctx_t` in src/core/netc_internal.h that the decoding of
-- later packets hangs on. The statistics, the arena and the levels are forgotten.
use netc.Prelude.{ℕ, ◌+◌, ◌≡◌, refl, ap, ◌∙◌, List, Bool, u8, length}
use netc.Prelude.{Bool-cases, inl, inr}
use netc.Context.{Ctx, no_stats, has, cfg_stats, remember, update_prev, learn}
use netc.Header.Wire.{PktHeader}
use netc.Decompress.{accept, count_decompressed}
use netc.Compress.{Choice, emit, count_compressed, packet_bytes}

unfoldable pub view : Ctx → Ctx
view ctx = record ctx { stats = no_stats; arena_size = 0; compression_level = 0; simd_level = 0 }

-- The two ends of a connection agree.
abbrev pub Synced : Ctx → Ctx → Type 0
Synced c d = view c ≡ view d

abbrev pub numbered : ℕ → Ctx → Ctx
numbered seq ctx = record ctx { context_seq = seq }

view-count_compressed :
    (ctx : Ctx) (m n : ℕ) (b : Bool) → view (count_compressed ctx m n b) ≡ view ctx
unfolding view count_compressed
view-count_compressed ctx m n b = elim (Bool-cases (has ctx.flags cfg_stats)) [
  | inl on ↦ rw on refl
  | inr off ↦ rw off refl
]

view-count_decompressed :
    (ctx : Ctx) (m n : ℕ) (b : Bool) → view (count_decompressed ctx m n b) ≡ view ctx
unfolding view count_decompressed
view-count_decompressed ctx m n b = elim (Bool-cases (has ctx.flags cfg_stats)) [
  | inl on ↦ rw on refl
  | inr off ↦ rw off refl
]

view-remember : (ctx : Ctx) (src : List ℕ) → view (remember ctx src) ≡ remember (view ctx) src
unfolding view remember update_prev learn
view-remember ctx src = refl

remember-numbered :
    (ctx : Ctx) (seq : ℕ) (src : List ℕ)
    → remember (numbered seq ctx) src ≡ numbered seq (remember ctx src)
unfolding remember update_prev learn
remember-numbered ctx seq src = refl

-- What either end keeps of a packet: the raw bytes, and the sequence number.
abbrev pub advanced : Ctx → List ℕ → ℕ → Ctx
advanced ctx src seq = numbered seq (remember ctx src)

-- The sender's context after a packet, seen this way.
pub view-emit :
    (ctx : Ctx) (src : List ℕ) (seq seq' : ℕ) (compact : Bool) (c : Choice)
    → view (emit (numbered seq' ctx) src seq compact c).1 ≡ advanced (view ctx) src seq'
unfolding emit view
view-emit ctx src seq seq' compact c =
    let next = numbered seq' ctx in
    view-count_compressed (remember next src) (length src)
      (length (packet_bytes next.dict src seq c compact)) c.passthru
    ∙ (ap view (remember-numbered ctx seq' src) ∙ ap (numbered seq') (view-remember ctx src))

-- The receiver's.
pub view-accept :
    (ctx : Ctx) (hdr : PktHeader) (n : ℕ) (bytes : List ℕ)
    → view (accept ctx hdr n bytes) ≡ advanced (view ctx) bytes (u8 (hdr.context_seq + 1))
unfolding accept view
view-accept ctx hdr n bytes =
    ap (numbered (u8 (hdr.context_seq + 1)))
      (view-count_decompressed (remember ctx bytes) n (length bytes) _ ∙ view-remember ctx bytes)
