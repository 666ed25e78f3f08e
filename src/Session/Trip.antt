-- ===== src/Session/Trip.antt =====
-- Packets over a connection with no dictionary, from `netc_compress` of src/core/netc_compress.c to
-- `netc_decompress` of src/core/netc_decompress.c.
use netc.Prelude.{length-append, ℕ, ◌+◌, ◌-◌, ◌^◌, ◌<◌, ◌≤◌, ◌≡◌, refl, sym, ap, arith, ◌∙◌, List}
use netc.Prelude.{Bool, true, false, ◌&&◌, Bool-cases, inl, inr, Option, none, some}
use netc.Prelude.{ltb, leb, if◌then◌else◌, if-false, ◌%◌, u8, IsByte, All}
use netc.Prelude.{length}
use netc.Prelude.Fallible.{unless-eq-some}
use netc.Result.{Result, ok, err}
use netc.Header.Wire.{hdr_emit, hdr_write, hdr_write_compact}
use netc.Context.{
  Ctx, Dict, has, cfg_compact_hdr, packet, replaced, rotated, remember, update_prev, learn,
}
use netc.Decompress.{model_of, accept, decompress}
use netc.Compress.{
  Choice, header, packet_bytes, emit, emit_plain, plain_choice, lz77_path, conclude, compress_tail,
  delta_pass,
}
use netc.Compress.Driver.{header_size, compress_any, compress}
use netc.Session.Frame.{IsChoice, Decodes, decompress-packet_bytes}
use netc.Session.Choices.{Fits, plain-IsChoice, plain-Decodes, path_lem}
use netc.Session.View.{view, Synced, numbered, advanced, view-emit, view-accept}
use netc.Session.Delta.{IsPrepared, delta_pass-IsPrepared}
use mathlib.Core.Path.{subst}

-- What is delivered: the packet, to a receiver in step with the sender.
abbrev pub Delivered : Ctx → List ℕ → List ℕ → Option (Result (List ℕ) × Ctx) → Type 0
Delivered d src dst none = ⊥
Delivered d src dst (some (err e, c')) = ⊥
Delivered d src dst (some (ok sent, c')) =
    (d' : Ctx) × (decompress d sent dst ≡ some (ok src, d'))
    × Synced c' d'
    × (view d' ≡ advanced (view d) src (u8 (d.context_seq + 1)))

-- A packet that the sender has settled on is delivered when the receiver can decode it.
emit-Delivered :
    (c d : Ctx) (src dst : List ℕ) (ch : Choice)
    → Synced c d
    → IsByte (model_of d.dict)
    → IsByte d.context_seq
    → length src < 2 ^ 16
    → length src ≤ length dst
    → IsChoice (has d.flags cfg_compact_hdr) ch
    → Decodes d src dst ch
    → Delivered d src dst (
        some (
          emit
            (numbered (u8 (c.context_seq + 1)) c)
            src
            c.context_seq
            (has c.flags cfg_compact_hdr)
            ch))
unfolding emit view
emit-Delivered c d src dst ch sync hm hq hs room it dec =
    let hdr = header d.dict src d.context_seq ch in
    let sent = packet_bytes d.dict src d.context_seq ch (has d.flags cfg_compact_hdr) in
    let same : packet_bytes c.dict src c.context_seq ch (has c.flags cfg_compact_hdr) ≡ sent =
      ap (λ v. packet_bytes v.dict src v.context_seq ch (has v.flags cfg_compact_hdr)) sync in
    (
      accept d hdr (length sent) src,
      ap (λ p. decompress d p dst) same ∙ decompress-packet_bytes d src dst ch hm hq hs room it dec,
      view-emit c src c.context_seq (u8 (c.context_seq + 1)) (has c.flags cfg_compact_hdr) ch
          ∙ (ap (λ v. advanced v src (u8 (v.context_seq + 1))) sync
              ∙ sym (view-accept d hdr (length sent) src)),
      view-accept d hdr (length sent) src,
    )

pub length-packet_bytes :
    (dict : Option Dict) (src : List ℕ) (seq : ℕ) (ch : Choice) (compact : Bool)
    → length src < 2 ^ 16
    → length (packet_bytes dict src seq ch compact)
      ≡ header_size compact (length src) + length ch.payload
unfolding packet_bytes hdr_emit hdr_write hdr_write_compact
length-packet_bytes dict src seq ch false h = omega arith
length-packet_bytes dict src seq ch true h =
    let same : length src % 2 ^ 16 ≡ length src = omega arith in
    elim (Bool-cases (leb (length src) 127)) [
      | inl short ↦ rw (same, short) (omega arith)
      | inr long ↦ rw (same, long) (omega arith)
    ]

pub length-hdr_emit :
    (dict : Option Dict) (src : List ℕ) (seq : ℕ) (ch : Choice) (compact : Bool)
    → length src < 2 ^ 16
    → length (hdr_emit (header dict src seq ch) compact) ≡ header_size compact (length src)
unfolding packet_bytes
length-hdr_emit dict src seq ch compact h = omega (
  arith,
  length-packet_bytes dict src seq ch compact h,
  length-append (hdr_emit (header dict src seq ch) compact) ch.payload,
)

conclude-Delivered :
    (c d : Ctx) (src dst : List ℕ) (dst_cap : ℕ) (o : Option Choice)
    → Synced c d
    → IsByte (model_of d.dict)
    → IsByte d.context_seq
    → length src < 2 ^ 16
    → length src ≤ length dst
    → header_size (has c.flags cfg_compact_hdr) (length src) + length src ≤ dst_cap
    → ((ch : Choice) → o ≡ some ch → Fits d src dst ch)
    → Delivered d src dst (
        conclude
          (numbered (u8 (c.context_seq + 1)) c)
          src
          c.context_seq
          dst_cap
          (has c.flags cfg_compact_hdr)
          o)
unfolding conclude emit_plain
conclude-Delivered c d src dst dst_cap (some ch) sync hm hq hs room cap fits =
    let (it, dec) = fits ch refl in emit-Delivered c d src dst ch sync hm hq hs room it dec
conclude-Delivered c d src dst dst_cap none sync hm hq hs room cap fits =
    let compact = has c.flags cfg_compact_hdr in
    let next = numbered (u8 (c.context_seq + 1)) c in
    let size = length-packet_bytes c.dict src c.context_seq (plain_choice src) compact hs in
    let enough : ltb dst_cap
          (length (packet_bytes c.dict src c.context_seq (plain_choice src) compact))
        ≡ false =
      ground (arith, size) in
    let hdr = hdr_emit (header c.dict src c.context_seq (plain_choice src)) compact in
    let headed : ltb dst_cap (length hdr) ≡ false =
      ground (arith, length-hdr_emit c.dict src c.context_seq (plain_choice src) compact hs) in
    subst (λ r. Delivered d src dst r)
      (sym (if-false (ltb dst_cap (length hdr)) _ _ headed ∙ if-false _ _ _ enough))
      (emit-Delivered c d src dst (plain_choice src) sync hm hq hs room
        (plain-IsChoice (has d.flags cfg_compact_hdr) src hs) (plain-Decodes d src dst hs))

-- A connection without a dictionary whose ends agree. With compact headers there is no packet before the
-- last: their types cannot tell the second order of an LZ77 packet.
pub record IsLink (c d : Ctx) : Type 0 where
  pub synced : Synced c d
  pub no_dict : d.dict ≡ none
  pub number : IsByte d.context_seq
  pub prev : All IsByte (packet d.prev_pkt)
  pub first : has d.flags cfg_compact_hdr ≡ true → d.prev2_pkt ≡ none

to_tail :
    (c : Ctx) (src : List ℕ) (dst_cap : ℕ)
    → c.dict ≡ none
    → length src ≤ 65535
    → 8 ≤ dst_cap
    → let next = numbered (u8 (c.context_seq + 1)) c in
      let compact = has c.flags cfg_compact_hdr in
      compress c src dst_cap
      ≡ compress_tail next src
          (delta_pass next src)
          c.context_seq
          (header_size compact (length src))
          dst_cap
          compact
unfolding compress compress_any
to_tail c src dst_cap no_dict hs cap =
    let next = numbered (u8 (c.context_seq + 1)) c in
    let compact = has c.flags cfg_compact_hdr in
    let short : ltb 65535 (length src) ≡ false = ground arith in
    let room : ltb dst_cap 2 ≡ false = ground arith in
    if-false (ltb 65535 (length src)) _ _ short
    ∙ (if-false (ltb dst_cap 2) _ _ room
        ∙ ap
            (λ o.
              compress_any o next src c.context_seq (header_size compact (length src)) dst_cap
                compact (delta_pass next src))
            no_dict)

no_model : (dict : Option Dict) → dict ≡ none → IsByte (model_of dict)
no_model none e = omega arith
no_model (some m) e = cc

header_size-le : (compact : Bool) (n : ℕ) → header_size compact n ≤ 8
header_size-le compact n = ground arith

sent_lem :
    (c d : Ctx) (src dst : List ℕ) (dst_cap : ℕ)
    → IsLink c d
    → All IsByte src
    → length src ≤ 65535
    → length src ≤ length dst
    → length src + 8 ≤ dst_cap
    → Delivered d src dst (compress c src dst_cap)
unfolding compress_tail lz77_path view
sent_lem c d src dst dst_cap it bytes hs room cap =
    let next = numbered (u8 (c.context_seq + 1)) c in
    let compact = has c.flags cfg_compact_hdr in
    let hdr_sz = header_size compact (length src) in
    let p = delta_pass next src in
    let c_dict : c.dict ≡ none = ap (λ v. v.dict) it.synced ∙ it.no_dict in
    let prev : c.prev_pkt ≡ d.prev_pkt = ap (λ v. v.prev_pkt) it.synced in
    let prev2 : c.prev2_pkt ≡ d.prev2_pkt = ap (λ v. v.prev2_pkt) it.synced in
    let prepared : IsPrepared d.prev_pkt d.prev2_pkt src p =
      subst (λ o. IsPrepared o d.prev2_pkt src p) prev
        (subst (λ o. IsPrepared c.prev_pkt o src p) prev2
          (delta_pass-IsPrepared next src (subst (λ o. All IsByte (packet o)) (sym prev) it.prev)
            bytes)) in
    let guard = ltb 0 (length src) && ltb hdr_sz dst_cap in
    let small : length src < 2 ^ 16 = omega arith in
    subst (λ r. Delivered d src dst r) (sym (to_tail c src dst_cap c_dict hs (omega arith)))
      (conclude-Delivered c d src dst dst_cap
        (if guard then lz77_path next src p (dst_cap - hdr_sz) else none) it.synced
        (no_model d.dict it.no_dict) it.number small room
        (omega (arith, header_size-le compact (length src)))
        (λ ch e.
          let (_, path) = unless-eq-some guard (lz77_path next src p (dst_cap - hdr_sz)) ch e in
          path_lem d src dst p (dst_cap - hdr_sz) ch small prepared it.first
            (sym (ap (λ v. lz77_path v src p (dst_cap - hdr_sz)) it.synced) ∙ path)))

replaced-bytes :
    (o : Option (List ℕ)) (src : List ℕ) → All IsByte src → All IsByte (packet (replaced o src))
replaced-bytes none src h = tt
replaced-bytes (some prev) src h = h

rotated-none : (o : Option (List ℕ)) → rotated o none ≡ none
rotated-none none = refl
rotated-none (some prev) = refl

next-IsLink :
    (c d c' d' : Ctx) (src : List ℕ)
    → IsLink c d
    → All IsByte src
    → Synced c' d'
    → view d' ≡ advanced (view d) src (u8 (d.context_seq + 1))
    → IsLink c' d'
unfolding view remember update_prev learn
next-IsLink c d c' d' src it bytes sync moved =
    let prev : d'.prev_pkt ≡ replaced d.prev_pkt src = ap (λ v. v.prev_pkt) moved in
    let prev2 : d'.prev2_pkt ≡ rotated d.prev_pkt d.prev2_pkt = ap (λ v. v.prev2_pkt) moved in
    let seq : d'.context_seq ≡ u8 (d.context_seq + 1) = ap (λ v. v.context_seq) moved in
    let flags : d'.flags ≡ d.flags = ap (λ v. v.flags) moved in
    record {
      synced = sync;
      no_dict = ap (λ v. v.dict) moved ∙ it.no_dict;
      number = omega (arith, seq);
      prev = subst (λ o. All IsByte (packet o)) (sym prev) (replaced-bytes d.prev_pkt src bytes);
      first = λ compact.
          prev2
          ∙ (ap (rotated d.prev_pkt)
                (it.first (sym (ap (λ (f : ℕ). has f cfg_compact_hdr) flags) ∙ compact))
              ∙ rotated-none d.prev_pkt);
    }

outcome :
    (c d : Ctx) (src dst : List ℕ) (dst_cap : ℕ) (r : Option (Result (List ℕ) × Ctx))
    → IsLink c d
    → All IsByte src
    → compress c src dst_cap ≡ r
    → Delivered d src dst r
    → (sent : List ℕ) × (c' : Ctx) × (d' : Ctx) × (compress c src dst_cap ≡ some (ok sent, c'))
      × (decompress d sent dst ≡ some (ok src, d'))
      × IsLink c' d'
outcome c d src dst dst_cap none it bytes eq h = absurd h
outcome c d src dst dst_cap (some (err e, c')) it bytes eq h = absurd h
outcome c d src dst dst_cap (some (ok sent, c')) it bytes eq (d', received, sync, moved) =
    (sent, c', d', eq, received, next-IsLink c d c' d' src it bytes sync moved)

-- Between two contexts without a dictionary that agree, and that with compact headers keep no packet before the
-- last, `netc_compress` of a packet of at most 65535 bytes succeeds with 8 bytes of room to spare,
-- `netc_decompress` gives the packet where the buffer has room for it, and the contexts are such a pair again.
pub decompress-compress :
    (c d : Ctx) (src dst : List ℕ) (dst_cap : ℕ)
    → IsLink c d
    → All IsByte src
    → length src ≤ 65535
    → length src ≤ length dst
    → length src + 8 ≤ dst_cap
    → (sent : List ℕ) × (c' : Ctx) × (d' : Ctx) × (compress c src dst_cap ≡ some (ok sent, c'))
      × (decompress d sent dst ≡ some (ok src, d'))
      × IsLink c' d'
decompress-compress c d src dst dst_cap it bytes hs room cap =
    outcome c d src dst dst_cap (compress c src dst_cap) it bytes refl
      (sent_lem c d src dst dst_cap it bytes hs room cap)
