-- ===== src/Session/Room.antt =====
-- The buffer that `netc_compress` of src/core/netc_compress.c is given, on the paths without a dictionary.
use netc.Prelude.{ℕ, ◌+◌, ◌-◌, ◌^◌, ◌<◌, ◌≤◌, ◌≡◌, refl, arith, List}
use netc.Prelude.{Bool, true, false, Bool-cases, ◌&&◌, not, ◌⊎◌, inl, inr, Option, none, some}
use netc.Prelude.{ltb, leb, ◌==◌, if◌then◌else◌, length, u8}
use netc.Result.{Result, ok, err, toobig, buf_small}
use netc.Delta.{encode, encode_order2}
use netc.Delta.RoundTrip.{length-encode, short_order2}
use netc.Lz77.Encode.{lz77_encode}
use netc.Lz77.RoundTrip.{lz77_decode-lz77_encode}
use netc.Lz77x.{lz77x_encode}
use netc.Lz77x.RoundTrip.{lz77x_decode-lz77x_encode}
use netc.Context.{Ctx, Dict, has, cfg_compact_hdr, packet}
use netc.Compress.{
  header, Choice, Prepared, raw, residuals, delta_pass, smaller_than, within_packet, across_packets,
  lz77_path, emit, emit_plain, plain_choice, packet_bytes, conclude, compress_tail, zeros,
}
use netc.Compress.Driver.{header_size, compress_any, compress}
use netc.Session.Choices.{smaller_than-some, ring_test}
use netc.Session.Trip.{length-packet_bytes, length-hdr_emit}
use netc.Header.Wire.{hdr_emit}

-- What a call may do for `size` bytes with a header of the given size: return a packet that fits, or one of two
-- errors, each for its reason. It is undefined only in a buffer that takes 2 bytes and not the header.
abbrev pub IsBounded : ℕ → ℕ → ℕ → Option (Result (List ℕ) × Ctx) → Type 0
IsBounded hdr size cap none = (2 ≤ cap) × (cap < hdr)
IsBounded hdr size cap (some (err e, c')) =
    ((e ≡ toobig) × (65535 < size)) ⊎ ((e ≡ buf_small) × (cap < hdr + size))
IsBounded hdr size cap (some (ok sent, c')) = length sent ≤ cap

-- A choice whose payload fits, if there is one.
abbrev Holds : ℕ → Option Choice → Type 0
Holds cap none = Unit
Holds cap (some ch) = length ch.payload ≤ cap

residuals-short :
    (prev : List ℕ) (prev2 : Option (List ℕ)) (src : List ℕ)
    → length (residuals prev prev2 src).compress_src ≤ length src
unfolding residuals
residuals-short prev none src = length-encode prev src
residuals-short prev (some prev2) src =
    choose
      (length prev2 == length src
        && ltb (zeros (encode prev src)) (zeros (encode_order2 prev2 prev src)))
      _ _ (short_order2 prev2 prev src) (length-encode prev src)
  where
    choose :
        (b : Bool) (p q : Prepared)
        → length p.compress_src ≤ length src
        → length q.compress_src ≤ length src
        → length (if b then p else q).compress_src ≤ length src
    choose true p q hp hq = hp
    choose false p q hp hq = hq

delta_pass-short : (c : Ctx) (src : List ℕ) → length (delta_pass c src).compress_src ≤ length src
unfolding delta_pass
delta_pass-short c src = choose _
  where
    choose :
        (b : Bool)
        → length (if b then residuals (packet c.prev_pkt) c.prev2_pkt src else raw src).compress_src
          ≤ length src
    choose true = residuals-short (packet c.prev_pkt) c.prev2_pkt src
    choose false = omega arith

within-Holds :
    (cap flags : ℕ) (m : Option (List ℕ)) (other : Option Choice)
    → ((out : List ℕ) → m ≡ some out → length out ≤ cap)
    → Holds cap other
    → Holds cap (within_packet flags m other)
within-Holds cap flags none other hm ho = ho
within-Holds cap flags (some out) other hm ho = hm out refl

across-Holds :
    (cap : ℕ) (m : Option (List ℕ))
    → ((out : List ℕ) → m ≡ some out → length out ≤ cap)
    → Holds cap (across_packets m)
across-Holds cap none hm = tt
across-Holds cap (some out) hm = hm out refl

when-Holds :
    (cap : ℕ) (b : Bool) (o : Option Choice)
    → (b ≡ true → Holds cap o)
    → Holds cap (if b then o else none)
when-Holds cap true o h = h refl
when-Holds cap false o h = tt

bytes_to_code :
    (src : List ℕ) (p : Prepared)
    → length p.compress_src ≤ length src
    → length (if p.did_lzp then src else p.compress_src) ≤ length src
bytes_to_code src p h = ground (arith, h)

path-Holds :
    (c : Ctx) (src : List ℕ) (p : Prepared) (cap : ℕ)
    → length src < 2 ^ 16
    → length p.compress_src ≤ length src
    → Holds cap (lz77_path c src p cap)
unfolding lz77_path
path-Holds c src p cap hs hp =
    let prev = length (packet c.prev_pkt) in
    let lz77_src = (if p.did_lzp then src else p.compress_src) in
    let near = lz77_encode lz77_src cap in
    let far = lz77x_encode src c.ring.ring c.ring.ring_pos prev cap in
    let size = bytes_to_code src p hp in
    within-Holds cap p.pkt_flags (smaller_than (length src) near) _
      (λ out e.
        (lz77_decode-lz77_encode lz77_src out cap (omega (arith, size))
          (smaller_than-some (length src) near out e)).1)
      (when-Holds cap (leb 64 (length src) && not (length c.ring.ring == 0) && ltb 0 prev) _ (λ on.
        across-Holds cap (smaller_than (length src) far) (λ out e.
          (lz77x_decode-lz77x_encode src c.ring.ring c.ring.ring_pos prev cap out
            (ring_test (length c.ring.ring) (leb 64 (length src)) (ltb 0 prev) on)
            (smaller_than-some (length src) far out e)).1)))

unless-IsBounded :
    (hdr size cap : ℕ) (b : Bool) (r r' : Option (Result (List ℕ) × Ctx))
    → (b ≡ true → IsBounded hdr size cap r)
    → (b ≡ false → IsBounded hdr size cap r')
    → IsBounded hdr size cap (if b then r else r')
unless-IsBounded hdr size cap true r r' h h' = h refl
unless-IsBounded hdr size cap false r r' h h' = h' refl

over_cap : (cap m hdr : ℕ) → m ≡ hdr → ltb cap m ≡ true → cap < hdr
over_cap cap m hdr same e = ground arith

within_cap : (cap n : ℕ) → ltb cap n ≡ false → n ≤ cap
within_cap cap n e = ground arith

conclude-IsBounded :
    (c : Ctx) (src : List ℕ) (seq cap room : ℕ) (compact : Bool) (o : Option Choice)
    → length src < 2 ^ 16
    → 2 ≤ cap
    → Holds room o
    → (o ≡ none) ⊎ (header_size compact (length src) + room ≤ cap)
    → IsBounded
        (header_size compact (length src))
        (length src)
        cap
        (conclude c src seq cap compact o)
unfolding conclude emit emit_plain
conclude-IsBounded c src seq cap room compact (some ch) hs two h (inl e) = cc
conclude-IsBounded c src seq cap room compact (some ch) hs two h (inr fits) =
    omega (arith, length-packet_bytes c.dict src seq ch compact hs)
conclude-IsBounded c src seq cap room compact none hs two h way =
    let hdr = header_size compact (length src) in
    let front = hdr_emit (header c.dict src seq (plain_choice src)) compact in
    let out = packet_bytes c.dict src seq (plain_choice src) compact in
    unless-IsBounded hdr (length src) cap (ltb cap (length front)) _ _
      (λ e. (
        two,
        over_cap cap (length front) hdr
            (length-hdr_emit c.dict src seq (plain_choice src) compact hs) e,
      ))
      (λ _.
        unless-IsBounded hdr (length src) cap (ltb cap (length out)) _ _
          (λ e. inr (
            refl,
            over_cap cap (length out) (hdr + length src)
                (length-packet_bytes c.dict src seq (plain_choice src) compact hs) e,
          ))
          (λ e. within_cap cap (length out) e))

way_lem :
    (a : Bool) (hdr cap : ℕ) (o : Option Choice)
    → let way = (if a && ltb hdr cap then o else none) in (way ≡ none) ⊎ (hdr + (cap - hdr) ≤ cap)
way_lem false hdr cap o = inl refl
way_lem true hdr cap o = elim (Bool-cases (ltb hdr cap)) [
  | inl on ↦ inr (ground arith)
  | inr off ↦ inl (rw off refl)
]

tail-IsBounded :
    (c : Ctx) (src : List ℕ) (p : Prepared) (seq cap : ℕ) (compact : Bool)
    → length src < 2 ^ 16
    → 2 ≤ cap
    → length p.compress_src ≤ length src
    → IsBounded
        (header_size compact (length src))
        (length src)
        cap
        (compress_tail c src p seq (header_size compact (length src)) cap compact)
unfolding compress_tail
tail-IsBounded c src p seq cap compact hs two hp =
    let hdr = header_size compact (length src) in
    conclude-IsBounded c src seq cap (cap - hdr) compact _ hs two
      (when-Holds (cap - hdr) (ltb 0 (length src) && ltb hdr cap) _
        (λ _. path-Holds c src p (cap - hdr) hs hp))
      (way_lem (ltb 0 (length src)) hdr cap (lz77_path c src p (cap - hdr)))

any-IsBounded :
    (dict : Option Dict) (c : Ctx) (src : List ℕ) (p : Prepared) (seq cap : ℕ) (compact : Bool)
    → dict ≡ none
    → length src < 2 ^ 16
    → 2 ≤ cap
    → length p.compress_src ≤ length src
    → IsBounded
        (header_size compact (length src))
        (length src)
        cap
        (compress_any dict c src seq (header_size compact (length src)) cap compact p)
unfolding compress_any
any-IsBounded none c src p seq cap compact e hs two hp =
    tail-IsBounded c src p seq cap compact hs two hp
any-IsBounded (some d) c src p seq cap compact e hs two hp = cc

below_header : (compact : Bool) (cap n : ℕ) → ltb cap 2 ≡ true → cap < header_size compact n + n
below_header compact cap n e = ground arith

-- Without a dictionary, `netc_compress` returns a packet of at most `dst_cap` bytes, or the error for a
-- packet of more than 65535 bytes, or the error for a small buffer where `dst_cap` is less than the header
-- and the packet, whatever the packet, the capacity and the rest of the context are. Undefined are only calls
-- with a capacity of 2 or more and less than the header.
pub compress-IsBounded :
    (c : Ctx) (src : List ℕ) (dst_cap : ℕ)
    → c.dict ≡ none
    → IsBounded
        (header_size (has c.flags cfg_compact_hdr) (length src))
        (length src)
        dst_cap
        (compress c src dst_cap)
unfolding compress
compress-IsBounded c src dst_cap no_dict =
    let compact = has c.flags cfg_compact_hdr in
    let hdr = header_size compact (length src) in
    let next = record c { context_seq = u8 (c.context_seq + 1) } in
    unless-IsBounded hdr (length src) dst_cap (ltb 65535 (length src)) _ _
      (λ big. inl (refl, ground arith))
      (λ small.
        unless-IsBounded hdr (length src) dst_cap (ltb dst_cap 2) _ _
          (λ tiny. inr (refl, below_header compact dst_cap (length src) tiny))
          (λ two.
            any-IsBounded c.dict next src (delta_pass next src) c.context_seq dst_cap compact
              no_dict (ground arith) (within_cap dst_cap 2 two) (delta_pass-short next src)))
