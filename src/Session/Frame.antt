-- ===== src/Session/Frame.antt =====
-- What `netc_decompress` of src/core/netc_decompress.c does with a packet that `netc_compress` of
-- src/core/netc_compress.c has put together: the header is read back, and the payload is decoded.
use netc.Prelude.{ℕ, ◌^◌, ◌<◌, ◌≤◌, ◌≡◌, refl, sym, ap, ap₂, arith, ◌∙◌, List, ◌++◌}
use netc.Prelude.{Bool, true, false, Option, none, some, ltb}
use netc.Prelude.{IsByte, length, take, drop, drop_append}
use netc.Prelude.{if-false}
use netc.Lz77.Prefixes.{take_all}
use netc.Result.{ok}
use netc.Header.Types.{pkt_type_table, is_type}
use netc.Header.Wire.{PktHeader, hdr_write, hdr_emit, validate_header}
use netc.Header.Layout.{IsHeader, validate_header-hdr_emit, validate_header-hdr_emit_compact}
use netc.Context.{Dict, Ctx, has, cfg_compact_hdr}
use netc.Compress.{Choice, header, packet_bytes}
use netc.Decompress.{
  model_of, blank, wrong_model, decode_payload, restored, accept, finish, decompress_packet,
  after_header, decompress,
}

-- The widths of the fields, and a type for the compact header.
pub record IsChoice (compact : Bool) (c : Choice) : Type 0 where
  pub size : length c.payload < 2 ^ 16
  pub flags : IsByte c.flags
  pub algorithm : IsByte c.algorithm
  pub typed :
      compact ≡ true
      → (t : ℕ) × (t < 256)
        × (is_type t ≡ true)
        × (c.flags ≡ (pkt_type_table t).0)
        × (c.algorithm ≡ (pkt_type_table t).1)

-- The decoder of the payload and the pass after it give the packet.
abbrev pub Decodes : Ctx → List ℕ → List ℕ → Choice → Type 0
Decodes d src dst c =
    let hdr = header d.dict src d.context_seq c in
    (bytes : List ℕ) × (decode_payload d hdr c.payload dst (has d.flags cfg_compact_hdr) ≡ ok bytes)
    × (restored d hdr bytes ≡ src)

wrong_model-model_of :
    (dict : Option Dict) (hdr : PktHeader)
    → hdr.model_id ≡ model_of dict
    → wrong_model dict hdr ≡ false
unfolding wrong_model
wrong_model-model_of none hdr e = refl
wrong_model-model_of (some d) hdr e = ground (arith, e)

packet_lem :
    (d : Ctx) (hdr : PktHeader) (front payload dst src bytes : List ℕ) (compact : Bool)
    → hdr.model_id ≡ model_of d.dict
    → hdr.compressed_size ≡ length payload
    → decode_payload d hdr payload dst compact ≡ ok bytes
    → restored d hdr bytes ≡ src
    → decompress_packet d hdr (length front) (front ++ payload) dst compact
      ≡ some (ok src, accept d hdr (length (front ++ payload)) src)
unfolding decompress_packet finish
packet_lem d hdr front payload dst src bytes compact model size e back =
    let known = wrong_model-model_of d.dict hdr model in
    let n = length (front ++ payload) in
    let rest : take hdr.compressed_size (drop (length front) (front ++ payload)) ≡ payload =
      ap (take hdr.compressed_size) (drop_append front payload (length front) refl)
      ∙ take_all hdr.compressed_size payload (omega (arith, size)) in
    if-false (wrong_model d.dict hdr) _ _ known
    ∙ (ap (λ p. finish d hdr n (decode_payload d hdr p dst compact)) rest
        ∙ (ap (finish d hdr n) e ∙ ap (λ b. some (ok b, accept d hdr n b)) back))

emit_size : (h : PktHeader) → length (hdr_emit h false) ≡ 8
unfolding hdr_emit hdr_write
emit_size h = refl

legacy_lem :
    (d : Ctx) (h : PktHeader) (payload dst src bytes : List ℕ)
    → IsHeader h
    → h.original_size ≤ length dst
    → h.compressed_size ≡ length payload
    → h.model_id ≡ model_of d.dict
    → decode_payload d h payload dst false ≡ ok bytes
    → restored d h bytes ≡ src
    → let packet = hdr_emit h false ++ payload in
      after_header d packet dst false (validate_header packet (length dst) blank false)
      ≡ some (ok src, accept d h (length packet) src)
unfolding after_header
legacy_lem d h payload dst src bytes it room size model e back =
    let packet = hdr_emit h false ++ payload in
    let fits : ltb (length dst) h.original_size ≡ false = ground arith in
    let whole : ltb (length payload) h.compressed_size ≡ false = ground (arith, size) in
    let valid : validate_header packet (length dst) blank false ≡ ok (h, 8) =
      validate_header-hdr_emit h blank payload (length dst) it
      ∙ (if-false (ltb (length dst) h.original_size) _ _ fits
          ∙ if-false (ltb (length payload) h.compressed_size) _ _ whole) in
    ap (after_header d packet dst false) valid
    ∙ (ap (λ (n : ℕ). decompress_packet d h n packet dst false) (sym (emit_size h))
        ∙ packet_lem d h (hdr_emit h false) payload dst src bytes false model size e back)

abbrev fields : ℕ → ℕ → ℕ → ℕ → ℕ → ℕ → PktHeader
fields original_size compressed_size flags algorithm model_id context_seq = record {
  original_size = original_size;
  compressed_size = compressed_size;
  flags = flags;
  algorithm = algorithm;
  model_id = model_id;
  context_seq = context_seq;
}

compact_lem :
    (d : Ctx) (h : PktHeader) (t : ℕ) (payload dst src bytes : List ℕ)
    → IsHeader h
    → t < 256
    → is_type t ≡ true
    → h.flags ≡ (pkt_type_table t).0
    → h.algorithm ≡ (pkt_type_table t).1
    → h.original_size ≤ length dst
    → h.compressed_size ≡ length payload
    → h.model_id ≡ model_of d.dict
    → h.context_seq ≡ d.context_seq
    → decode_payload d h payload dst true ≡ ok bytes
    → restored d h bytes ≡ src
    → let packet = hdr_emit h true ++ payload in
      after_header d packet dst true (validate_header packet (length dst) blank true)
      ≡ some (ok src, accept d h (length packet) src)
unfolding after_header
compact_lem d h t payload dst src bytes it ht typed hf ha room size model seq e back =
    let packet = hdr_emit h true ++ payload in
    let n = length (hdr_emit h true) in
    let fits : ltb (length dst) h.original_size ≡ false = ground arith in
    let small : length payload < 2 ^ 16 = omega (arith, it.compressed_size) in
    let valid =
      validate_header-hdr_emit_compact h blank t payload (length dst) ht typed hf ha
        it.original_size small
      ∙ if-false (ltb (length dst) h.original_size) _ _ fits in
    let filled : fields h.original_size (length payload) h.flags h.algorithm (model_of d.dict)
          d.context_seq
        ≡ h =
      ap (λ (k : ℕ). fields h.original_size k h.flags h.algorithm (model_of d.dict) d.context_seq)
        (sym size)
      ∙ ap₂ (λ (m q : ℕ). fields h.original_size h.compressed_size h.flags h.algorithm m q)
          (sym model) (sym seq) in
    ap (after_header d packet dst true) valid
    ∙ (ap (λ f. decompress_packet d f n packet dst true) filled
        ∙ packet_lem d h (hdr_emit h true) payload dst src bytes true model size e back)

form_lem :
    (d : Ctx) (h : PktHeader) (c : Choice) (src dst bytes : List ℕ) (compact : Bool)
    → IsChoice compact c
    → IsHeader h
    → h.original_size ≤ length dst
    → h.compressed_size ≡ length c.payload
    → h.flags ≡ c.flags
    → h.algorithm ≡ c.algorithm
    → h.model_id ≡ model_of d.dict
    → h.context_seq ≡ d.context_seq
    → decode_payload d h c.payload dst compact ≡ ok bytes
    → restored d h bytes ≡ src
    → let packet = hdr_emit h compact ++ c.payload in
      after_header d packet dst compact (validate_header packet (length dst) blank compact)
      ≡ some (ok src, accept d h (length packet) src)
form_lem d h c src dst bytes false it ih room size hf ha model seq e back =
    legacy_lem d h c.payload dst src bytes ih room size model e back
form_lem d h c src dst bytes true it ih room size hf ha model seq e back =
    let (t, ht, typed, tf, ta) = it.typed refl in
    compact_lem d h t c.payload dst src bytes ih ht typed (hf ∙ tf) (ha ∙ ta) room size model seq e
      back

pub decompress-packet_bytes :
    (d : Ctx) (src dst : List ℕ) (c : Choice)
    → IsByte (model_of d.dict)
    → IsByte d.context_seq
    → length src < 2 ^ 16
    → length src ≤ length dst
    → IsChoice (has d.flags cfg_compact_hdr) c
    → Decodes d src dst c
    → let packet = packet_bytes d.dict src d.context_seq c (has d.flags cfg_compact_hdr) in
      decompress d packet dst
      ≡ some (ok src, accept d (header d.dict src d.context_seq c) (length packet) src)
unfolding decompress packet_bytes
decompress-packet_bytes d src dst c hm hq hs room it (bytes, e, back) =
    form_lem d (header d.dict src d.context_seq c) c src dst bytes (has d.flags cfg_compact_hdr) it
      (record {
        original_size = omega arith;
        compressed_size = omega arith;
        flags = it.flags;
        algorithm = it.algorithm;
        model_id = hm;
        context_seq = hq;
      })
      (omega arith) (omega (arith, it.size)) refl refl refl refl e back
