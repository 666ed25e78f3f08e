-- ===== src/Decompress/Stateless.antt =====
-- `netc_decompress_stateless` of src/core/netc_decompress.c on any packet, well-formed or not.
use netc.Prelude.{ℕ, ◌≤◌, ◌≡◌, arith, List, ◌&&◌, not, ◌!=◌, length, take, drop, false}
use netc.Result.{Result, ok, err, corrupt, unsupported, version, ◌>>=◌}
use mathlib.Core.Path.{subst}
use netc.Header.Types.{flag_passthru, flag_delta}
use netc.Header.Wire.{PktHeader, validate_header}
use netc.Context.{Dict, has}
use netc.Decompress.{blank, decode_stateless, stateless_packet, decompress_stateless}
use netc.Decompress.Sizes.{Sized, err-Sized, unless-Sized, fewer-Sized}
use netc.Decompress.Within.{passthru-Sized, coded-Sized, Roomy, validate_header-Roomy}

stateless-Sized :
    (d : Dict) (h : PktHeader) (payload dst : List ℕ)
    → Sized h.original_size (decode_stateless d h payload dst)
unfolding decode_stateless
stateless-Sized d h payload dst =
    let n = h.original_size in
    let passthru = passthru-Sized h payload in
    let coded = coded-Sized d d.tables d.lzp_table h payload dst false in
    let bad = err-Sized n corrupt in let unknown = err-Sized n unsupported in ground arith

packet-Sized :
    (d : Dict) (src dst : List ℕ) (o : Result (PktHeader × ℕ))
    → Roomy (length dst) o
    → Sized (length dst) (o >>= stateless_packet d src dst)
packet-Sized d src dst (err e) it = err-Sized (length dst) e
packet-Sized d src dst (ok (h, sz)) it =
    let payload = take h.compressed_size (drop sz src) in
    unless-Sized (length dst) (not (has h.flags flag_passthru) && h.model_id != d.model_id) version
      _
      (λ _. unless-Sized (length dst) (has h.flags flag_delta) corrupt _ (λ _.
        fewer-Sized h.original_size (length dst) _ it.holds (stateless-Sized d h payload dst)))

-- Whatever the packet, the dictionary and the buffer are, `netc_decompress_stateless` returns no more bytes
-- than the buffer has room for, if it returns any.
pub decompress_stateless-fits :
    (d : Dict) (src dst bytes : List ℕ)
    → decompress_stateless d src dst ≡ ok bytes
    → length bytes ≤ length dst
unfolding decompress_stateless
decompress_stateless-fits d src dst bytes e =
    (subst (Sized (length dst)) e (
      packet-Sized d src dst (validate_header src (length dst) blank false)
        (validate_header-Roomy src (length dst) blank false))).holds
