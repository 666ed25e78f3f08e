-- ===== src/Lib.antt =====
-- The netc packet codec: network packets are predicted from earlier ones, entropy coded with tANS tables from a
-- dictionary, and sent under a short header. The compressor (src/core/netc_compress.c) and the decompressor
-- (src/core/netc_decompress.c) drive the parts below in mirror order and keep their contexts in step.
--
-- Prelude: Boolean tests, lists, casts and shifts of C, laws of the bit operations, powers of two.
-- Result: `netc_result_t` of include/netc.h, as a value or an error. A run that C leaves undefined is told apart
-- from all of these: it is the mark `undefined_behaviour` in a part, and `none` of `netc_compress` and
-- `netc_decompress`.
-- Bitstream: src/util/netc_bitstream.h. Writer and Reader are the structs with their operations; a stream is
-- a stack of bits, which the writer pushes on and the reader, opened on the last byte, takes from the top.
-- `Outcome` has a value for an operation that C leaves undefined.
-- Tans: src/algo/netc_tans.h and src/algo/netc_tans.c. Table has the tables and `netc_tans_build`, for both
-- table sizes of Params; Codec has the coders with one state, with tables by offset and by the byte before;
-- Dual has those with two states; Buckets has the map from offsets to tables. Spread and Built say what the
-- builder's loops leave, Log and Step what one coding step does, and Loops, RoundTrip, PerContext, DualTrip
-- and Odd follow whole streams.
-- Normalize: `freq_normalize` of src/core/netc_dict.c and its copy in src/algo/netc_adaptive.c, which make the
-- frequencies that the builder takes.
-- Tans/Rescale is `netc_freq_rescale_12_to_10`.
-- Adaptive: the counters and the rebuilt tables of src/algo/netc_adaptive.h and src/algo/netc_adaptive.c.
-- Delta: src/algo/netc_delta.h and the generic operations of src/simd/netc_simd_generic.c.
-- Lzp: src/algo/netc_lzp.h.
-- Rle, Lz77 and Lz77x: `rle_encode`, `lz77_encode` and `lz77x_encode` of src/core/netc_compress.c, `rle_decode`,
-- `lz77_decode` and `lz77x_decode` of src/core/netc_decompress.c. The two encoders share the loop of
-- Lz77/Encode, which takes the search for a match as an argument.
-- History: `ctx_ring_append` of src/core/netc_compress.c and its mirror.
-- Header: the headers of src/core/netc_internal.h and `validate_header` of src/core/netc_decompress.c. Types is
-- the table of packet types, Wire the bytes.
-- Crc32: src/util/netc_crc32.c.
-- Context: `netc_ctx_t` and `netc_dict_t` of src/core/netc_internal.h, src/core/netc_ctx.c, and what either end
-- does to its context after a packet.
-- Payload: Encode has the `try_tans_*` functions of src/core/netc_compress.c, Decode has `decode_tans` and the
-- payload cases of src/core/netc_decompress.c.
-- Compress: `netc_compress` and `netc_compress_stateless`. The file itself has the delta pass, the LZ77 path and
-- the plain packet; Coded has the paths with a dictionary, and Driver the entry points. A path that
-- succeeds is a `Choice`: the header's flags and algorithm, and the payload.
-- Decompress: `netc_decompress` and `netc_decompress_stateless`.
-- Session: the two ends together. Frame is about headers and payloads, Choices about the paths of the
-- compressor, Delta about residuals, Trip about one packet, Channel about many, Room about the sender's
-- buffer, and Reset about `netc_ctx_reset`.
--
-- Arrays are lists or functions of the index, and a buffer that a function fills is its result. Numbers are
-- native and wrap where the C type does. The target is little-endian. A null argument, which the entry points
-- refuse, has no counterpart, except where a null changes what is computed. Allocations succeed.
--
-- Fuel: `floor_log2_loop` has 31 rounds, one for each shift of a 32-bit word; the flush loop has one for each
-- bit, of which a round takes eight; the loops of Rle, Lz77 and Lz77x have one for each byte, of which a round
-- takes one or more. The other loops are structural.
--
-- Not modelled: dictionary training and blobs (src/core/netc_dict.c), which the codec takes as a value; error
-- strings, the version and the destructors; the SIMD variants, which use compiler intrinsics. Benchmarks,
-- tests and language bindings only call the library. The round trips of whole packets are those
-- without a dictionary; with one, they are those of the coders.
pub mod Prelude
pub mod Result
pub mod Bitstream
pub mod Tans
pub mod Normalize
pub mod Delta
pub mod Lzp
pub mod Rle
pub mod Lz77
pub mod Lz77x
pub mod History
pub mod Header
pub mod Crc32
pub mod Adaptive
pub mod Context
pub mod Payload
pub mod Decompress
pub mod Compress
pub mod Session
