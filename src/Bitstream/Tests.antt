-- ===== src/Bitstream/Tests.antt =====
-- The bit stream of src/util/netc_bitstream.h on concrete fields and bytes.
use netc.Prelude.{◌+◌, ◌/◌, ◌^◌, ◌≤◌, ◌≡◌, refl, arith, List, [], ◌∷◌}
use netc.Prelude.{some, length, All, IsByte}
use netc.Bitstream.Writer.{Writer}
use netc.Bitstream.Writer
use netc.Bitstream.Reader
use netc.Bitstream.Reader.{Reader, Outcome, done, undefined}
use netc.Bitstream.Value.{value}
use netc.Bitstream.Pushes.{Holds}
use netc.Bitstream.Flush.{flush-sentinel}
use netc.Bitstream.Pops.{Loaded, read-pops}
use netc.Bitstream.Opens.{init-Loaded}
use netc.Bitstream.RoundTrip.{Field, write_fields, read_fields, values, read_fields-write_fields}

-- Fields that cross the boundary of a word.
abbrev fields : List Field
fields = (5, 3) ∷ (0xdeadbeef, 32) ∷ (0, 1) ∷ (1000, 12) ∷ []

read_fields-write_fields_example :
    (w w' : Writer) × (write_fields fields (Writer.init 16) ≡ some w)
    × (Writer.flush w ≡ some w')
    × (length w'.out ≡ 7)
    × (read_fields fields (Reader.init w'.out) ≡ done (values fields))
read_fields-write_fields_example = read_fields-write_fields fields 16 (omega arith) (omega arith)

abbrev three_bits : Writer
three_bits = record { out = 9 ∷ []; cap = 4; accum = 5; bits = 3 }

three_bits-Holds : Holds three_bits 1289 11
three_bits-Holds = omega arith

abbrev flushed : Writer
flushed = record { out = 9 ∷ 13 ∷ []; cap = 4; accum = 0; bits = 0 }

three_bits-flushed : Writer.flush three_bits ≡ some flushed
unfolding Writer.flush
three_bits-flushed = refl

flush-sentinel_example :
    (value (9 ∷ 13 ∷ []) ≡ 1289 + 2 ^ 11) × (2 ≡ 11 / 8 + 1) × All IsByte (9 ∷ 13 ∷ []) × (2 ≤ 4)
flush-sentinel_example = flush-sentinel three_bits 1289 11 three_bits-Holds three_bits-flushed

-- The reader for the flushed bytes, as a fact for the read.
init-Loaded_stream : Loaded (Reader.init (9 ∷ 13 ∷ [])) 1289 11
init-Loaded_stream =
    init-Loaded (9 ∷ 13 ∷ []) 1289 11 (omega arith) refl (omega arith) (omega arith)

init-Loaded_example : Loaded (Reader.init (9 ∷ 13 ∷ [])) 1289 11
init-Loaded_example =
    init-Loaded (9 ∷ 13 ∷ []) 1289 11 (omega arith) refl (omega arith) (omega arith)

read-pops_example :
    (r' : Reader) × (Reader.read (Reader.init (9 ∷ 13 ∷ [])) 3 ≡ done (5, r')) × Loaded r' 9 8
read-pops_example =
    read-pops (Reader.init (9 ∷ 13 ∷ [])) 9 8 5 3 (omega arith) (omega arith) (omega arith)
      (omega arith) init-Loaded_stream

-- The sentinel byte is missing and one byte is not yet loaded: the refill shifts a word by 64.
no_sentinel : Reader.read (Reader.init (1 ∷ 2 ∷ 3 ∷ 4 ∷ 5 ∷ 6 ∷ 7 ∷ 8 ∷ 0 ∷ [])) 8 ≡ undefined
unfolding Reader.read Reader.init Reader.load Reader.skip_sentinel Reader.consume Reader.refill
    Reader.floorlog2_byte
no_sentinel = refl
