-- ===== src/Crc32/Tests.antt =====
-- The checksum of src/util/netc_crc32.c on the test vector of its header.
use netc.Prelude.{ℕ, ◌≡◌, refl, List, [], ◌∷◌, arith, bit_xor}
use netc.Crc32.{crc32, crc32_continue}
use netc.Crc32.Bitwise.{run_bits, crc32-eq_bitwise, crc32_continue-crc32}

-- "123456789".
abbrev digits : List ℕ
digits = 0x31 ∷ 0x32 ∷ 0x33 ∷ 0x34 ∷ 0x35 ∷ 0x36 ∷ 0x37 ∷ 0x38 ∷ 0x39 ∷ []

test_vector : crc32 digits ≡ 0xcbf43926
unfolding crc32
test_vector = refl

crc32-eq_bitwise_example : crc32 digits ≡ bit_xor (run_bits 0xffffffff digits) 0xffffffff
crc32-eq_bitwise_example = crc32-eq_bitwise digits (omega arith)

crc32_continue-crc32_example :
    crc32_continue (crc32 (0x31 ∷ 0x32 ∷ [])) (0x33 ∷ []) ≡ crc32 (0x31 ∷ 0x32 ∷ 0x33 ∷ [])
crc32_continue-crc32_example = crc32_continue-crc32 (0x31 ∷ 0x32 ∷ []) (0x33 ∷ []) (omega arith)
