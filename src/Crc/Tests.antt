-- ===== src/Crc/Tests.antt =====
-- Runs of crc.c, and examples of the theorems on it.
use ammc.Base.{ℕ, ◌≡◌, ◌≢◌, refl, List, [], ◌∷◌, ◌++◌, length, arith}
use ammc.Crc.{crc, crc_check, crc8_table, division_round, division_round_bitwise, division_rounds}
use ammc.Crc.Bitwise.{division_round-eq-bitwise}
use ammc.Crc.Detect.{crc_check_detects_byte}

crc_handshake : crc (0 ∷ 1 ∷ 0 ∷ 5 ∷ []) 4 ≡ 112
unfolding crc division_rounds division_round crc8_table
crc_handshake = refl

division_round-eq-bitwise_example : division_round 0x12 0x34 ≡ division_round_bitwise 0x12 0x34
division_round-eq-bitwise_example = division_round-eq-bitwise 0x12 0x34 (omega arith) (omega arith)

abbrev header : List ℕ
header = 0 ∷ 1 ∷ 0 ∷ 5 ∷ []

crc_check_handshake : crc_check (header ++ 112 ∷ []) (length (header ++ 112 ∷ [])) ≡ 0
unfolding crc_check division_rounds division_round crc8_table
crc_check_handshake = refl

crc_check_detects_byte_example : crc_check (header ++ 113 ∷ []) (length (header ++ 113 ∷ [])) ≢ 0
crc_check_detects_byte_example =
    crc_check_detects_byte 112 113 header [] (omega arith) (omega arith)
      (omega arith, (omega arith, (omega arith, (omega arith, tt)))) tt (omega arith)
      crc_check_handshake
