-- ===== src/Packet/Tests.antt =====
-- Runs of packet.c, and examples of the theorems on it.
use ammc.Base.{ℕ, ◌≡◌, refl, none, List, [], ◌∷◌, take}
use ammc.Crc.{crc, division_rounds, division_round, crc8_table}
use ammc.Packet.{raw, craft, com_type, hnd, attach_crc}
use ammc.Samples.{blank}

abbrev hello : List ℕ
hello = 104 ∷ 101 ∷ 108 ∷ 108 ∷ 111 ∷ []

craft_handshake :
    take 6 (raw (craft blank 0 (com_type hnd) 0 none 0).1) ≡ 0 ∷ 1 ∷ 0 ∷ 5 ∷ 112 ∷ 0 ∷ []
unfolding craft attach_crc crc division_rounds division_round crc8_table
craft_handshake = refl

craft_unknown : craft blank 0 11 0 none 0 ≡ (1, blank)
unfolding craft
craft_unknown = refl
