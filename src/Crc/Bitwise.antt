-- ===== src/Crc/Bitwise.antt =====
-- The table of crc.c against the bit by bit division that it stands for.
use ammc.Base.{ℕ, ◌<◌, ◌≡◌, refl, true, ◌==◌, ltb, ==_iff, ltb→lt, get_or, bit_xor, bit_xor-lt}
use ammc.Base.Table.{holds_under, holds_at}
use ammc.Crc.{crc8_table, division_round, division_bits, division_round_bitwise}

table_checked : holds_under (λ x. get_or crc8_table x 0 == division_bits 8 x) 256 ≡ true
unfolding holds_under crc8_table division_bits
table_checked = refl

-- For a byte and a byte-sized remainder, the table lookup of `crc_division_round` gives what the
-- bit by bit division by the polynomial gives.
pub division_round-eq-bitwise :
    (c b : ℕ) → c < 256 → b < 256 → division_round c b ≡ division_round_bitwise c b
unfolding division_round division_round_bitwise
division_round-eq-bitwise c b p q =
    (==_iff _ _).0 (holds_at _ 256 (bit_xor c b) (bit_xor-lt c b p q) table_checked)

entries_checked : holds_under (λ x. ltb (get_or crc8_table x 0) 256) 256 ≡ true
unfolding holds_under crc8_table
entries_checked = refl

-- A remainder is a byte.
pub division_round-lt : (c b : ℕ) → c < 256 → b < 256 → division_round c b < 256
unfolding division_round
division_round-lt c b p q =
    ltb→lt _ _ (holds_at _ 256 (bit_xor c b) (bit_xor-lt c b p q) entries_checked)
