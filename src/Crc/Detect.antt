-- ===== src/Crc/Detect.antt =====
-- The table of crc.c is a permutation of the bytes, so a division round loses nothing.
use ammc.Base.{
  ℕ, suc, ◌<◌, ◌≡◌, ◌≢◌, refl, sym, ap, ◌∙◌, true, ◌==◌, ==_iff, if◌then◌else◌, List, [], ◌∷◌, ◌++◌,
  length, take_all, get_or, bit_xor, bit_xor-lt, bit_xor_cancel, bit_xor_comm, IsBytes, arith,
}
use ammc.Base.Table.{holds_under, holds_at}
use ammc.Crc.{crc8_table, division_round, division_rounds, crc_check}
use ammc.Crc.Bitwise.{division_round-lt}

-- Where a byte stands in the table.
position : List ℕ → ℕ → ℕ
position [] y = 0
position (x ∷ xs) y = let rest = position xs y in if x == y then 0 else suc rest

permutes : holds_under (λ x. position crc8_table (get_or crc8_table x 0) == x) 256 ≡ true
unfolding holds_under crc8_table position
permutes = refl

entry_cancel : (x y : ℕ) → x < 256 → y < 256 → get_or crc8_table x 0 ≡ get_or crc8_table y 0 → x ≡ y
entry_cancel x y p q e =
    sym ((==_iff _ _).0 (holds_at _ 256 x p permutes))
    ∙ ap (position crc8_table) e
    ∙ (==_iff _ _).0 (holds_at _ 256 y q permutes)

-- A round tells two remainders apart, and two bytes.
pub division_round_cancel :
    (c d b : ℕ) → c < 256 → d < 256 → b < 256 → division_round c b ≡ division_round d b → c ≡ d
unfolding division_round
division_round_cancel c d b p q r e =
    bit_xor_cancel c d b
      (entry_cancel (bit_xor c b) (bit_xor d b) (bit_xor-lt c b p r) (bit_xor-lt d b q r) e)

pub division_round_cancel_byte :
    (c a b : ℕ) → c < 256 → a < 256 → b < 256 → division_round c a ≡ division_round c b → a ≡ b
unfolding division_round
division_round_cancel_byte c a b p q r e = bit_xor_cancel a b c (
    bit_xor_comm a c
    ∙ entry_cancel (bit_xor c a) (bit_xor c b) (bit_xor-lt c a p q) (bit_xor-lt c b p r) e
    ∙ bit_xor_comm c b)

pub division_rounds-lt : (c : ℕ) (bs : List ℕ) → c < 256 → IsBytes bs → division_rounds c bs < 256
unfolding division_rounds
division_rounds-lt c [] p q = p
division_rounds-lt c (b ∷ bs) p q =
    division_rounds-lt (division_round c b) bs (division_round-lt c b p q.0) q.1

pub division_rounds_cancel :
    (c d : ℕ) (bs : List ℕ)
    → c < 256
    → d < 256
    → IsBytes bs
    → division_rounds c bs ≡ division_rounds d bs
    → c ≡ d
unfolding division_rounds
division_rounds_cancel c d [] p q r e = e
division_rounds_cancel c d (b ∷ bs) p q r e = division_round_cancel c d b p q r.0 (
    division_rounds_cancel (division_round c b) (division_round d b) bs
      (division_round-lt c b p r.0) (division_round-lt d b q r.0) r.1 e)

-- Messages that differ in one byte have different remainders.
pub division_rounds_cancel_byte :
    (c a b : ℕ) (xs ys : List ℕ)
    → c < 256
    → a < 256
    → b < 256
    → IsBytes xs
    → IsBytes ys
    → division_rounds c (xs ++ a ∷ ys) ≡ division_rounds c (xs ++ b ∷ ys)
    → a ≡ b
unfolding division_rounds
division_rounds_cancel_byte c a b [] ys p q r hx hy e = division_round_cancel_byte c a b p q r (
    division_rounds_cancel (division_round c a) (division_round c b) ys (division_round-lt c a p q)
      (division_round-lt c b p r) hy e)
division_rounds_cancel_byte c a b (x ∷ xs) ys p q r hx hy e =
    division_rounds_cancel_byte (division_round c x) a b xs ys (division_round-lt c x p hx.0) q r
      hx.1 hy e

-- If `crc_check` accepts a message of bytes, it refuses the message with any one byte, at any
-- place, replaced by another byte.
pub crc_check_detects_byte :
    (a b : ℕ) (xs ys : List ℕ)
    → a < 256
    → b < 256
    → IsBytes xs
    → IsBytes ys
    → a ≢ b
    → crc_check (xs ++ a ∷ ys) (length (xs ++ a ∷ ys)) ≡ 0
    → crc_check (xs ++ b ∷ ys) (length (xs ++ b ∷ ys)) ≢ 0
unfolding crc_check
crc_check_detects_byte a b xs ys p q hx hy ne e f = ne (
    division_rounds_cancel_byte 0 a b xs ys (omega arith) p q hx hy (
      ap (division_rounds 0) (sym (take_all _ (xs ++ a ∷ ys) (omega arith)))
      ∙ e
      ∙ sym f
      ∙ ap (division_rounds 0) (take_all _ (xs ++ b ∷ ys) (omega arith))))
