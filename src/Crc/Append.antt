-- ===== src/Crc/Append.antt =====
-- A message followed by its checksum.
use ammc.Base.{
  ℕ, suc, ◌<◌, ◌≡◌, ◌↔◌, refl, sym, ap, ◌∙◌, List, [], ◌∷◌, ◌++◌, length, take, take-append, get_or,
  bit_xor_self, IsBytes, arith,
}
use ammc.Crc.{crc8_table, division_round, division_rounds, crc, crc_check}
use ammc.Crc.Detect.{division_round_cancel_byte, division_rounds-lt}

pub division_rounds-append :
    (c : ℕ) (xs ys : List ℕ)
    → division_rounds c (xs ++ ys) ≡ division_rounds (division_rounds c xs) ys
unfolding division_rounds
division_rounds-append c [] ys = refl
division_rounds-append c (x ∷ xs) ys = division_rounds-append (division_round c x) xs ys

-- Dividing a remainder by itself leaves nothing.
division_round_self : (c : ℕ) → division_round c c ≡ 0
unfolding division_round crc8_table
division_round_self c = ap (λ t. get_or crc8_table t 0) (bit_xor_self c)

pub take-append_cons :
    (xs ys : List ℕ) (b : ℕ) → take (suc (length xs)) (xs ++ b ∷ ys) ≡ xs ++ b ∷ []
take-append_cons [] ys b = refl
take-append_cons (x ∷ xs) ys b = ap (λ t. x ∷ t) (take-append_cons xs ys b)

pub crc_check-append :
    (xs ys : List ℕ) (b : ℕ)
    → crc_check (xs ++ b ∷ ys) (suc (length xs)) ≡ division_round (division_rounds 0 xs) b
unfolding crc_check division_rounds
crc_check-append xs ys b =
    ap (division_rounds 0) (take-append_cons xs ys b) ∙ division_rounds-append 0 xs (b ∷ [])

pub crc-append : (xs ys : List ℕ) → crc (xs ++ ys) (length xs) ≡ division_rounds 0 xs
unfolding crc
crc-append xs ys = ap (division_rounds 0) (take-append xs ys)

-- For a message of bytes and a byte behind it, `crc_check` finds no remainder exactly when that
-- byte is the `crc` of the message; what stands behind the two plays no part.
pub crc_check_iff :
    (xs ys : List ℕ) (b : ℕ)
    → IsBytes xs
    → b < 256
    → (crc_check (xs ++ b ∷ ys) (suc (length xs)) ≡ 0) ↔ (b ≡ crc (xs ++ b ∷ ys) (length xs))
crc_check_iff xs ys b hx hb = (
  λ e.
      (division_round_cancel_byte r b r below hb below
          (sym (crc_check-append xs ys b) ∙ e ∙ sym (division_round_self r))
        ∙ sym (crc-append xs (b ∷ ys))),
  λ e.
      (crc_check-append xs ys b
        ∙ ap (division_round r) (e ∙ crc-append xs (b ∷ ys))
        ∙ division_round_self r),
)
  where
    r : ℕ
    r = division_rounds 0 xs

    below : r < 256
    below = division_rounds-lt 0 xs (omega arith) hx
