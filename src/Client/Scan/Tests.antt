-- ===== src/Client/Scan/Tests.antt =====
-- Runs of the conversions, and an example of reading back.
use ammc.Base.{◌-◌, ◌%◌, ◌^◌, ◌≡◌, refl, [], ◌∷◌, ◌++◌, arith}
use ammc.Client.Scan.{
  skip_spaces, digit_value, starts_digit, scan_digits, split_sign, scan_integer, to_long, atoi,
  sscanf_assignment, base_of, sscanf_integer_byte,
}
use ammc.Client.Scan.Decimal.{decimal, sscanf_assignment-decimal}

atoi_minus : atoi (b'-' ∷ b'1' ∷ b'x' ∷ []) ≡ 2 ^ 32 - 1
unfolding atoi scan_integer skip_spaces split_sign scan_digits starts_digit digit_value to_long
atoi_minus = refl

sscanf_hexadecimal : sscanf_integer_byte (b'0' ∷ b'x' ∷ b'1' ∷ b'F' ∷ []) ≡ 31 ∷ []
unfolding sscanf_integer_byte base_of skip_spaces split_sign scan_digits starts_digit digit_value
    to_long
sscanf_hexadecimal = refl

sscanf_assignment-decimal_example :
    (sscanf_assignment (decimal 2 ++ b'=' ∷ decimal 100) ≡ 2 ∷ 100 ∷ [])
    × (sscanf_assignment (decimal 2 ++ b'=' ∷ b'-' ∷ decimal 100)
        ≡ 2 ∷ (2 ^ 16 - 100) % 2 ^ 16 ∷ [])
sscanf_assignment-decimal_example = sscanf_assignment-decimal 2 100 (omega arith) (omega arith)
