-- ===== src/Client/Scan.antt =====
-- The conversions of the C library that client/source/shell_commands.c uses on the words of a line:
-- `atoi`, and `sscanf` with "%hhu", "%hhu=%hd" and "%hhi". `long` has 64 bits.
pub mod Decimal
mod Tests
use ammc.Base.{
  ℕ, ◌+◌, ◌-◌, ◌*◌, ◌%◌, ◌^◌, min, Bool, true, false, ◌&&◌, ◌||◌, Option, none, some, List, [], ◌∷◌,
  ltb, leb, ◌==◌, if◌then◌else◌,
}

abbrev pub is_space : ℕ → Bool
is_space c = c == 32 || leb 9 c && leb c 13

unfoldable pub skip_spaces : List ℕ → List ℕ
skip_spaces [] = []
skip_spaces (c ∷ cs) = if is_space c then skip_spaces cs else c ∷ cs

-- What a character stands for as a digit: 16 for none.
unfoldable pub digit_value : ℕ → ℕ
digit_value c =
    if leb 48 c && leb c 57
    then c - 48
    else if leb 97 c && leb c 102
    then c - 87
    else if leb 65 c && leb c 70
    then c - 55
    else 16

unfoldable pub starts_digit : ℕ → List ℕ → Bool
starts_digit base [] = false
starts_digit base (c ∷ cs) = ltb (digit_value c) base

-- The digits at the start, behind those that make `value`; and what follows them.
unfoldable pub scan_digits : ℕ → ℕ → List ℕ → ℕ × List ℕ
scan_digits base value [] = (value, [])
scan_digits base value (c ∷ cs) =
    if ltb (digit_value c) base
    then scan_digits base (value * base + digit_value c) cs
    else (value, c ∷ cs)

-- Whether there is a minus sign, and what follows the sign.
unfoldable pub split_sign : List ℕ → Bool × List ℕ
split_sign [] = (false, [])
split_sign (c ∷ cs) =
    if c == b'-' then (true, cs) else if c == b'+' then (false, cs) else (false, c ∷ cs)

-- An integer in a base: its sign, its digits' value, and what follows; `none` without a digit.
unfoldable pub scan_integer : ℕ → List ℕ → Option (Bool × ℕ × List ℕ)
scan_integer base text =
    let (negative, behind) = split_sign (skip_spaces text) in
    let (value, rest) = scan_digits base 0 behind in
    if starts_digit base behind then some (negative, value, rest) else none

-- `strtoul` and `strtol` on what was scanned: words of 64 bits. What does not fit is cut to the
-- greatest or the least value.
unfoldable pub to_ulong : Bool → ℕ → ℕ
to_ulong negative value =
    if leb (2 ^ 64) value then 2 ^ 64 - 1 else if negative then (2 ^ 64 - value) % 2 ^ 64 else value

unfoldable pub to_long : Bool → ℕ → ℕ
to_long negative value =
    if negative
    then (if leb (2 ^ 63) value then 2 ^ 63 else (2 ^ 64 - value) % 2 ^ 64)
    else min value (2 ^ 63 - 1)

-- `atoi`, as a word of 32 bits.
unfoldable pub atoi : List ℕ → ℕ
atoi text = elim (scan_integer 10 text) [
  | none ↦ 0
  | some (negative, value, rest) ↦ to_long negative value % 2 ^ 32
]

-- The values that `sscanf` stores; it returns their number. For "%hhu":
unfoldable pub sscanf_byte : List ℕ → List ℕ
sscanf_byte text = elim (scan_integer 10 text) [
  | none ↦ []
  | some (negative, value, rest) ↦ to_ulong negative value % 2 ^ 8 ∷ []
]

-- For "=%hd", behind a value that is stored already.
unfoldable pub sscanf_assigned : ℕ → List ℕ → List ℕ
sscanf_assigned byte [] = byte ∷ []
sscanf_assigned byte (c ∷ cs) =
    let speed : List ℕ = elim (scan_integer 10 cs) [
      | none ↦ []
      | some (negative, value, rest) ↦ to_long negative value % 2 ^ 16 ∷ []
    ] in
    if c == b'=' then byte ∷ speed else byte ∷ []

-- For "%hhu=%hd".
unfoldable pub sscanf_assignment : List ℕ → List ℕ
sscanf_assignment text = elim (scan_integer 10 text) [
  | none ↦ []
  | some (negative, value, rest) ↦ sscanf_assigned (to_ulong negative value % 2 ^ 8) rest
]

-- The base of an integer for "%i", and its digits: behind `0x` they are hexadecimal, behind `0`
-- octal.
unfoldable pub base_of : List ℕ → ℕ × List ℕ
base_of (c ∷ d ∷ cs) =
    if c == b'0'
    then (if d == b'x' || d == b'X' then (16, cs) else (8, c ∷ d ∷ cs))
    else (10, c ∷ d ∷ cs)
base_of digits = (10, digits)

-- For "%hhi": a word of 8 bits.
unfoldable pub sscanf_integer_byte : List ℕ → List ℕ
sscanf_integer_byte text =
    let (negative, behind) = split_sign (skip_spaces text) in
    let (base, digits) = base_of behind in
    let (value, rest) = scan_digits base 0 digits in
    if starts_digit base digits then to_long negative value % 2 ^ 8 ∷ [] else []
