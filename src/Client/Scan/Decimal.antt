-- ===== src/Client/Scan/Decimal.antt =====
-- Numbers in decimal notation are read back as they were written.
use ammc.Base.{
  ℕ, zero, suc, ◌+◌, ◌-◌, ◌*◌, ◌/◌, ◌%◌, ◌^◌, ◌<◌, ◌≡◌, refl, sym, ap, ◌∙◌, true, false, some, List,
  [], ◌∷◌, ◌++◌, append_assoc, append-nil, ltb, leb, ◌==◌, inl, inr, Bool-cases, if◌then◌else◌,
  arith,
}
use ammc.Client.Scan.{
  atoi, sscanf_byte, to_ulong, is_space, skip_spaces, digit_value, starts_digit, scan_digits,
  split_sign, scan_integer, to_ulong, to_long, sscanf_assigned, sscanf_assignment,
}

-- The digits of a number, the first one first; the first argument bounds their number.
unfoldable pub digits_of : ℕ → ℕ → List ℕ
digits_of zero n = []
digits_of (suc rounds) n =
    let front = digits_of rounds (n / 10) in
    if ltb n 10 then (48 + n) ∷ [] else front ++ (48 + n % 10) ∷ []

unfoldable pub decimal : ℕ → List ℕ
decimal n = digits_of (suc n) n

digit_value_lem : (d : ℕ) → d < 10 → digit_value (48 + d) ≡ d
unfolding digit_value
digit_value_lem d h = ground arith

scan_digits-digit :
    (value d : ℕ) (rest : List ℕ)
    → d < 10
    → scan_digits 10 value ((48 + d) ∷ rest) ≡ scan_digits 10 (value * 10 + d) rest
unfolding scan_digits
scan_digits-digit value d rest h = rw (digit_value_lem d h, small) refl
  where
    small : ltb d 10 ≡ true
    small = ground arith

scan_digits-digits_of :
    (rounds n : ℕ) (rest : List ℕ)
    → n < rounds
    → scan_digits 10 0 (digits_of rounds n ++ rest) ≡ scan_digits 10 n rest
unfolding digits_of
scan_digits-digits_of zero n rest h = absurd (omega arith)
scan_digits-digits_of (suc rounds) n rest h = elim (Bool-cases (ltb n 10)) [
  | inl e ↦
      rw e
        (scan_digits-digit 0 n rest (ground arith) ∙ ap (λ v. scan_digits 10 v rest) (omega arith))
  | inr e ↦ rw e (
      ap (scan_digits 10 0) (append_assoc (digits_of rounds (n / 10)) ((48 + n % 10) ∷ []) rest)
      ∙ scan_digits-digits_of rounds (n / 10) ((48 + n % 10) ∷ rest) (ground arith)
      ∙ scan_digits-digit (n / 10) (n % 10) rest (omega arith)
      ∙ ap (λ v. scan_digits 10 v rest) (omega arith))
]

-- The first character of a number is a digit.
digits_of-head :
    (rounds n : ℕ)
    → n < rounds
    → (d : ℕ) × (ds : List ℕ) × (digits_of rounds n ≡ (48 + d) ∷ ds) × (d < 10)
unfolding digits_of
digits_of-head zero n h = absurd (omega arith)
digits_of-head (suc rounds) n h = elim (Bool-cases (ltb n 10)) [
  | inl e ↦ (n, [], rw e refl, ground arith)
  | inr e ↦
      let (d, ds, front, small) = digits_of-head rounds (n / 10) (ground arith) in
      (d, ds ++ (48 + n % 10) ∷ [], rw (e, front) refl, small)
]

scan_digits_stop :
    (value : ℕ) (rest : List ℕ)
    → starts_digit 10 rest ≡ false
    → scan_digits 10 value rest ≡ (value, rest)
unfolding scan_digits starts_digit
scan_digits_stop value [] stops = refl
scan_digits_stop value (c ∷ cs) stops = rw stops refl

-- What the start of a number leaves to its digits, with a sign and without.
scan_integer-digit :
    (d : ℕ) (ds : List ℕ) (value : ℕ) (rest : List ℕ)
    → d < 10
    → scan_digits 10 0 ((48 + d) ∷ ds) ≡ (value, rest)
    → (scan_integer 10 ((48 + d) ∷ ds) ≡ some (false, value, rest))
      × (scan_integer 10 (b'-' ∷ (48 + d) ∷ ds) ≡ some (true, value, rest))
unfolding scan_integer skip_spaces split_sign starts_digit
scan_integer-digit d ds value rest h e = (
  rw (no_space, no_minus, no_plus, digit_value_lem d h, small, e) refl,
  rw (digit_value_lem d h, small, e) refl,
)
  where
    no_space : is_space (48 + d) ≡ false
    no_space = ground arith

    no_minus : (48 + d == b'-') ≡ false
    no_minus = ground arith

    no_plus : (48 + d == b'+') ≡ false
    no_plus = ground arith

    small : ltb d 10 ≡ true
    small = ground arith

-- A number in decimal notation, with a minus sign and without, is read up to the first character
-- that is no digit.
pub scan_integer-decimal :
    (n : ℕ) (rest : List ℕ)
    → starts_digit 10 rest ≡ false
    → (scan_integer 10 (decimal n ++ rest) ≡ some (false, n, rest))
      × (scan_integer 10 (b'-' ∷ (decimal n ++ rest)) ≡ some (true, n, rest))
unfolding decimal
scan_integer-decimal n rest stops =
    let (d, ds, front, small) = digits_of-head (suc n) n (omega arith) in
    let (plain, signed) = scan_integer-digit d (ds ++ rest) n rest small (
      ap (λ t. scan_digits 10 0 (t ++ rest)) (sym front)
      ∙ scan_digits-digits_of (suc n) n rest (omega arith)
      ∙ scan_digits_stop n rest stops) in
    rw front (plain, signed)

assigned-decimal :
    (byte speed : ℕ)
    → speed < 2 ^ 15
    → (sscanf_assigned byte (b'=' ∷ decimal speed) ≡ byte ∷ speed ∷ [])
      × (sscanf_assigned byte (b'=' ∷ b'-' ∷ decimal speed) ≡ byte ∷ (2 ^ 16 - speed) % 2 ^ 16 ∷ [])
unfolding sscanf_assigned to_long starts_digit
assigned-decimal byte speed small =
    let (plain, signed) = scan_integer-decimal speed [] refl in
    let whole : decimal speed ++ [] ≡ decimal speed = append-nil (decimal speed) in
    (
      rw (ap (scan_integer 10) (sym whole) ∙ plain) (ap (λ w. byte ∷ w ∷ []) (omega arith)),
      rw (ap (λ t. scan_integer 10 (b'-' ∷ t)) (sym whole) ∙ signed)
          (ap (λ w. byte ∷ w ∷ []) (negated)),
    )
  where
    below : leb (2 ^ 63) speed ≡ false
    below = ground arith

    negated :
        (if leb (2 ^ 63) speed then 2 ^ 63 else (2 ^ 64 - speed) % 2 ^ 64) % 2 ^ 16
        ≡ (2 ^ 16 - speed) % 2 ^ 16
    negated = rw below (omega arith)

-- The argument of set-speed in decimal notation, `motor=speed` or `motor=-speed`, with a speed
-- below 32768: `sscanf` gives the motor's number cut to a byte, and the speed as a word of 16 bits
-- in two's complement.
pub sscanf_assignment-decimal :
    (motor speed : ℕ)
    → motor < 2 ^ 64
    → speed < 2 ^ 15
    → (sscanf_assignment (decimal motor ++ b'=' ∷ decimal speed) ≡ motor % 256 ∷ speed ∷ [])
      × (sscanf_assignment (decimal motor ++ b'=' ∷ b'-' ∷ decimal speed)
          ≡ motor % 256 ∷ (2 ^ 16 - speed) % 2 ^ 16 ∷ [])
unfolding sscanf_assignment to_ulong starts_digit digit_value
sscanf_assignment-decimal motor speed small short =
    let (plain, signed) = assigned-decimal (motor % 256) speed short in
    (
      rw ((scan_integer-decimal motor (b'=' ∷ decimal speed) refl).0, sscanf_assignment, fits)
          plain,
      rw
          (
            (scan_integer-decimal motor (b'=' ∷ b'-' ∷ decimal speed) refl).0,
            sscanf_assignment,
            fits,
          )
          signed,
    )
  where
    fits : leb (2 ^ 64) motor ≡ false
    fits = ground arith

-- `atoi` and "%hhu" on a number in decimal notation that fits.
pub atoi-decimal : (n : ℕ) → n < 2 ^ 31 → atoi (decimal n) ≡ n
unfolding atoi to_long starts_digit
atoi-decimal n small =
    let whole : decimal n ++ [] ≡ decimal n = append-nil (decimal n) in
    rw (ap (scan_integer 10) (sym whole) ∙ (scan_integer-decimal n [] refl).0, atoi) (omega arith)

pub sscanf_byte-decimal : (n : ℕ) → n < 256 → sscanf_byte (decimal n) ≡ n ∷ []
unfolding sscanf_byte to_ulong starts_digit
sscanf_byte-decimal n small =
    let whole : decimal n ++ [] ≡ decimal n = append-nil (decimal n) in
    let fits : leb (2 ^ 64) n ≡ false = ground arith in
    rw (ap (scan_integer 10) (sym whole) ∙ (scan_integer-decimal n [] refl).0, sscanf_byte, fits)
      (ap (λ w. w ∷ []) (omega arith))
