-- ===== src/Base/Bits.antt =====
-- The exclusive or of numbers, from the recursion on binary digits that it stands for.
use Prim.Native.Nat.{ℕ, zero, suc, ◌+◌, ◌*◌, ◌/◌, ◌%◌, ◌^◌, ◌≤◌, ◌<◌, bit_xor, digits, differ}
use Prim.Native.Nat.{bit_xor-bitwise}
use mathlib.Core.Path.{◌≡◌, refl, sym, ap, ◌∙◌}
use native.Mathlib.Nat.{pow-suc}
use native.Mathlib.Omega.{arith}

abbrev xor_digits : ℕ → ℕ → ℕ → ℕ
xor_digits n a b = digits (λ b. b) differ n a b

-- With the first number used up the second is left over, however many rounds are to go.
left_over : (b rounds : ℕ) → xor_digits rounds zero b ≡ b
left_over b zero = refl
left_over b (suc rounds) = refl

-- Rounds that are enough for the first number all give the same.
rounds_agree : (a b n m : ℕ) → a ≤ m → a ≤ n → xor_digits n a b ≡ xor_digits m a b
rounds_agree zero b n m q p = left_over b n ∙ sym (left_over b m)
rounds_agree (suc a) b zero m q p = absurd (omega arith)
rounds_agree (suc a) b (suc n) zero q p = absurd (omega arith)
rounds_agree (suc a) b (suc n) (suc m) q p =
    ap (λ t. t * 2 + differ (suc a % 2) (b % 2))
      (rounds_agree (suc a / 2) (b / 2) n m (omega arith) (omega arith))

xor_of_zero : (b : ℕ) → bit_xor 0 b ≡ b
xor_of_zero b = bit_xor-bitwise 0 b

differ_digits : (x y : ℕ) → x < 2 → y < 2 → differ x y ≡ (x + y) % 2
differ_digits zero y p q = omega arith
differ_digits (suc zero) zero p q = refl
differ_digits (suc zero) (suc zero) p q = refl
differ_digits (suc zero) (suc (suc y)) p q = absurd (omega arith)
differ_digits (suc (suc x)) y p q = absurd (omega arith)

-- One equation for the lowest digit.
pub bit_xor_step : (a b : ℕ) → bit_xor a b ≡ bit_xor (a / 2) (b / 2) * 2 + (a + b) % 2
bit_xor_step zero b = omega (arith, xor_of_zero (b / 2), xor_of_zero b)
bit_xor_step (suc a) b = omega (
  arith,
  differ_digits (suc a % 2) (b % 2) (omega arith) (omega arith),
  bit_xor-bitwise (suc a / 2) (b / 2),
  bit_xor-bitwise (suc a) b,
  rounds_agree (suc a / 2) (b / 2) a (suc a / 2) (omega arith) (omega arith),
)

bit_xor_bound : (k a b : ℕ) → a < 2 ^ k → b < 2 ^ k → bit_xor a b < 2 ^ k
bit_xor_bound zero zero b p q = omega (arith, xor_of_zero b)
bit_xor_bound zero (suc a) b p q = absurd (omega arith)
bit_xor_bound (suc k) a b p q = omega (
  arith,
  pow-suc 2 k,
  bit_xor_step a b,
  bit_xor_bound k (a / 2) (b / 2) (omega (arith, pow-suc 2 k)) (omega (arith, pow-suc 2 k)),
)

pub bit_xor-lt : (a b : ℕ) → a < 256 → b < 256 → bit_xor a b < 256
bit_xor-lt a b p q = bit_xor_bound 8 a b p q

bit_xor_self_fuel : (n a : ℕ) → a ≤ n → bit_xor a a ≡ 0
bit_xor_self_fuel n zero h = xor_of_zero 0
bit_xor_self_fuel zero (suc a) h = absurd (omega arith)
bit_xor_self_fuel (suc n) (suc a) h =
    omega (arith, bit_xor_step (suc a) (suc a), bit_xor_self_fuel n (suc a / 2) (omega arith))

pub bit_xor_self : (a : ℕ) → bit_xor a a ≡ 0
bit_xor_self a = bit_xor_self_fuel a a (omega arith)

bit_xor_cancel_fuel : (n a b c : ℕ) → a ≤ n → b ≤ n → bit_xor a c ≡ bit_xor b c → a ≡ b
bit_xor_cancel_fuel zero a b c p q e = omega arith
bit_xor_cancel_fuel (suc n) a b c p q e = omega (
  arith,
  bit_xor_step a c,
  bit_xor_step b c,
  bit_xor_cancel_fuel n (a / 2) (b / 2) (c / 2) (omega arith) (omega arith)
      (omega (arith, bit_xor_step a c, bit_xor_step b c)),
)

pub bit_xor_cancel : (a b c : ℕ) → bit_xor a c ≡ bit_xor b c → a ≡ b
bit_xor_cancel a b c e = bit_xor_cancel_fuel (a + b) a b c (omega arith) (omega arith) e

bit_xor_comm_fuel : (n a b : ℕ) → a ≤ n → b ≤ n → bit_xor a b ≡ bit_xor b a
bit_xor_comm_fuel zero zero zero p q = refl
bit_xor_comm_fuel zero zero (suc b) p q = absurd (omega arith)
bit_xor_comm_fuel zero (suc a) b p q = absurd (omega arith)
bit_xor_comm_fuel (suc n) a b p q = omega (
  arith,
  bit_xor_step a b,
  bit_xor_step b a,
  bit_xor_comm_fuel n (a / 2) (b / 2) (omega arith) (omega arith),
)

pub bit_xor_comm : (a b : ℕ) → bit_xor a b ≡ bit_xor b a
bit_xor_comm a b = bit_xor_comm_fuel (a + b) a b (omega arith) (omega arith)
