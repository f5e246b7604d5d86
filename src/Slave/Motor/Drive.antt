-- ===== src/Slave/Motor/Drive.antt =====
-- What the motor's pins and its encoder do.
use ammc.Base.{
  ℕ, ◌+◌, ◌*◌, ◌-◌, ◌%◌, ◌^◌, ◌/◌, ◌<◌, ◌≤◌, All, ◌≡◌, ◌∙◌, refl, Bool, true, false, not, ◌&&◌,
  ◌==◌, List, [], ◌∷◌, inl, inr, Bool-cases, if◌then◌else◌, arith,
}
use ammc.Base.Table.{holds_under, holds_at}
use ammc.Slave.Motor.{
  Motor, Float, Phy, lt16, load_speed, move_forward, move_backward, power_off_motor, encoder_isr,
  read_phase_a, read_phase_b,
}

lt16-asym : (x y : ℕ) → lt16 x y ≡ true → lt16 y x ≡ false
unfolding lt16
lt16-asym x y e = ground arith

-- `dcmotor_phy_load_speed` sets the first of the two direction pins of the H-bridge exactly for the
-- speeds above 0 and the second exactly for those below, whatever they were before; never are both
-- set.
pub load_speed-pins :
    (float : Float) (phy : Phy) (speed : ℕ)
    → ((load_speed float phy speed).in1 ≡ lt16 0 speed)
      × ((load_speed float phy speed).in2 ≡ lt16 speed 0)
      × ((load_speed float phy speed).in1 && (load_speed float phy speed).in2 ≡ false)
unfolding load_speed move_forward move_backward power_off_motor
load_speed-pins float phy speed = elim (Bool-cases (lt16 0 speed)) [
  | inl up ↦ rw (up, lt16-asym 0 speed up) (refl, refl, refl)
  | inr e ↦ elim (Bool-cases (lt16 speed 0)) [
    | inl down ↦ rw (e, down) (refl, refl, refl)
    | inr f ↦ rw (e, f) (refl, refl, refl)
  ]
]

-- The encoder's interrupts in a sampling interval, each with the pins that it reads.
unfoldable pub encoder_run : {F : Type 0} → Motor F → List ℕ → Motor F
encoder_run m [] = m
encoder_run m (pins ∷ more) = encoder_run (encoder_isr m pins) more

abbrev same : Bool → Bool → Bool
same true b = b
same false b = not b

same_Bool : (a b : Bool) → same a b ≡ true → a ≡ b
same_Bool true true e = refl
same_Bool true false e = cc
same_Bool false true e = cc
same_Bool false false e = refl

-- How many of the readings see phase A together with, and without, phase B.
abbrev pub count_readings : (ℕ → Bool) → List ℕ → ℕ
count_readings f [] = 0
count_readings f (pins ∷ more) = (if f pins then 1 else 0) + count_readings f more

-- Phase A is the lowest bit of the port, and phase B the next one.
abbrev pub is_forward : ℕ → Bool
is_forward pins = (pins % 2 == 1) && (pins / 2 % 2 == 1)

abbrev pub is_backward : ℕ → Bool
is_backward pins = (pins % 2 == 1) && (pins / 2 % 2 == 0)

phase_a_bit : (pins : ℕ) → pins < 256 → (read_phase_a pins == 0) ≡ (pins % 2 == 0)
phase_a_bit pins byte = same_Bool (read_phase_a pins == 0) (pins % 2 == 0) (
    holds_at (λ p. same (read_phase_a p == 0) (p % 2 == 0)) 256 pins byte
      (unfold holds_under read_phase_a in refl))

phase_b_bit : (pins : ℕ) → pins < 256 → (read_phase_b pins == 0) ≡ (pins / 2 % 2 == 0)
phase_b_bit pins byte = same_Bool (read_phase_b pins == 0) (pins / 2 % 2 == 0) (
    holds_at (λ p. same (read_phase_b p == 0) (p / 2 % 2 == 0)) 256 pins byte
      (unfold holds_under read_phase_b in refl))

encoder_isr-position :
    {F : Type 0} (m : Motor F) (pins : ℕ)
    → m.position < 2 ^ 32
    → pins < 256
    → (encoder_isr m pins).position
      ≡ (m.position
          + (if is_forward pins then 1 else 0)
          + (2 ^ 32 - 1) * (if is_backward pins then 1 else 0))
        % 2 ^ 32
unfolding encoder_isr
encoder_isr-position m pins word byte =
    rw (phase_a_bit pins byte, phase_b_bit pins byte)
      (elim (Bool-cases (pins % 2 == 0)) [
        | inl off ↦ rw off (ground arith)
        | inr on ↦ elim (Bool-cases (pins / 2 % 2 == 0)) [
          | inl off ↦ rw (on, off) (ground arith)
          | inr both ↦ rw (on, both) (ground arith)
        ]
      ])

encoder_run-modular :
    {F : Type 0} (m : Motor F) (readings : List ℕ)
    → m.position < 2 ^ 32
    → All (λ pins. pins < 256) readings
    → (encoder_run m readings).position
      ≡ (m.position
          + count_readings is_forward readings
          + (2 ^ 32 - 1) * count_readings is_backward readings)
        % 2 ^ 32
unfolding encoder_run
encoder_run-modular m [] word bytes = omega arith
encoder_run-modular m (pins ∷ more) word bytes =
    let one = encoder_isr-position m pins word bytes.0 in
    encoder_run-modular (encoder_isr m pins) more (omega (arith, one)) bytes.1 ∙ omega (arith, one)

-- A word of 32 bits as a signed number, counted from the least one.
abbrev pub from_least : ℕ → ℕ
from_least w = (w + 2 ^ 31) % 2 ^ 32

-- After any sequence of encoder interrupts, each with a byte of the port, the position, a signed
-- word of 32 bits, has grown by the number of readings with phase A, the port's lowest bit, and
-- phase B, the next one, and shrunk by the number of those with phase A alone; so many readings
-- that it might leave the range of the signed words are excluded.
pub encoder_run-position :
    {F : Type 0} (m : Motor F) (readings : List ℕ)
    → m.position < 2 ^ 32
    → All (λ pins. pins < 256) readings
    → count_readings is_backward readings ≤ from_least m.position
    → from_least m.position + count_readings is_forward readings < 2 ^ 32
    → from_least (encoder_run m readings).position + count_readings is_backward readings
      ≡ from_least m.position + count_readings is_forward readings
encoder_run-position m readings word bytes below above =
    omega (arith, encoder_run-modular m readings word bytes)
