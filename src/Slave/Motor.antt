-- ===== src/Slave/Motor.antt =====
-- slave/source/dcmotor.c, dcmotor_pid.c and dcmotor_phy.c: the motor's speed, its control loop, and
-- the pins of the H-bridge. An `int16_t` or `int32_t` is its word in two's complement.
pub mod Limits
pub mod Drive
pub mod Setup
mod Tests
use ammc.Base.{
  ℕ, ◌+◌, ◌-◌, ◌%◌, ◌^◌, Bool, true, false, not, ltb, leb, ◌==◌, bit_and, if◌then◌else◌,
}

abbrev pub max_rpm_speed : ℕ
max_rpm_speed = 125

-- The floating-point arithmetic of the compiler.
pub record Float : Type 1 where
  pub F : Type 0
  pub of_int16 : ℕ → F
  pub of_int32 : ℕ → F
  pub to_int16 : F → ℕ
  pub to_byte : F → ℕ
  pub add : F → F → F
  pub sub : F → F → F
  pub mul : F → F → F
  pub div : F → F → F

-- `x < y` on words of 16 bits.
unfoldable pub lt16 : ℕ → ℕ → Bool
lt16 x y = ltb ((x + 2 ^ 15) % 2 ^ 16) ((y + 2 ^ 15) % 2 ^ 16)

abbrev pub max16 : ℕ → ℕ → ℕ
max16 x y = if lt16 y x then x else y

abbrev pub min16 : ℕ → ℕ → ℕ
min16 x y = if lt16 x y then x else y

-- `abs` of dcmotor_phy.c
abbrev pub abs16 : ℕ → ℕ
abs16 x = if lt16 0 x then x else (2 ^ 16 - x) % 2 ^ 16

-- `compute_limited_speed`
unfoldable pub compute_limited_speed : ℕ → ℕ
compute_limited_speed speed =
    if not (lt16 speed 0) then min16 speed max_rpm_speed else max16 speed max_rpm_speed

-- `bound_speed`
unfoldable pub bound_speed : ℕ → ℕ
bound_speed rpm = min16 rpm max_rpm_speed

-- The direction pins and the speed register.
pub record Phy : Type 0 where
  pub in1 : Bool
  pub in2 : Bool
  pub speed_register : ℕ

unfoldable pub move_forward : Phy → Phy
move_forward phy = record phy { in1 = true; in2 = false }

unfoldable pub move_backward : Phy → Phy
move_backward phy = record phy { in1 = false; in2 = true }

unfoldable pub power_off_motor : Phy → Phy
power_off_motor phy = record phy { in1 = false; in2 = false }

-- The variables of the PID controller.
pub record Pid (F : Type 0) : Type 0 where
  pub interval : ℕ
  pub k_prop : F
  pub k_int : F
  pub k_der : F
  pub err_int : F
  pub err_prev : F

-- The variables of dcmotor.c, and the two modules below it.
pub record Motor (F : Type 0) : Type 0 where
  pub position : ℕ
  pub speed_actual : ℕ
  pub speed_target : ℕ
  pub speed_next : ℕ
  pub phy : Phy
  pub pid : Pid F

-- `dcmotor_get`, `dcmotor_set`, `dcmotor_apply`
unfoldable pub get : {F : Type 0} → Motor F → ℕ
get m = m.speed_actual

unfoldable pub set_next : {F : Type 0} → Motor F → ℕ → Motor F
set_next m next = record m { speed_next = compute_limited_speed next }

unfoldable pub apply_next : {F : Type 0} → Motor F → Motor F
apply_next m = record m { speed_target = m.speed_next }

-- The phases of the encoder, from the pins of the port.
unfoldable pub read_phase_a : ℕ → ℕ
read_phase_a pins = if not (bit_and pins 1 == 0) then 1 else 0

unfoldable pub read_phase_b : ℕ → ℕ
read_phase_b pins = if not (bit_and pins 2 == 0) then 1 else 0

-- The encoder's interrupt.
unfoldable pub encoder_isr : {F : Type 0} → Motor F → ℕ → Motor F
encoder_isr m pins =
    if not (read_phase_a pins == 0)
    then record m {
      position = (m.position + (if not (read_phase_b pins == 0) then 1 else 2 ^ 32 - 1)) % 2 ^ 32;
    }
    else m

module _ (float : Float) where
  open float use {F, of_int16, of_int32, to_int16, to_byte, add, sub, mul, div}

  -- `rpm2pwm`
  unfoldable pub rpm2pwm : ℕ → ℕ
  rpm2pwm rpm = to_byte (mul (div (of_int16 rpm) (of_int16 max_rpm_speed)) (of_int16 0xff))

  -- `dcmotor_phy_load_speed`
  unfoldable pub load_speed : Phy → ℕ → Phy
  load_speed phy speed =
      let duty_cycle = rpm2pwm (bound_speed (abs16 speed)) in
      let moved =
        if lt16 0 speed
        then move_forward phy
        else if lt16 speed 0
        then move_backward phy
        else power_off_motor phy in
      record moved { speed_register = duty_cycle }

  -- `dcmotor_pid_iterate`: the corrected speed, and the controller.
  unfoldable pub pid_iterate : Pid F → F → F → F × Pid F
  pid_iterate pid actual target =
      let err_prop = sub actual target in
      let err_der = div (mul (sub err_prop pid.err_prev) (of_int16 1000)) (of_int16 pid.interval) in
      let err_int = add pid.err_int (div (mul err_prop (of_int16 pid.interval)) (of_int16 1000)) in
      (
        add (add (mul pid.k_prop err_prop) (mul pid.k_int err_int)) (mul pid.k_der err_der),
        record pid { err_prev = err_prop; err_int = err_int },
      )

  -- `compute_speed_from_position`
  unfoldable pub compute_speed_from_position : ℕ → F
  compute_speed_from_position position =
      div (mul (div (of_int32 position) (of_int16 1125)) (of_int32 60000)) (of_int16 100)

  -- The interrupt of the sampling timer.
  unfoldable pub pid_isr : Motor F → Motor F
  pid_isr m =
      let speed = compute_speed_from_position m.position in
      let (corrected, pid) = pid_iterate m.pid speed (of_int16 m.speed_target) in
      record m {
        pid = pid;
        phy = load_speed m.phy (to_int16 corrected);
        speed_actual = to_int16 speed;
        position = 0;
      }
