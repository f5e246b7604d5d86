-- ===== src/Slave/Motor/Setup.antt =====
-- slave/source/dcmotor_phy.c, dcmotor_pid.c and dcmotor.c: the motor's pins, timers and controller
-- at the start of the program.
use ammc.Base.{
  ◌+◌, ◌<◌, ==_iff, ◌==◌, false, refl, ◌≡◌, ℕ, ◌-◌, ◌*◌, ◌/◌, ◌%◌, ◌^◌, bit_and, bit_or,
}
use ammc.Base.Table.{holds_under, holds_at}
use ammc.Slave.Motor.{Float, Motor, Pid, load_speed, power_off_motor, lt16}

-- The registers that are set up, each a byte; TCNT1 is a word.
pub record Board : Type 0 where
  pub ddrb : ℕ
  pub portb : ℕ
  pub pcmsk0 : ℕ
  pub pcicr : ℕ
  pub tccr0a : ℕ
  pub tccr0b : ℕ
  pub tccr1a : ℕ
  pub tccr1b : ℕ
  pub ocr1ah : ℕ
  pub ocr1al : ℕ
  pub tcnt1 : ℕ
  pub timsk1 : ℕ

-- The numbers of bits that the header of the processor names.
pub record Bits : Type 0 where
  pub wgm00 : ℕ
  pub wgm01 : ℕ
  pub com0a1 : ℕ
  pub cs00 : ℕ
  pub cs01 : ℕ
  pub wgm12 : ℕ
  pub cs10 : ℕ
  pub cs12 : ℕ
  pub pcie0 : ℕ
  pub pcint0 : ℕ
  pub ocie1a : ℕ

-- `register |= mask` and `register &= ~mask` on bytes.
abbrev pub set_mask : ℕ → ℕ → ℕ
set_mask register mask = bit_or register mask % 256

abbrev pub clear_mask : ℕ → ℕ → ℕ
clear_mask register mask = bit_and register (255 - mask % 256)

-- `DC_SAMPLING_INTERVAL`
abbrev pub sampling_interval : ℕ
sampling_interval = 100

-- The masks of the pins on port B.
abbrev encoder_a_mask : ℕ
encoder_a_mask = 2 ^ 0

abbrev encoder_b_mask : ℕ
encoder_b_mask = 2 ^ 1

abbrev direction_in2_mask : ℕ
direction_in2_mask = 2 ^ 5

abbrev direction_in1_mask : ℕ
direction_in1_mask = 2 ^ 6

abbrev pwm_mask : ℕ
pwm_mask = 2 ^ 7

module _ (bits : Bits) where
  open bits use {wgm00, wgm01, com0a1, cs00, cs01, wgm12, cs10, cs12, pcie0, pcint0, ocie1a}

  -- `PWM_TCCRA_VALUE`, `PWM_TCCRB_VALUE`, `PID_TCCRB_VALUE`
  abbrev pwm_tccra_value : ℕ
  pwm_tccra_value = bit_or (bit_or (2 ^ wgm01) (2 ^ wgm00)) (2 ^ com0a1)

  abbrev pwm_tccrb_value : ℕ
  pwm_tccrb_value = bit_or (2 ^ cs00) (2 ^ cs01)

  abbrev pid_tccrb_value : ℕ
  pid_tccrb_value = bit_or (bit_or (2 ^ wgm12) (2 ^ cs10)) (2 ^ cs12)

  -- `dcmotor_phy_pwm_init`
  unfoldable pub pwm_init : Board → Board
  pwm_init b = record b {
    ddrb = set_mask (set_mask (set_mask b.ddrb pwm_mask) direction_in1_mask) direction_in2_mask;
    tccr0a = pwm_tccra_value;
    tccr0b = pwm_tccrb_value;
  }

  -- `dcmotor_phy_encoder_init`
  unfoldable pub encoder_init : Board → Board
  encoder_init b = record b {
    ddrb = clear_mask (clear_mask b.ddrb encoder_a_mask) encoder_b_mask;
    portb = set_mask (set_mask b.portb encoder_a_mask) encoder_b_mask;
    pcmsk0 = set_mask b.pcmsk0 (2 ^ pcint0);
    pcicr = set_mask b.pcicr (2 ^ pcie0);
  }

  -- `dcmotor_phy_pid_init`: the factor 15.625 is 125 / 8, and the product is cut to an integer.
  unfoldable pub timer_init : Board → ℕ → Board
  timer_init b pid_interval_msec =
      let ocr_value = pid_interval_msec * 125 / 8 % 2 ^ 16 in
      record b {
        tccr1a = 0;
        tccr1b = pid_tccrb_value;
        ocr1ah = ocr_value / 256;
        ocr1al = bit_and ocr_value 255;
      }

  -- `dcmotor_phy_pid_start`, `dcmotor_phy_pid_stop`
  unfoldable pub timer_start : Board → Board
  timer_start b = record b { tcnt1 = 0; timsk1 = set_mask b.timsk1 (2 ^ ocie1a) }

  unfoldable pub timer_stop : Board → Board
  timer_stop b = record b { timsk1 = clear_mask b.timsk1 (2 ^ ocie1a) }

  -- `dcmotor_pid_init`
  unfoldable pub pid_init :
      (float : Float) → Float.F float → Float.F float → Float.F float → ℕ → Pid (Float.F float)
  pid_init float kp ki kd pid_interval_ms = record {
    interval = pid_interval_ms;
    k_prop = kp;
    k_int = ki;
    k_der = kd;
    err_int = float.of_int16 0;
    err_prev = float.of_int16 0;
  }

  -- `dcmotor_init`, with the constants of its controller.
  unfoldable pub motor_init :
      (float : Float)
      → Float.F float
      → Float.F float
      → Float.F float
      → Board
      → Motor (Float.F float)
      → Board × Motor (Float.F float)
  motor_init float kp ki kd b m = (
    pwm_init (encoder_init (timer_init b sampling_interval)),
    record m { pid = pid_init float kp ki kd sampling_interval; phy = load_speed float m.phy 0 },
  )

-- The direction register and the port behind the two functions that set up their pins.
abbrev directions : ℕ → ℕ
directions ddrb =
    set_mask
      (set_mask (set_mask (clear_mask (clear_mask ddrb encoder_a_mask) encoder_b_mask) pwm_mask)
        direction_in1_mask)
      direction_in2_mask

directions_lem : (r : ℕ) → r < 256 → directions r ≡ 224 + r / 4 % 8 * 4
directions_lem r small =
    (==_iff (directions r) (224 + r / 4 % 8 * 4)).0
      (holds_at (λ r. directions r == 224 + r / 4 % 8 * 4) 256 r small (unfold holds_under in refl))

pull_ups_lem :
    (r : ℕ) → r < 256 → set_mask (set_mask r encoder_a_mask) encoder_b_mask ≡ r / 4 * 4 + 3
pull_ups_lem r small =
    (==_iff (set_mask (set_mask r encoder_a_mask) encoder_b_mask) (r / 4 * 4 + 3)).0 (
      holds_at (λ r. set_mask (set_mask r encoder_a_mask) encoder_b_mask == r / 4 * 4 + 3) 256 r
        small (unfold holds_under in refl))

-- `dcmotor_init`, whatever the registers of port B held before: the two pins of the encoder are
-- inputs with a pull-up, the pins of the two directions and of the pulse width are outputs, and the
-- other pins are as before; the timer's compare value is 1562 (of 15.625 per millisecond, for 100
-- of them), and the motor is off.
pub motor_init_lem :
    (bits : Bits) (float : Float) (kp ki kd : Float.F float) (b : Board) (m : Motor (Float.F float))
    → b.ddrb < 256
    → b.portb < 256
    → let (board, motor) = motor_init bits float kp ki kd b m in
      (board.ddrb ≡ 224 + b.ddrb / 4 % 8 * 4)
      × (board.portb ≡ b.portb / 4 * 4 + 3)
      × (256 * board.ocr1ah + board.ocr1al ≡ 1562)
      × (motor.phy.in1 ≡ false)
      × (motor.phy.in2 ≡ false)
unfolding motor_init pwm_init encoder_init timer_init load_speed power_off_motor lt16
motor_init_lem bits float kp ki kd b m small port_small =
    (directions_lem b.ddrb small, pull_ups_lem b.portb port_small, refl, refl, refl)
