-- ===== src/Slave/Motor/Limits.antt =====
-- The limit on the motor's speed, and the invariant that it gives.
use ammc.Base.{
  ℕ, ◌^◌, ◌≤◌, ◌<◌, ◌≡◌, min, not, ◌==◌, inl, inr, Bool-cases, ltb, if◌then◌else◌, arith,
}
use ammc.Slave.Motor.{
  read_phase_a, Motor, Float, lt16, compute_limited_speed, set_next, apply_next, encoder_isr,
  pid_isr, max_rpm_speed,
}

-- For a word of 16 bits `compute_limited_speed` cuts a speed of 0 or more to 125, and turns every
-- negative one into 125.
pub limited_lem :
    (speed : ℕ)
    → speed < 2 ^ 16
    → compute_limited_speed speed
      ≡ (if ltb speed (2 ^ 15) then min speed max_rpm_speed else max_rpm_speed)
unfolding compute_limited_speed lt16
limited_lem speed word = ground arith

pub limited-le : (speed : ℕ) → speed < 2 ^ 16 → compute_limited_speed speed ≤ max_rpm_speed
unfolding compute_limited_speed lt16
limited-le speed word = ground arith

-- The speeds asked for are between 0 and 125.
abbrev pub IsLimited : {F : Type 0} → Motor F → Type 0
IsLimited m = (m.speed_target ≤ max_rpm_speed) × (m.speed_next ≤ max_rpm_speed)

-- If the next and the target speed are from 0 to 125, no operation and no interrupt changes that,
-- whatever 16-bit speed is asked for and whatever the pins are.
pub motor-IsLimited :
    (float : Float) (m : Motor float.F) (speed pins : ℕ)
    → speed < 2 ^ 16
    → IsLimited m
    → IsLimited (set_next m speed)
      × IsLimited (apply_next m)
      × IsLimited (encoder_isr m pins)
      × IsLimited (pid_isr float m)
unfolding set_next apply_next encoder_isr pid_isr
motor-IsLimited float m speed pins word (target, next) = (
  (target, limited-le speed word),
  (next, next),
  elim (Bool-cases (not (read_phase_a pins == 0))) [
    | inl e ↦ rw e (target, next)
    | inr e ↦ rw e (target, next)
  ],
  (target, next),
)
