-- ===== src/Slave/Motor/Tests.antt =====
-- Runs of the motor's modules, and examples of the theorems on them.
use ammc.Base.{◌+◌, ◌-◌, ◌^◌, ◌≡◌, refl, min, if◌then◌else◌, ltb, [], ◌∷◌, arith}
use ammc.Slave.Motor.{
  lt16, compute_limited_speed, set_next, apply_next, encoder_isr, pid_isr, max_rpm_speed,
}
use ammc.Slave.Motor.Limits.{limited_lem, motor-IsLimited, IsLimited}
use ammc.Slave.Motor.Drive.{
  encoder_run, encoder_run-position, count_readings, is_forward, is_backward, from_least,
}
use ammc.Slave.Samples.{whole, still}

-- Backward at 50 becomes forward at full speed.
limited_backward : compute_limited_speed (2 ^ 16 - 50) ≡ 125
unfolding compute_limited_speed lt16
limited_backward = refl

limited_lem_example :
    compute_limited_speed 200 ≡ (if ltb 200 (2 ^ 15) then min 200 max_rpm_speed else max_rpm_speed)
limited_lem_example = limited_lem 200 (omega arith)

motor-IsLimited_example :
    IsLimited (set_next still 200)
    × IsLimited (apply_next still)
    × IsLimited (encoder_isr still 3)
    × IsLimited (pid_isr whole still)
motor-IsLimited_example = motor-IsLimited whole still 200 3 (omega arith) (omega arith, omega arith)

encoder_run-position_example :
    from_least (encoder_run still (3 ∷ 1 ∷ 3 ∷ 2 ∷ [])).position
      + count_readings is_backward (3 ∷ 1 ∷ 3 ∷ 2 ∷ [])
    ≡ from_least still.position + count_readings is_forward (3 ∷ 1 ∷ 3 ∷ 2 ∷ [])
encoder_run-position_example =
    encoder_run-position still (3 ∷ 1 ∷ 3 ∷ 2 ∷ []) (omega arith)
      (omega arith, (omega arith, (omega arith, (omega arith, tt)))) (omega arith) (omega arith)
