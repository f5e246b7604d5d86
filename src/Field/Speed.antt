-- ===== src/Field/Speed.antt =====
-- A speed that the master sets and applies is the slave's target.
use ammc.Base.{
  ℕ, ◌+◌, ◌*◌, ◌%◌, ◌<◌, true, ◌≡◌, refl, ap, ◌∙◌, some, List, [], ◌∷◌, length, ==_ne, ==_iff,
  arith,
}
use ammc.Master.Commands.{
  Stack, prepare_command, send_command, send_bcast_command, dcmotor_set, dcmotor_apply,
}
use ammc.Slave.Motor.{compute_limited_speed}
use ammc.Slave.Twi.{is_ready}
use ammc.Slave.Command.{Slave}
use ammc.Slave.Command.Effects.{main_round-speed}
use ammc.Field.{slave_bus, deliver}

-- On a bus with one slave, whose address is from 1 to 127, whose module is ready and whose command
-- has 16 bytes: `dcmotor_set`
-- with the slave's address and then `dcmotor_apply` on the master make the slave's target the
-- limited speed, whatever the master's stack (with at least two bytes of argument) and the slave's
-- command held before.
pub field_speed :
    {F : Type 0} (s : Slave F) (id x y low high : ℕ) (xs speed : List ℕ)
    → 0 < s.twi.address
    → s.twi.address < 128
    → is_ready s.twi ≡ true
    → length s.command.argument ≡ 15
    → let stack : Stack = record {
      command = record { id = id; argument = x ∷ y ∷ xs };
      speed = speed;
    } in
      (s' : Slave F) × (dcmotor_apply
          (slave_bus F)
          stack
          (dcmotor_set (slave_bus F) stack (some s) s.twi.address (low ∷ high ∷ []))
        ≡ some s')
      × (s'.motor.speed_target ≡ compute_limited_speed (low + 256 * high))
unfolding dcmotor_apply dcmotor_set send_command send_bcast_command prepare_command deliver
field_speed s id x y low high xs speed positive short free room =
    let (s', s'', set_run, apply_run, before, after) = main_round-speed s low high room free in
    let cut : s.twi.address % 128 ≡ s.twi.address = omega arith in
    (
      s'',
      rw (cut, (==_ne s.twi.address 0).1 (omega arith), (==_iff s.twi.address s.twi.address).1 refl)
          (ap (λ w. deliver w 0 (2 ∷ [])) set_run ∙ apply_run),
      after,
    )
