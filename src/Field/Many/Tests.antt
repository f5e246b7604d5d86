-- ===== src/Field/Many/Tests.antt =====
-- Two slaves: the speed of one of them is set, and the other one keeps the speed that was set before.
use ammc.Base.{ℕ, ◌≡◌, refl, some, List, [], ◌∷◌, All2, arith}
use ammc.Samples.{blank_locals}
use ammc.Slave.Samples.{first_slave}
use ammc.Slave.Twi.{is_ready}
use ammc.Slave.Command.{Slave}
use ammc.Master.Commands.{dcmotor_apply}
use ammc.Field.{prepared}
use ammc.Field.Many.{slaves_bus, prepared_all, prepared_at}
use ammc.Field.Many.Speeds.{Setting, chosen_last, set_all, speeds_together}

abbrev second_slave : Slave ℕ
second_slave = record first_slave {
  twi = record first_slave.twi { address = 2; tx_buffer = 9 ∷ 8 ∷ []; tx_size = 2 };
}

abbrev both : List (Slave ℕ)
both = first_slave ∷ second_slave ∷ []

abbrev one_speed : List Setting
one_speed = record { address = 2; low = 100; high = 0 } ∷ []

prepared_second : prepared_all (some both) 2 2 ≡ 9 ∷ 8 ∷ []
unfolding prepared_all prepared_at prepared
prepared_second = refl

speeds_together_example :
    (mid last : List (Slave ℕ)) × (set_all blank_locals.stack one_speed (some both) ≡ some mid)
    × All2 (λ s s'. s'.motor.speed_target ≡ s.motor.speed_target) both mid
    × (dcmotor_apply (slaves_bus ℕ) blank_locals.stack (some mid) ≡ some last)
    × All2
        (λ s s'. s'.motor.speed_target ≡ chosen_last one_speed s.twi.address s.motor.speed_next)
        both
        last
speeds_together_example =
    speeds_together blank_locals.stack one_speed both refl ((omega arith, omega arith), tt)
      (
        (refl, omega arith, unfold is_ready in refl),
        ((refl, omega arith, unfold is_ready in refl), tt),
      )
