-- ===== src/Slave/Command/Tests.antt =====
-- Examples of the theorems on the slave's commands.
use ammc.Base.{◌≡◌, refl, none, ◌∷◌, arith}
use ammc.Samples.{zeros}
use ammc.Master.Commands.{command_id, set_addr}
use ammc.Slave.Command.{execute_command, main_round}
use ammc.Slave.Command.Effects.{HasAddress, execute_command-HasAddress, main_round_overflow}
use ammc.Slave.Twi.{is_ready}
use ammc.Slave.Samples.{first_slave}

execute_command-HasAddress_example :
    HasAddress
      (execute_command first_slave (record { id = command_id set_addr; argument = 9 ∷ zeros 14 }) 2)
execute_command-HasAddress_example =
    execute_command-HasAddress first_slave
      (record { id = command_id set_addr; argument = 9 ∷ zeros 14 }) 2
      (refl, refl, omega arith, omega arith)

main_round_overflow_example : main_round first_slave (zeros 20) ≡ none
main_round_overflow_example =
    main_round_overflow first_slave (zeros 20) refl (unfold is_ready in refl) (omega arith)
      (omega arith)
