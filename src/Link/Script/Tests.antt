-- ===== src/Link/Script/Tests.antt =====
-- A run of the client's main program with a script.
use ammc.Base.{ℕ, ◌≡◌, refl, true, Option, some, List, [], ◌∷◌, arith}
use ammc.ComError.{success}
use ammc.Master.Handler.{Handler}
use ammc.Client.Comm.{Comm, done}
use ammc.Client.Commands.{Storage}
use ammc.Client.Scan.{
  sscanf_assignment, sscanf_assigned, scan_integer, scan_digits, split_sign, skip_spaces,
  starts_digit, digit_value, to_ulong, to_long,
}
use ammc.Client.Shell.Samples.{simple_libc, simple-IsDocumented}
use ammc.Client.Shell.Loop.{unlines}
use ammc.Client.Program.{main, opt_c, opt_s}
use ammc.Client.Program.Table.{chars}
use ammc.Slave.Motor.{compute_limited_speed}
use ammc.Slave.Command.{Slave}
use ammc.Slave.Twi.{is_ready}
use ammc.Slave.Samples.{first_slave}
use ammc.Samples.{blank, blank_locals, blank_client, one_device}
use ammc.Field.{slave_bus}
use ammc.Link.{master}
use ammc.Link.Exchange.{resting}
use ammc.Link.Script.Speed.{set_line, apply_line}
use ammc.Link.Script.Main.{main_script}

abbrev unopened : Comm (Handler (Option (Slave ℕ)))
unopened = record {
  tty = true;
  global_id = 0;
  input = [];
  world = resting (slave_bus ℕ) blank_locals refl 77 (some first_slave) blank success 0;
}

abbrev argument : List ℕ
argument = chars "1=1200"

abbrev script : List ℕ → Option (List ℕ)
script path = some (unlines (set_line argument ∷ apply_line ∷ []))

main_script_example :
    (st : Storage (Handler (Option (Slave ℕ)))) × (s' : Slave ℕ) × (main
        (master (slave_bus ℕ) blank_locals)
        (one_device (Handler (Option (Slave ℕ))))
        blank_client
        (simple_libc (Storage (Handler (Option (Slave ℕ)))))
        script
        []
        (opt_c (chars "/dev/ttyACM0") ∷ opt_s (chars "x") ∷ [])
        unopened
      ≡ done (0, st))
    × (st.comm.world.comm.world ≡ some s')
    × (s'.motor.speed_target ≡ compute_limited_speed 1200)
unfolding sscanf_assignment sscanf_assigned scan_integer scan_digits split_sign skip_spaces
    starts_digit digit_value to_ulong to_long
main_script_example =
    main_script blank_locals refl refl (one_device (Handler (Option (Slave ℕ)))) blank_client refl 3
      (omega arith) (λ w. refl) (simple_libc (Storage (Handler (Option (Slave ℕ)))))
      simple-IsDocumented (λ w. refl) script [] first_slave 77 blank success 0 unopened b'/'
      (chars "dev/ttyACM0") (chars "x") b'1' (chars "=1200") 1200 refl refl
      (
        (refl, refl),
        ((refl, refl), ((refl, refl), ((refl, refl), ((refl, refl), ((refl, refl), tt))))),
      )
      (omega arith) refl (omega arith) (omega arith) (unfold is_ready in refl) refl (omega arith)
