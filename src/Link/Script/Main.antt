-- ===== src/Link/Script/Main.antt =====
-- The client's main program with a connection at the start and a script of two lines.
use ammc.Base.{
  ℕ, true, false, ◌==◌, ◌+◌, ◌*◌, ◌/◌, ◌%◌, ◌^◌, ◌≤◌, ◌<◌, ◌≡◌, ap, ◌∙◌, refl, Option, some, List,
  [], ◌∷◌, ◌++◌, length, arith, ltb,
}
use ammc.Bus.{Bus}
use ammc.Packet.{Packet}
use ammc.ComError.{ComError, success}
use ammc.Master.Commands.{dcmotor_set, dcmotor_apply}
use ammc.Master.Operations.{Locals}
use ammc.Master.Handler.{Handler}
use ammc.Client.Comm.{Comm, done, packet_next_id}
use ammc.Client.Scan.{sscanf_assignment}
use ammc.Client.Commands.{Os, Storage, serial_close, valid_dev, shell_cleanup, shell_storage_new}
use ammc.Client.Commands
use ammc.Client.Shell.{Libc, flag_set, flag_get}
use ammc.Client.Shell.Arrays.{IsDocumented}
use ammc.Client.Shell.Loop.{
  ran_none, ran_line, shell_loop-Ran, fgets_lines-unlines, unlines, ended, are_lines, has_newline,
}
use ammc.Client.Program.{
  main, run, run_script, run_shell, auto_connect, handle_options, opt_c, opt_s,
}
use ammc.Client.Program.Table.{shell_new}
use ammc.Link.{master}
use ammc.Link.Exchange.{resting}
use ammc.Link.Session.Speed.{field_stack}
use ammc.Link.Script.Words.{IsWord}
use ammc.Link.Script.Speed.{set_line, apply_line, at, shell, greeting, auto_connects, sets, applies}
use ammc.Slave.Motor.{compute_limited_speed}
use ammc.Slave.Twi.{is_ready}
use ammc.Slave.Command.{Slave}
use ammc.Field.{slave_bus}

has_newline-word : (word : List ℕ) → IsWord word → has_newline word ≡ false
unfolding has_newline
has_newline-word [] is = refl
has_newline-word (c ∷ word) is = ground (arith, is.0.1, has_newline-word word is.1)

are_lines-script :
    (text : List ℕ)
    → IsWord text
    → length text ≤ 2000
    → are_lines (set_line text ∷ apply_line ∷ []) ≡ true
unfolding are_lines has_newline
are_lines-script text is short = rw (has_newline-word text is) (ground arith)

module _ (bus : Bus) (locals : Locals) (room : length locals.packet.body ≡ 33)
    (os : Os (Handler bus.World)) (client : Commands.Locals)
    (ready : length client.packet.body ≡ 33) (fd : ℕ) (device : 2 < fd)
    (tty : (w : Handler bus.World) → os.is_tty w fd ≡ true)
    (libc : Libc (Storage (Handler bus.World))) (documented : IsDocumented libc)
    (closes : (w : Handler bus.World) → (os.close_dev w fd).1 ≡ w) where
  open bus use {World}

  cleanup :
      (g : ℕ) (unread : List ℕ) (world : World) (rx : Packet)
      → shell_cleanup
          (master bus locals)
          os
          client
          (at bus locals room os client ready fd device tty libc documented g unread world rx)
        ≡ at bus locals room os client ready fd device tty libc documented g unread world rx
  unfolding shell_cleanup serial_close valid_dev
  cleanup g unread world rx =
      let positive : (fd == 0) ≡ false = ground arith in
      let standard : ltb 2 fd ≡ true = ground arith in
      let w = resting bus locals room g world rx success 1 in
      rw (positive, standard, tty w, closes w) refl

  module _ (file_of : List ℕ → Option (List ℕ)) (standard_input : List ℕ) where
    -- The shell on a script of the two lines, once it is connected.
    runs :
        (g : ℕ) (world : World) (rx : Packet) (unread : List ℕ) (c : ℕ) (text : List ℕ)
        (motor speed : ℕ)
        → g < 256
        → 0 < motor
        → motor < 256
        → IsWord (c ∷ text)
        → length (c ∷ text) ≤ 2000
        → sscanf_assignment (c ∷ text) ≡ motor ∷ speed ∷ []
        → let stored =
            dcmotor_set bus locals.stack world motor (speed % 256 ∷ speed / 256 % 256 ∷ []) in
          (g' : ℕ) × (rest : List ℕ) × (p : Packet) × (run_shell
              (master bus locals)
              os
              client
              libc
              file_of
              standard_input
              true
              (unlines (set_line (c ∷ text) ∷ apply_line ∷ []))
              (shell bus locals room os client ready fd device tty libc documented 0 (
                at bus locals room os client ready fd device tty libc documented g unread world rx))
            ≡ done (
              0,
              at bus locals room os client ready fd device tty libc documented g' rest
                  (dcmotor_apply bus locals.stack stored)
                  p,
            ))
    unfolding run_shell flag_set flag_get packet_next_id ended
    runs g world rx unread c text motor speed small positive byte is short scanned =
        let stored =
          dcmotor_set bus locals.stack world motor (speed % 256 ∷ speed / 256 % 256 ∷ []) in
        let next : packet_next_id g < 256 = omega arith in
        let (rest, p, set_run) =
          sets bus locals room os client ready fd device tty libc documented 6 g world rx unread c
            text motor speed small positive byte is (omega arith) scanned in
        let (rest', p', apply_run) =
          applies bus locals room os client ready fd device tty libc documented 6 (packet_next_id g)
            stored p rest next in
        let ran =
          shell_loop-Ran ((set_line (c ∷ text) ++ 10 ∷ []) ∷ (apply_line ++ 10 ∷ []) ∷ [])
            (shell bus locals room os client ready fd device tty libc documented 6
              (at bus locals room os client ready fd device tty libc documented g unread world rx))
            _ (ran_line _ _ _ _ _ set_run refl (ran_line _ _ _ _ _ apply_run refl (ran_none _))) in
        (
          packet_next_id (packet_next_id g),
          rest',
          p',
          rw
              (
                fgets_lines-unlines (set_line (c ∷ text) ∷ apply_line ∷ [])
                    (are_lines-script (c ∷ text) is short),
                ran,
                cleanup (packet_next_id (packet_next_id g)) rest'
                    (dcmotor_apply bus locals.stack stored) p',
              )
              refl,
        )

module _ {F : Type 0} (locals : Locals) (room : length locals.packet.body ≡ 33)
    (stack_room : length locals.stack.command.argument ≡ 15) (os : Os (Handler (Option (Slave F))))
    (client : Commands.Locals) (ready : length client.packet.body ≡ 33) (fd : ℕ) (device : 2 < fd)
    (tty : (w : Handler (Option (Slave F))) → os.is_tty w fd ≡ true)
    (libc : Libc (Storage (Handler (Option (Slave F))))) (documented : IsDocumented libc)
    (closes : (w : Handler (Option (Slave F))) → (os.close_dev w fd).1 ≡ w)
    (file_of : List ℕ → Option (List ℕ)) (standard_input : List ℕ) where
  -- The client is started with the path of a device, which is not empty, and a script of two lines:
  -- `set-speed` with an argument that `sscanf` reads as a slave's address and a speed of 16 bits, and
  -- `apply`. The device opens as a terminal with a descriptor above 2, and the master at its other
  -- end rests, at any id; on the master's bus is the slave of that address, from 1 to 127, with its module ready (the master has read all its
  -- answers). The
  -- packets on the stacks of both programs have bodies of 33 bytes, the commands on those of the
  -- master and the slave 16 bytes. The argument has at most 2000 characters, none of them a
  -- delimiter or null; closing the device does not
  -- change the master, and `qsort` and `bsearch` do what is documented of them. the master. Then the program exits with 0,
  -- and the slave's target is the limited speed.
  pub main_script :
      (s : Slave F) (g : ℕ) (rx : Packet) (error : ComError) (performed : ℕ)
      (comm : Comm (Handler (Option (Slave F)))) (d : ℕ) (path script : List ℕ) (c : ℕ)
      (text : List ℕ) (speed : ℕ)
      → os.open_dev comm.world (d ∷ path)
        ≡ (some fd, resting (slave_bus F) locals room g (some s) rx error performed)
      → file_of script ≡ some (unlines (set_line (c ∷ text) ∷ apply_line ∷ []))
      → IsWord (c ∷ text)
      → length (c ∷ text) ≤ 2000
      → sscanf_assignment (c ∷ text) ≡ s.twi.address ∷ speed ∷ []
      → 0 < s.twi.address
      → s.twi.address < 128
      → is_ready s.twi ≡ true
      → length s.command.argument ≡ 15
      → speed < 2 ^ 16
      → (st : Storage (Handler (Option (Slave F)))) × (s' : Slave F) × (main
            (master (slave_bus F) locals)
            os
            client
            libc
            file_of
            standard_input
            (opt_c (d ∷ path) ∷ opt_s script ∷ [])
            comm
          ≡ done (0, st))
        × (st.comm.world.comm.world ≡ some s')
        × (s'.motor.speed_target ≡ compute_limited_speed speed)
  unfolding main run run_script auto_connect handle_options shell_new
  main_script s g rx error performed comm d path script c text speed opens file is short scanned
        positive byte free slave_room word =
      let bus = slave_bus F in
      let motor = s.twi.address in
      let value : speed % 256 + 256 * (speed / 256 % 256) ≡ speed = omega arith in
      let connection =
        auto_connects bus locals room os client ready fd device tty libc documented g (some s) rx
          error performed comm d path opens in
      let (g', rest, p, script_run) =
        runs bus locals room os client ready fd device tty libc documented closes file_of
          standard_input 1 (some s)
          (greeting bus locals room os client ready fd device tty libc documented) [] c text motor
          speed (omega arith) positive (omega arith) is short scanned in
      let (s', stored, target) =
        field_stack s locals.stack.command.id locals.stack.command.argument locals.stack.speed
          (speed % 256) (speed / 256 % 256) stack_room positive byte free slave_room in
      let written =
        dcmotor_set bus locals.stack (some s) motor (speed % 256 ∷ speed / 256 % 256 ∷ []) in
      (
        at bus locals room os client ready fd device tty libc documented g' rest
            (dcmotor_apply bus locals.stack written) p,
        s',
        rw connection (rw (file, run_script) script_run),
        stored,
        target ∙ ap compute_limited_speed value,
      )
