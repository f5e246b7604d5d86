-- ===== src/Client/Commands/Settings.antt =====
-- client/source/shell_commands.c: set-speed, apply and set-slave-addr, which only send.
use ammc.Base.{
  ℕ, ◌+◌, ◌%◌, ◌/◌, not, ◌||◌, none, some, List, [], ◌∷◌, length, get_or, leb, ◌==◌, if◌then◌else◌,
}
use ammc.Packet.{com_type, set_speed, apply, set_slave_addr}
use ammc.Client.Comm.{Line, Outcome, done, ◌>>=◌}
use ammc.Client.Scan.{sscanf_assignment, sscanf_integer_byte}
use ammc.Client.Commands.{Os, Storage, Locals, slave_id_limit, is_closed, word, psend}

module _ (line : Line) (os : Os line.World) (locals : Locals) where
  open line use {World}
  open locals use {packet, pack_rx, str}

  -- The code of a command that ends with `psend`.
  abbrev pub or_three : Outcome (ℕ × Storage World) → Outcome (ℕ × Storage World)
  or_three sent = sent >>= λ (code, st). done (if not (code == 0) then 3 else 0, st)

  -- `set_speed`
  unfoldable pub set_motor_speed : List (List ℕ) → Storage World → Outcome (ℕ × Storage World)
  set_motor_speed argv st =
      let values = sscanf_assignment (word argv 1) in
      let motor_id = get_or values 0 0 in
      let speed = get_or values 1 0 in
      if not (length argv == 2)
      then done (1, st)
      else if is_closed st.avr_fd
      then done (2, st)
      else if not (length values == 2) || leb slave_id_limit (length values)
      then done (1, st)
      else if motor_id == 0
      then done (1, st)
      else or_three (
          psend line os locals st (com_type set_speed) motor_id
            (some (speed % 256 ∷ speed / 256 % 256 ∷ [])) 2)

  -- `apply`
  unfoldable pub apply_speeds : List (List ℕ) → Storage World → Outcome (ℕ × Storage World)
  apply_speeds argv st =
      if not (length argv == 1)
      then done (1, st)
      else if is_closed st.avr_fd
      then done (2, st)
      else or_three (psend line os locals st (com_type apply) 0 none 0)

  -- `set_slave_addr`
  unfoldable pub set_address : List (List ℕ) → Storage World → Outcome (ℕ × Storage World)
  set_address argv st =
      let actual = sscanf_integer_byte (word argv 1) in
      let new = sscanf_integer_byte (word argv 2) in
      let addr_actual = get_or actual 0 0 in
      let addr_new = get_or new 0 0 in
      if not (length argv == 3)
      then done (1, st)
      else if is_closed st.avr_fd
      then done (2, st)
      else if not (length actual + length new == 2)
      then done (1, st)
      else if addr_actual == 0
          || addr_new == 0
          || leb slave_id_limit addr_actual
          || leb slave_id_limit addr_new
      then done (1, st)
      else if addr_actual == addr_new
      then done (0, st)
      else or_three
          (psend line os locals st (com_type set_slave_addr) addr_actual (some (addr_new ∷ [])) 1)
