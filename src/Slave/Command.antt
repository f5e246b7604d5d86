-- ===== src/Slave/Command.antt =====
-- slave/source/command.c and slave/source/main.c: the commands of the master.
pub mod Effects
mod Tests
use ammc.Base.{
  ℕ, ◌+◌, ◌*◌, ◌/◌, ◌-◌, ◌%◌, Bool, true, false, not, ◌&&◌, Option, none, some, List, [], ◌∷◌, take,
  drop, length, get_or, ltb, ◌==◌, if◌then◌else◌,
}
use ammc.Master.Commands.{Command, command_id, get_speed, set_speed, apply_speed, ping, set_addr}
use ammc.Slave.Motor.{Motor, set_next, apply_next}
use ammc.Slave.Motor
use ammc.Slave.Twi
use ammc.Slave.Twi.{Twi, rx_max_len}

-- The variables of the slave's program: the address in EEPROM and in memory, the command on the
-- stack of `main`, and the modules.
pub record Slave (F : Type 0) : Type 0 where
  pub eeprom : ℕ
  pub own_address : ℕ
  pub command : Command
  pub twi : Twi
  pub motor : Motor F

abbrev pub default_address : ℕ
default_address = 1

-- `command_isvalid`, of a command that is not null: `cmd_size` counts the id.
unfoldable pub command_isvalid : Command → ℕ → Bool
command_isvalid cmd cmd_size =
    if cmd.id == command_id get_speed
    then cmd_size == 1
    else if cmd.id == command_id apply_speed
    then cmd_size == 1
    else if cmd.id == command_id set_speed
    then cmd_size == 3
    else if cmd.id == command_id ping
    then cmd_size == 2
    else if cmd.id == command_id set_addr
    then (let new_addr = get_or cmd.argument 0 0 in
        cmd_size == 2 && not (new_addr == 0) && ltb new_addr 127)
    else false

-- A word of 16 bits and its bytes in memory.
abbrev pub bytes16 : ℕ → List ℕ
bytes16 w = w % 256 ∷ w / 256 % 256 ∷ []

abbrev pub word16 : List ℕ → ℕ
word16 bytes = get_or bytes 0 0 + 256 * get_or bytes 1 0

-- `change_twi_address_to`
unfoldable pub change_twi_address_to : {F : Type 0} → Slave F → ℕ → Slave F
change_twi_address_to s new_addr = record s {
  eeprom = new_addr;
  own_address = new_addr;
  twi = Twi.init s.twi new_addr;
}

-- `command_respond`
unfoldable pub command_respond : {F : Type 0} → Slave F → List ℕ → ℕ → Slave F
command_respond s response size = record s { twi = (Twi.send s.twi response size).1 }

-- The branches of the `switch` in `execute_command`.
unfoldable pub dispatch : {F : Type 0} → Slave F → Command → ℕ → Slave F
dispatch s cmd cmd_size =
    if cmd.id == command_id get_speed
    then command_respond s (bytes16 (Motor.get s.motor)) 2
    else if cmd.id == command_id set_speed
    then record s { motor = set_next s.motor (word16 cmd.argument) }
    else if cmd.id == command_id apply_speed
    then record s { motor = apply_next s.motor }
    else if cmd.id == command_id ping
    then command_respond s cmd.argument (cmd_size - 1)
    else if cmd.id == command_id set_addr
    then change_twi_address_to s (get_or cmd.argument 0 0)
    else s

-- `execute_command`
unfoldable pub execute_command : {F : Type 0} → Slave F → Command → ℕ → Slave F
execute_command s cmd cmd_size =
    if not (command_isvalid cmd cmd_size) then s else dispatch s cmd cmd_size

-- A command and its bytes in memory.
abbrev pub to_bytes : Command → List ℕ
to_bytes cmd = cmd.id ∷ cmd.argument

abbrev pub of_bytes : List ℕ → Command
of_bytes bytes = record { id = get_or bytes 0 0; argument = drop 1 bytes }

-- A round of the loop in `main`, for the bytes that the master sends: `command_recv`, and
-- `execute_command`; `none` when the bytes run past the command. While the module is not ready,
-- since the master has not read the answer to the command before, `twi_recv` waits: the interrupt
-- routine stores the bytes where the command before was, behind its own, and they are not executed.
unfoldable pub main_round : {F : Type 0} → Slave F → List ℕ → Option (Slave F)
main_round s bytes =
    if Twi.is_ready s.twi
    then elim (Twi.recv s.twi (to_bytes s.command) rx_max_len bytes) [
      | none ↦ none
      | some twi ↦
          let command = of_bytes twi.rx_buffer in
          some (execute_command (record s { twi = twi; command = command }) command twi.rx_idx)
    ]
    else elim (Twi.transfer s.twi bytes) [
      | none ↦ none
      | some twi ↦ some (record s { twi = twi; command = of_bytes twi.rx_buffer })
    ]

-- `setup`: the address is read from EEPROM.
unfoldable pub setup_address : {F : Type 0} → Slave F → Slave F
setup_address s = record s { own_address = s.eeprom; twi = Twi.init s.twi s.eeprom }
