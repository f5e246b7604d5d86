-- ===== src/Client/Program/Table.antt =====
-- client/source/shell_commands.c and client/source/shell.c: the table of the commands, and the shell
-- with its commands in order.
use Prim.Native.Char.{code}
use Prim.Native.String.{String}
use ammc.Base.{ℕ, some, List, [], ◌∷◌, ◌++◌}
use ammc.Client.Comm.{Line}
use ammc.Client.Commands.{Os, Locals, Storage, connect, disconnect}
use ammc.Client.Commands.Queries.{dev_echo, ping_slave, get_motor_speed}
use ammc.Client.Commands.Settings.{set_motor_speed, apply_speeds, set_address}
use ammc.Client.Shell.{ShellCommand, Libc, Shell}

-- The characters of a string literal.
abbrev pub chars : String → List ℕ
chars String.[] = []
chars (String.◌∷◌ c s) = code c ∷ chars s

abbrev pub connect_name : List ℕ
connect_name = chars "connect"

-- `shell_new` of some commands, when its allocations succeed; the prompt is left out.
unfoldable pub shell_new : {S : Type 0} → Libc S → List (ShellCommand S) → S → Shell S
shell_new libc commands storage = record {
  libc = libc;
  commands = libc.sort commands;
  storage = storage;
  flags = 0;
  output = [];
}

-- `_shell_commands`
module _ (line : Line) (os : Os line.World) (locals : Locals) where
  unfoldable pub shell_commands : List (ShellCommand (Storage line.World))
  shell_commands =
      record {
        name = connect_name;
        help = some (
            chars "Usage: connect <device_path>"
            ++ b'\n' ∷ chars "Connect to an ammc device, given its dev file (e.g. /dev/ttyACM0)"
            ++ b'\n' ∷ chars "If it is already connected, reconnect");
        exec = connect line os locals;
      }
      ∷ record {
        name = chars "disconnect";
        help = some (
            chars "Usage: disconnect"
            ++ b'\n' ∷ chars "Close an existing connection - Has no effect on the device");
        exec = disconnect line os locals;
      }
      ∷ record {
        name = chars "dev-echo";
        help = some (
            chars "Usage: dev-echo <arg> [arg2 arg3 ...]"
            ++ b'\n' ∷ chars "Send a string to the device, which should send it back");
        exec = dev_echo line os locals;
      }
      ∷ record {
        name = chars "ping";
        help =
            some (
              chars "Usage: ping <slave_id>" ++ b'\n' ∷ chars "Ping a slave controller by address");
        exec = ping_slave line os locals;
      }
      ∷ record {
        name = chars "get-speed";
        help = some (
            chars "Usage: get-speed [motor-id]"
            ++ b'\n' ∷ chars "Get the speed of a DC motor in RPM");
        exec = get_motor_speed line os locals;
      }
      ∷ record {
        name = chars "set-speed";
        help = some (
            chars "Usage: set-speed [<motor-id>=<value>]"
            ++ b'\n' ∷ chars "Set the speed of a DC motor in RPM");
        exec = set_motor_speed line os locals;
      }
      ∷ record {
        name = chars "apply";
        help = some (
            chars "Usage: apply"
            ++ b'\n' ∷ chars "Tell all the slaves to apply the previously set speed");
        exec = apply_speeds line os locals;
      }
      ∷ record {
        name = chars "set-slave-addr";
        help = some (
            chars "Usage: set-slave-addr <actual-addr> <new-addr>"
            ++ b'\n' ∷ chars "Set a new TWI address for a slave controller");
        exec = set_address line os locals;
      }
      ∷ []
