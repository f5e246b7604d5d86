-- ===== src/Client/Commands/Tests.antt =====
-- Runs of the commands that need no answer of the master.
use ammc.Base.{ℕ, ◌≡◌, refl, true, some, [], ◌∷◌}
use ammc.Samples.{same_answer, blank_client, one_device}
use ammc.Client.Comm.{Line, done}
use ammc.Client.Commands.{Storage, shell_storage_new, disconnect, serial_close, valid_dev}
use ammc.Client.Commands.Settings.{set_address}
use ammc.Client.Scan.{
  sscanf_integer_byte, scan_digits, split_sign, skip_spaces, starts_digit, digit_value, to_long,
  base_of,
}
use ammc.Client.Program.Table.{chars}

abbrev line : Line
line = same_answer []

abbrev unplugged : Storage ℕ
unplugged = shell_storage_new (record { tty = true; global_id = 0; input = []; world = 0 })

abbrev plugged : Storage ℕ
plugged = record unplugged { avr_fd = some 3 }

disconnect_nothing :
    disconnect line (one_device ℕ) blank_client (chars "disconnect" ∷ []) unplugged
    ≡ done (2, unplugged)
unfolding disconnect serial_close shell_storage_new
disconnect_nothing = refl

disconnect_device :
    disconnect line (one_device ℕ) blank_client (chars "disconnect" ∷ []) plugged
    ≡ done (0, unplugged)
unfolding disconnect serial_close valid_dev shell_storage_new
disconnect_device = refl

-- A hexadecimal address that is the one of the slave already: nothing is sent.
set_address_same :
    set_address line
      (one_device ℕ)
      blank_client
      (chars "set-slave-addr" ∷ chars "0x1f" ∷ chars "31" ∷ [])
      plugged
    ≡ done (0, plugged)
unfolding set_address sscanf_integer_byte scan_digits split_sign skip_spaces starts_digit
    digit_value to_long base_of shell_storage_new
set_address_same = refl
