-- ===== src/Client/Program.antt =====
-- client/source/main.c, the commands of client/source/shell_commands.c, and `shell_new`. What
-- `getopt` gives, the standard input and the files are parameters; usage and prompts are left out.
pub mod Table
pub mod Sorted
mod Tests
use ammc.Base.{
  ℕ, Bool, true, false, not, ◌==◌, Option, none, some, List, [], ◌∷◌, if◌then◌else◌, ◌⊎◌, inl, inr,
}
use ammc.Client.Comm.{Line, Comm, Outcome, done, blocked, overflow, ◌>>=◌}
use ammc.Client.Commands.{Os, Locals, Storage, shell_cleanup, shell_storage_new}
use ammc.Client.Shell.{Shell, ShellCommand, Libc, flag_set, sh_script_mode, sh_exit_on_err}
use ammc.Client.Shell.Exec.{shell_execv, shell_loop, fgets_lines, line_room}
use ammc.Client.Program.Table.{connect_name, shell_commands, shell_new}

-- What a call of `getopt` gives: an option, one that misses its argument, or an unknown one.
pub data Given : Type 0 where
  opt_c opt_s : List ℕ → Given
  opt_h c_missing s_missing unrecognized : Given

-- The local variables that the options set.
pub record Settings : Type 0 where
  pub avr_dev_path : Option (List ℕ)
  pub script_path : Option (List ℕ)
  pub script_on_stdin : Bool

-- The loop over the options; on the left, the code that the program exits with.
unfoldable pub handle_options : List Given → Settings → ℕ ⊎ Settings
handle_options [] set = inr set
handle_options (opt_c path ∷ opts) set =
    handle_options opts (record set { avr_dev_path = some path })
handle_options (opt_s path ∷ opts) set =
    handle_options opts (record set { script_path = some path })
handle_options (opt_h ∷ opts) set = inl 0
handle_options (c_missing ∷ opts) set = inl 1
handle_options (s_missing ∷ opts) set = handle_options opts (record set { script_on_stdin = true })
handle_options (unrecognized ∷ opts) set = inl 1

abbrev pub no_settings : Settings
no_settings = record { avr_dev_path = none; script_path = none; script_on_stdin = false }

module _ (line : Line) (os : Os line.World) (locals : Locals) (libc : Libc (Storage line.World))
    (file_of : List ℕ → Option (List ℕ)) (standard_input : List ℕ) where
  open line use {World}

  -- The shell's loop on an input, and the exit behind it.
  unfoldable pub run_shell : Bool → List ℕ → Shell (Storage World) → Outcome (ℕ × Storage World)
  run_shell script input sh =
      let flags = flag_set (flag_set sh.flags sh_script_mode) sh_exit_on_err in
      shell_loop (fgets_lines line_room [] input)
        (if script then record sh { flags = flags } else sh)
      >>= λ ended. done (0, shell_cleanup line os locals ended.storage)

  -- The script, if there is one, and the loop.
  unfoldable pub run_script : Settings → Shell (Storage World) → Outcome (ℕ × Storage World)
  run_script set sh = elim set.script_path [
    | none ↦ run_shell set.script_on_stdin standard_input sh
    | some path ↦ (elim (file_of path) [
      | none ↦ done (1, sh.storage)
      | some text ↦ run_shell true text sh
    ])
  ]

  -- The connection of `-c`.
  unfoldable pub auto_connect :
      Settings → Shell (Storage World) → Outcome (ℕ × Shell (Storage World))
  auto_connect set sh = elim set.avr_dev_path [
    | none ↦ done (0, sh)
    | some path ↦ shell_execv sh connect_name (path ∷ [])
  ]

  unfoldable pub run : Settings → Comm World → Outcome (ℕ × Storage World)
  run set comm =
      let sh = shell_new libc (shell_commands line os locals) (shell_storage_new comm) in
      auto_connect set sh >>= λ (ret, connected).
      if not (ret == 0) then done (1, connected.storage) else run_script set connected

  -- `main`: the exit code, and the storage at the exit.
  unfoldable pub main : List Given → Comm World → Outcome (ℕ × Storage World)
  main options comm = elim (handle_options options no_settings) [
    | inl code ↦ done (code, shell_storage_new comm)
    | inr set ↦ run set comm
  ]
