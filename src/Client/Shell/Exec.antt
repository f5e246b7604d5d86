-- ===== src/Client/Shell/Exec.antt =====
-- client/source/shell.c: the built-in commands, the execution of a line and the loop of the shell.
use ammc.Base.{
  ℕ, ◌+◌, ◌-◌, not, ◌&&◌, ◌||◌, none, some, List, [], ◌∷◌, ◌++◌, length, take, leb, ◌==◌,
  if◌then◌else◌,
}
use ammc.Client.Comm.{Outcome, done, overflow, ◌>>=◌}
use ammc.Client.Shell.{
  ShellCommand, Shell, Builtin, builtin_echo, builtin_exit, builtin_help, Printed, printed_line,
  not_found, unknown, no_help, usage, command_list, sh_sig_exit, sh_exit_on_err, flag_get, flag_set,
  is_nil, tokenize_line, find_builtin, shell_builtins, echo_line, shell_line_max_len,
}

module _ {S : Type 0} where
  abbrev pub print : Shell S → Printed S → Shell S
  print sh line = record sh { output = sh.output ++ line ∷ [] }

  -- `_print_command_specific_help`
  unfoldable pub specific_help : Shell S → ShellCommand S → Shell S
  specific_help sh cmd = elim cmd.help [
    | none ↦ print sh (no_help cmd.name)
    | some text ↦ print sh (printed_line text)
  ]

  -- `_builtin_help` for the name of a command: a built-in command goes first.
  unfoldable pub help_on : Shell S → List ℕ → ℕ × Shell S
  help_on sh name = elim (find_builtin name shell_builtins) [
    | some b ↦ (0, print sh (usage b))
    | none ↦ (elim (sh.libc.search name sh.commands) [
      | some cmd ↦ (0, specific_help sh cmd)
      | none ↦ (2, print sh (unknown name))
    ])
  ]

  -- `_builtin_help`, `_builtin_exit`, `_builtin_echo`
  unfoldable pub run_help : Shell S → List (List ℕ) → ℕ × Shell S
  run_help sh [] = (1, sh)
  run_help sh (name ∷ []) = (0, print sh (command_list shell_builtins sh.commands))
  run_help sh (name ∷ topic ∷ []) = help_on sh topic
  run_help sh (name ∷ topic ∷ more ∷ words) = (1, sh)

  unfoldable pub run_exit : Shell S → List (List ℕ) → ℕ × Shell S
  run_exit sh argv =
      if not (length argv == 1)
      then (1, sh)
      else (0, record sh { flags = flag_set sh.flags sh_sig_exit })

  unfoldable pub run_echo : Shell S → List (List ℕ) → ℕ × Shell S
  run_echo sh [] = (0, sh)
  run_echo sh (name ∷ []) = (0, sh)
  run_echo sh (name ∷ word ∷ words) = (0, print sh (printed_line (echo_line (word ∷ words))))

  unfoldable pub run_builtin : Builtin → Shell S → List (List ℕ) → ℕ × Shell S
  run_builtin builtin_echo sh argv = run_echo sh argv
  run_builtin builtin_exit sh argv = run_exit sh argv
  run_builtin builtin_help sh argv = run_help sh argv

  -- The end of `_execute`: code 1 is an error of syntax, which prints the help.
  unfoldable pub help_builtin : Builtin → ℕ × Shell S → ℕ × Shell S
  help_builtin b (ret, sh) = (ret, if ret == 1 then print sh (usage b) else sh)

  unfoldable pub help_external : ShellCommand S → ℕ → Shell S → Shell S
  help_external cmd ret sh =
      if ret == 1
      then (elim cmd.help [ none ↦ sh | some text ↦ print sh (printed_line text) ])
      else sh

  unfoldable pub run_external : ShellCommand S → Shell S → List (List ℕ) → Outcome (ℕ × Shell S)
  run_external cmd sh argv = cmd.exec argv sh.storage >>= λ (ret, st).
      done (ret, help_external cmd ret (record sh { storage = st }))

  -- `_execute`, for words of which the first is `name`.
  unfoldable pub execute : Shell S → List ℕ → List (List ℕ) → Outcome (ℕ × Shell S)
  execute sh name argv = elim (find_builtin name shell_builtins) [
    | some b ↦ done (help_builtin b (run_builtin b sh argv))
    | none ↦ (elim (sh.libc.search name sh.commands) [
      | some cmd ↦ run_external cmd sh argv
      | none ↦ done (127, print sh (not_found name))
    ])
  ]

  unfoldable pub exec_words : Shell S → List (List ℕ) → Outcome (ℕ × Shell S)
  exec_words sh [] = done (0, sh)
  exec_words sh (name ∷ words) = execute sh name (name ∷ words)

  -- `_shell_exec`
  unfoldable pub exec_line : Shell S → List ℕ → Outcome (ℕ × Shell S)
  exec_line sh line = elim (tokenize_line line) [ none ↦ overflow | some argv ↦ exec_words sh argv ]

  -- `shell_exec`: the line is copied to a buffer, of which the last place has the null character.
  unfoldable pub shell_exec : Shell S → List ℕ → Outcome (ℕ × Shell S)
  shell_exec sh line = exec_line sh (take (shell_line_max_len - 1) line)

  -- `shell_execv`, for words of which the first is `name`.
  unfoldable pub shell_execv : Shell S → List ℕ → List (List ℕ) → Outcome (ℕ × Shell S)
  shell_execv sh name words = execute sh name (name ∷ words)

  -- `shell_loop` behind `fgets`, on the lines that its calls give. The end of the input ends it.
  unfoldable pub shell_loop : List (List ℕ) → Shell S → Outcome (Shell S)
  shell_loop [] sh = done sh
  shell_loop (line ∷ lines) sh = exec_line sh line >>= λ (ret, after).
      if not (ret == 0) && flag_get after.flags sh_exit_on_err
      then done after
      else if flag_get after.flags sh_sig_exit
      then done after
      else shell_loop lines after

-- The most characters that `fgets` puts into the line of `shell_loop`.
abbrev pub line_room : ℕ
line_room = shell_line_max_len + 1

-- The lines that the calls of `fgets` give until the end of the input: up to a newline, or as many
-- characters as there is room for. `line` is what the call has read, `room` what it may still read.
unfoldable pub fgets_lines : ℕ → List ℕ → List ℕ → List (List ℕ)
fgets_lines room line [] = if is_nil line then [] else line ∷ []
fgets_lines room line (c ∷ cs) =
    let behind = fgets_lines line_room [] cs in
    let longer = fgets_lines (room - 1) (line ++ c ∷ []) cs in
    if c == 10 || leb room 1 then (line ++ c ∷ []) ∷ behind else longer
