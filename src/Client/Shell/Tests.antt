-- ===== src/Client/Shell/Tests.antt =====
-- Runs of the shell, and examples of its properties.
use ammc.Base.{ℕ, ◌+◌, ◌≡◌, refl, List, [], ◌∷◌, ◌++◌, some, none, if◌then◌else◌, ltb}
use ammc.Client.Comm.{done, overflow}
use ammc.Client.Shell.{
  Shell, ShellCommand, printed_line, tokenize_line, words, argv_len, sh_exit_on_err, sh_sig_exit,
  sh_script_mode, find_builtin, same_name, echo_line, flag_get, flag_set,
}
use ammc.Client.Shell.Arrays.{named}
use ammc.Client.Shell.Samples.{simple_libc}
use ammc.Client.Shell.Words.{letters, tokenize_line-letters}
use ammc.Client.Shell.Exec.{
  shell_loop, exec_line, exec_words, execute, run_builtin, run_echo, run_exit, help_builtin,
  run_external, help_external, fgets_lines, line_room,
}
use ammc.Client.Shell.Loop.{
  fgets_lines-unlines, unlines, ended, are_lines, has_newline, shell_loop-letters,
}

-- " ab\tc\n"
abbrev line : List ℕ
line = 32 ∷ 97 ∷ 98 ∷ 9 ∷ 99 ∷ 10 ∷ []

tokenize_line_words : tokenize_line line ≡ some ((97 ∷ 98 ∷ []) ∷ (99 ∷ []) ∷ [])
unfolding tokenize_line words
tokenize_line_words = refl

tokenize_line-letters_example :
    tokenize_line (letters 1024)
    ≡ (if ltb 1024 argv_len then some (words [] (letters 1024)) else none)
tokenize_line-letters_example = tokenize_line-letters 1024

-- A command that counts how often it ran, and fails with the code 4.
abbrev fails : ShellCommand ℕ
fails = record { name = b'f' ∷ []; help = none; exec = λ argv n. done (4, n + 1) }

abbrev script : Shell ℕ
script = record {
  libc = simple_libc ℕ;
  commands = fails ∷ [];
  storage = 0;
  flags = sh_script_mode + sh_exit_on_err;
  output = [];
}

abbrev echo_x : List ℕ
echo_x = b'e' ∷ b'c' ∷ b'h' ∷ b'o' ∷ b' ' ∷ b'x' ∷ []

abbrev exits : List ℕ
exits = b'e' ∷ b'x' ∷ b'i' ∷ b't' ∷ []

abbrev echoed : Shell ℕ
echoed = record script { output = printed_line (b'x' ∷ b'\n' ∷ []) ∷ [] }

echo_runs : exec_line script (echo_x ++ 10 ∷ []) ≡ done (0, echoed)
unfolding exec_line exec_words execute tokenize_line words find_builtin same_name run_builtin
    help_builtin run_echo echo_line
echo_runs = refl

fails_runs : exec_line echoed (b'f' ∷ 10 ∷ []) ≡ done (4, record echoed { storage = 1 })
unfolding exec_line exec_words execute tokenize_line words find_builtin named same_name run_external
    help_external
fails_runs = refl

exit_runs :
    shell_loop ((exits ++ 10 ∷ []) ∷ (b'f' ∷ 10 ∷ []) ∷ []) script
    ≡ done (record script { flags = sh_script_mode + sh_exit_on_err + sh_sig_exit })
unfolding shell_loop exec_line exec_words execute tokenize_line words find_builtin same_name
    run_builtin help_builtin run_exit flag_set flag_get
exit_runs = refl

fgets_lines-unlines_example :
    fgets_lines line_room [] (unlines (echo_x ∷ exits ∷ [])) ≡ ended (echo_x ∷ exits ∷ [])
unfolding are_lines has_newline
fgets_lines-unlines_example = fgets_lines-unlines (echo_x ∷ exits ∷ []) refl

shell_loop-letters_example :
    shell_loop (fgets_lines line_room [] (letters argv_len ++ exits)) script ≡ overflow
shell_loop-letters_example = shell_loop-letters script exits
