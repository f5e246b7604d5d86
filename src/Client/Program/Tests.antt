-- ===== src/Client/Program/Tests.antt =====
-- Runs of the client program, and examples of its properties.
use ammc.Base.{ℕ, ◌≡◌, refl, true, some, none, List, [], ◌∷◌, ◌++◌}
use ammc.Samples.{same_answer, blank_client, one_device}
use ammc.Client.Comm.{Line, Comm, done}
use ammc.Client.Commands.{Storage, shell_cleanup, shell_storage_new}
use ammc.Client.Shell.{
  ShellCommand, same_name, find_builtin, words, tokenize_line, flag_set, flag_get,
}
use ammc.Client.Shell.Exec.{
  exec_line, exec_words, execute, run_builtin, run_exit, help_builtin, shell_loop, fgets_lines,
}
use ammc.Client.Program.{
  main, run, handle_options, auto_connect, run_script, run_shell, unrecognized, opt_s,
}
use ammc.Client.Program.Table.{shell_new, chars}
use ammc.Client.Program.Sorted.{shell_new-named}
use ammc.Client.Shell.Arrays.{are_sorted, are_distinct, is_fresh, named}
use ammc.Client.Shell.Samples.{simple_libc, simple-IsDocumented}

abbrev line : Line
line = same_answer []

abbrev unopened : Comm ℕ
unopened = record { tty = true; global_id = 0; input = []; world = 0 }

-- An option that the program does not know makes it exit with 1, and nothing is executed.
main_usage :
    main line
      (one_device ℕ)
      blank_client
      (simple_libc (Storage ℕ))
      (λ path. none)
      []
      (unrecognized ∷ [])
      unopened
    ≡ done (1, shell_storage_new unopened)
unfolding main handle_options
main_usage = refl

-- A script that is not there makes the program exit with 1.
main_no_script :
    main line
      (one_device ℕ)
      blank_client
      (simple_libc (Storage ℕ))
      (λ path. none)
      []
      (opt_s (chars "x") ∷ [])
      unopened
    ≡ done (1, shell_storage_new unopened)
unfolding main handle_options run auto_connect run_script shell_new
main_no_script = refl

-- A script that exits.
main_exit :
    main line
      (one_device ℕ)
      blank_client
      (simple_libc (Storage ℕ))
      (λ path. some (chars "exit" ++ 10 ∷ []))
      []
      (opt_s (chars "x") ∷ [])
      unopened
    ≡ done (0, shell_storage_new unopened)
unfolding main handle_options run auto_connect run_script run_shell shell_new shell_loop fgets_lines
    exec_line exec_words execute tokenize_line words find_builtin same_name run_builtin run_exit
    help_builtin flag_set flag_get shell_cleanup shell_storage_new
main_exit = refl

abbrev named_command : List ℕ → ShellCommand ℕ
named_command name = record { name = name; help = none; exec = λ argv n. done (0, n) }

abbrev two : List (ShellCommand ℕ)
two = named_command (chars "ping") ∷ named_command (chars "apply") ∷ []

shell_new-named_example :
    let sh = shell_new (simple_libc ℕ) two 0 in
    (are_sorted sh.commands ≡ true)
    × (sh.libc.search (chars "ping") sh.commands ≡ named (chars "ping") two)
unfolding are_distinct is_fresh same_name
shell_new-named_example =
    shell_new-named (simple_libc ℕ) two 0 (chars "ping") simple-IsDocumented refl
