-- ===== src/Client/Shell.antt =====
-- client/source/shell.c: lines are cut into words, which name a command. A line is the list of its
-- characters. Exec has the execution of commands and the loop over the lines of an input.
pub mod Arrays
pub mod Words
pub mod Exec
pub mod Loop
pub mod Info
pub mod Samples
mod Tests
use ammc.Base.{
  ℕ, zero, suc, ◌+◌, ◌-◌, ◌*◌, ◌/◌, ◌%◌, Bool, true, false, not, ◌&&◌, ◌||◌, Option, none, some,
  List, [], ◌∷◌, ◌++◌, length, take, ltb, leb, ◌==◌, if◌then◌else◌,
}
use ammc.Client.Comm.{Outcome, done, blocked, overflow, ◌>>=◌}

-- `SHELL_LINE_MAX_LEN`, and the places of `argv`.
abbrev pub shell_line_max_len : ℕ
shell_line_max_len = 2046

abbrev pub argv_len : ℕ
argv_len = shell_line_max_len / 2 + 1

-- `shell_command_t`; what a command does is a function on the storage, which gives its code.
pub record ShellCommand (S : Type 0) : Type 0 where
  pub name : List ℕ
  pub help : Option (List ℕ)
  pub exec : List (List ℕ) → S → Outcome (ℕ × S)

-- The built-in commands.
pub data Builtin : Type 0 where
  builtin_echo builtin_exit builtin_help : Builtin

-- What the shell itself prints on the standard output, but for prompts.
pub data Printed (S : Type 0) : Type 0 where
  printed_line : List ℕ → Printed S
  not_found unknown no_help : List ℕ → Printed S
  usage : Builtin → Printed S
  command_list : List Builtin → List (ShellCommand S) → Printed S

-- `qsort` and `bsearch` of the C library, on arrays of commands that `cmdcmp` compares.
pub record Libc (S : Type 0) : Type 0 where
  pub sort : List (ShellCommand S) → List (ShellCommand S)
  pub search : List ℕ → List (ShellCommand S) → Option (ShellCommand S)

-- `shell_t`, with what was printed, and the library that it is linked with.
pub record Shell (S : Type 0) : Type 0 where
  pub libc : Libc S
  pub commands : List (ShellCommand S)
  pub storage : S
  pub flags : ℕ
  pub output : List (Printed S)

-- `shell_flag_t` and `shell_flag_get`, `shell_flag_set`: flags are single bits.
abbrev pub sh_sig_exit : ℕ
sh_sig_exit = 1

abbrev pub sh_script_mode : ℕ
sh_script_mode = 2

abbrev pub sh_exit_on_err : ℕ
sh_exit_on_err = 4

unfoldable pub flag_get : ℕ → ℕ → Bool
flag_get flags flag = not (flags / flag % 2 == 0)

unfoldable pub flag_set : ℕ → ℕ → ℕ
flag_set flags flag = if flag_get flags flag then flags else flags + flag

-- The delimiters of `strtok`: a blank, a tab, a newline.
abbrev pub is_delimiter : ℕ → Bool
is_delimiter c = c == 32 || c == 9 || c == 10

abbrev pub is_nil : List ℕ → Bool
is_nil [] = true
is_nil (c ∷ cs) = false

-- The words that the calls of `strtok` give, behind the part of a word that was read already. A
-- null character ends the line.
unfoldable pub words : List ℕ → List ℕ → List (List ℕ)
words word [] = if is_nil word then [] else word ∷ []
words word (c ∷ cs) =
    let behind = words [] cs in
    let longer = words (word ++ c ∷ []) cs in
    if c == 0
    then (if is_nil word then [] else word ∷ [])
    else if is_delimiter c
    then (if is_nil word then behind else word ∷ behind)
    else longer

-- `tokenize_line`: the words of `argv`, as many as `argc` says. `none` is a write past `argv`, which
-- needs a place for the null pointer, too.
unfoldable pub tokenize_line : List ℕ → Option (List (List ℕ))
tokenize_line line =
    let argv = words [] line in if ltb (length argv) argv_len then some argv else none

-- `strcmp`: whether the names are the same, and whether one comes before another.
unfoldable pub same_name : List ℕ → List ℕ → Bool
same_name [] [] = true
same_name [] (d ∷ ds) = false
same_name (c ∷ cs) [] = false
same_name (c ∷ cs) (d ∷ ds) = c == d && same_name cs ds

unfoldable pub name_before : List ℕ → List ℕ → Bool
name_before [] [] = false
name_before [] (d ∷ ds) = true
name_before (c ∷ cs) [] = false
name_before (c ∷ cs) (d ∷ ds) = ltb c d || c == d && name_before cs ds

abbrev pub builtin_name : Builtin → List ℕ
builtin_name builtin_echo = b'e' ∷ b'c' ∷ b'h' ∷ b'o' ∷ []
builtin_name builtin_exit = b'e' ∷ b'x' ∷ b'i' ∷ b't' ∷ []
builtin_name builtin_help = b'h' ∷ b'e' ∷ b'l' ∷ b'p' ∷ []

-- `bsearch` on the array of the built-in commands, which is sorted and has each name once, so that
-- what it finds is determined.
unfoldable pub find_builtin : List ℕ → List Builtin → Option Builtin
find_builtin name [] = none
find_builtin name (b ∷ bs) =
    if same_name name (builtin_name b) then some b else find_builtin name bs

-- `_shell_builtins`, sorted
abbrev pub shell_builtins : List Builtin
shell_builtins = builtin_echo ∷ builtin_exit ∷ builtin_help ∷ []

-- The arguments as `_builtin_echo` prints them: a blank behind each, a newline behind the last.
unfoldable pub echo_line : List (List ℕ) → List ℕ
echo_line [] = []
echo_line (word ∷ []) = word ++ b'\n' ∷ []
echo_line (word ∷ next ∷ words) = word ++ b' ' ∷ echo_line (next ∷ words)
