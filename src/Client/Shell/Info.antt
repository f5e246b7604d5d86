-- ===== src/Client/Shell/Info.antt =====
-- client/source/shell.c: the flags of a shell, its prompts, and what `shell_print` says of it.
use ammc.Base.{
  ℕ, ◌+◌, ◌-◌, Bool, true, false, not, ◌≡◌, ◌⊎◌, inl, inr, Option, none, some, List, [], ◌∷◌,
  length, if◌then◌else◌, arith,
}
use ammc.Client.Shell.{
  Shell, ShellCommand, Builtin, shell_builtins, find_builtin, flag_get, flag_set, sh_script_mode,
}

-- `shell_flag_clr`, `shell_flag_tog`: flags are single bits.
unfoldable pub flag_clr : ℕ → ℕ → ℕ
flag_clr flags flag = if flag_get flags flag then flags - flag else flags

unfoldable pub flag_tog : ℕ → ℕ → ℕ
flag_tog flags flag = if flag_get flags flag then flags - flag else flags + flag

-- `default_prompt`
abbrev pub default_prompt : List ℕ
default_prompt = b'>' ∷ b' ' ∷ []

-- The prompt that `shell_new` copies.
unfoldable pub chosen_prompt : Option (List ℕ) → List ℕ
chosen_prompt none = default_prompt
chosen_prompt (some prompt) = prompt

-- `_prompt`, and the end of `shell_loop`: a script has neither.
unfoldable pub prompt_text : ℕ → List ℕ → List ℕ
prompt_text flags prompt = if not (flag_get flags sh_script_mode) then prompt else []

abbrev pub farewell : List ℕ
farewell = b'\n' ∷ b'G' ∷ b'o' ∷ b'o' ∷ b'd' ∷ b' ' ∷ b'b' ∷ b'y' ∷ b'e' ∷ b'!' ∷ b'\n' ∷ []

unfoldable pub farewell_text : ℕ → List ℕ
farewell_text flags = if not (flag_get flags sh_script_mode) then farewell else []

-- `command_type_t`
pub data CommandType : Type 0 where
  cmd_type_all cmd_type_builtin cmd_type_external cmd_type_none : CommandType

-- A command of either array.
pub data Found (S : Type 0) : Type 0 where
  builtin : Builtin → Found S
  external : ShellCommand S → Found S

-- `shell_command_get`: all types are tried in their order.
unfoldable pub command_get : {S : Type 0} → Shell S → List ℕ → CommandType → Option (Found S)
command_get sh name cmd_type_builtin = elim (find_builtin name shell_builtins) [
  | none ↦ none
  | some b ↦ some (builtin b)
]
command_get sh name cmd_type_external = elim (sh.libc.search name sh.commands) [
  | none ↦ none
  | some cmd ↦ some (external cmd)
]
command_get sh name cmd_type_all = elim (find_builtin name shell_builtins) [
  | none ↦ (elim (sh.libc.search name sh.commands) [ none ↦ none | some cmd ↦ some (external cmd) ])
  | some b ↦ some (builtin b)
]
command_get sh name cmd_type_none = none

-- A line of `shell_print`.
pub data InfoLine : Type 0 where
  null_shell : InfoLine
  prompt_line : (prompt : List ℕ) → InfoLine
  storage_line : (present : Bool) → InfoLine
  number_line : (commands : ℕ) → InfoLine
  command_line : (name : List ℕ) → InfoLine

unfoldable pub command_lines : {S : Type 0} → List (ShellCommand S) → List InfoLine
command_lines [] = []
command_lines (cmd ∷ cmds) = command_line cmd.name ∷ command_lines cmds

-- `shell_print`, with the prompt, and whether there is a storage.
unfoldable pub shell_print : {S : Type 0} → Option (Shell S) → List ℕ → Bool → List InfoLine
shell_print none prompt storage = null_shell ∷ []
shell_print (some sh) prompt storage =
    prompt_line prompt
    ∷ storage_line storage
    ∷ number_line (length sh.commands)
    ∷ command_lines sh.commands

-- The three flags of a shell, whose flags are a byte: a flag that was set is on and a flag that was
-- cleared is off; a flag that was toggled twice is as it was, and so are the flags.
flag_laws :
    (flags flag : ℕ)
    → (flag ≡ 1) ⊎ (flag ≡ 2) ⊎ (flag ≡ 4)
    → (flag_get (flag_set flags flag) flag ≡ true)
      × (flag_get (flag_clr flags flag) flag ≡ false)
      × (flag_tog (flag_tog flags flag) flag ≡ flags)
unfolding flag_get flag_set flag_clr flag_tog
flag_laws flags flag (inl e) = ground arith
flag_laws flags flag (inr (inl e)) = ground arith
flag_laws flags flag (inr (inr e)) = ground arith
