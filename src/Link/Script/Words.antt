-- ===== src/Link/Script/Words.antt =====
-- The lines of a script and their words, and the commands that they name.
use ammc.Base.{
  ℕ, false, ◌==◌, ◌≤◌, ◌≡◌, ap, ◌∙◌, sym, refl, none, some, List, [], ◌∷◌, ◌++◌, append-nil,
  append_assoc, length, All,
}
use ammc.Client.Comm.{done}
use ammc.Client.Shell.{
  Shell, ShellCommand, words, is_delimiter, find_builtin, shell_builtins, shell_line_max_len,
}
use ammc.Client.Shell.Exec.{exec_line, exec_words, execute, run_external, help_external}
use ammc.Client.Shell.Words.{tokenize_line_fits}

-- The characters of a word.
abbrev pub IsWord : List ℕ → Type 0
IsWord = All (λ c. ((c == 0) ≡ false) × (is_delimiter c ≡ false))

words-word :
    (front word rest : List ℕ)
    → IsWord word
    → words front (word ++ rest) ≡ words (front ++ word) rest
unfolding words
words-word front [] rest is = ap (λ f. words f rest) (sym (append-nil front))
words-word front (c ∷ word) rest is =
    rw (is.0.0, is.0.1)
      (words-word (front ++ c ∷ []) word rest is.1
        ∙ ap (λ f. words f rest) (append_assoc front (c ∷ []) word))

-- A word and a newline.
pub words-end :
    (c : ℕ) (word : List ℕ) → IsWord (c ∷ word) → words [] (c ∷ (word ++ 10 ∷ [])) ≡ (c ∷ word) ∷ []
unfolding words
words-end c word is = words-word [] (c ∷ word) (10 ∷ []) is

module _ {S : Type 0} where
  -- A command that is no built-in one and returns 0.
  pub execute-external :
      (sh : Shell S) (name : List ℕ) (argv : List (List ℕ)) (cmd : ShellCommand S) (st : S)
      → find_builtin name shell_builtins ≡ none
      → sh.libc.search name sh.commands ≡ some cmd
      → cmd.exec argv sh.storage ≡ done (0, st)
      → execute sh name argv ≡ done (0, record sh { storage = st })
  unfolding execute run_external help_external
  execute-external sh name argv cmd st outside found runs = rw (outside, execute, found, runs) refl

  pub exec_line-external :
      (sh : Shell S) (line name : List ℕ) (argv : List (List ℕ)) (cmd : ShellCommand S) (st : S)
      → length line ≤ shell_line_max_len
      → words [] line ≡ name ∷ argv
      → find_builtin name shell_builtins ≡ none
      → sh.libc.search name sh.commands ≡ some cmd
      → cmd.exec (name ∷ argv) sh.storage ≡ done (0, st)
      → exec_line sh line ≡ done (0, record sh { storage = st })
  unfolding exec_line exec_words
  exec_line-external sh line name argv cmd st short cut outside found runs =
      rw (tokenize_line_fits line short, cut, exec_line)
        (execute-external sh name (name ∷ argv) cmd st outside found runs)
