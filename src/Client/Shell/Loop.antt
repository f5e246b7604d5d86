-- ===== src/Client/Shell/Loop.antt =====
-- The lines that `fgets` gives the loop of the shell, and the loop over them.
use ammc.Base.{
  ℕ, zero, suc, ◌+◌, ◌-◌, ◌≤◌, ◌≡◌, ◌∙◌, refl, ap, List, [], ◌∷◌, ◌++◌, length, inl, inr,
  Bool-cases, arith, leb, ◌==◌, true, false, Bool, not, ◌&&◌, ◌||◌, append_assoc,
}
use ammc.Client.Comm.{done, overflow}
use ammc.Client.Shell.{Shell, words, shell_line_max_len, argv_len, sh_sig_exit, flag_get}
use ammc.Client.Shell.Exec.{exec_line, shell_loop, fgets_lines, line_room}
use ammc.Client.Shell.Words.{letters, length-letters, tokenize_line-letters}

-- Whether a character is a newline.
unfoldable pub has_newline : List ℕ → Bool
has_newline [] = false
has_newline (c ∷ cs) = c == 10 || has_newline cs

-- The lines of a text that are short enough for the buffer, and the text that they are lines of.
unfoldable pub are_lines : List (List ℕ) → Bool
are_lines [] = true
are_lines (line ∷ lines) =
    leb (length line) shell_line_max_len && not (has_newline line) && are_lines lines

unfoldable pub unlines : List (List ℕ) → List ℕ
unlines [] = []
unlines (line ∷ lines) = line ++ 10 ∷ unlines lines

unfoldable pub ended : List (List ℕ) → List (List ℕ)
ended [] = []
ended (line ∷ lines) = (line ++ 10 ∷ []) ∷ ended lines

fgets_lines-line :
    (room : ℕ)
    → (line cs rest : List ℕ) → length cs + 1 ≤ room
    → has_newline cs ≡ false
    → fgets_lines room line (cs ++ 10 ∷ rest)
      ≡ (line ++ (cs ++ 10 ∷ [])) ∷ fgets_lines line_room [] rest
unfolding fgets_lines has_newline
fgets_lines-line room line [] rest le free = refl
fgets_lines-line room line (c ∷ cs) rest le free = elim (Bool-cases (c == 10)) [
  | inl e ↦ ground arith
  | inr e ↦
      let more : leb room 1 ≡ false = ground arith in
      rw (e, more)
        (fgets_lines-line (room - 1) (line ++ c ∷ []) cs rest (omega arith) (ground arith)
          ∙ ap (λ l. l ∷ fgets_lines line_room [] rest)
              (append_assoc line (c ∷ []) (cs ++ 10 ∷ [])))
]

-- The lines of a text that ends with a newline, none of which has more than 2046 characters, come
-- back from `fgets` one by one, each with its newline.
pub fgets_lines-unlines :
    (lines : List (List ℕ))
    → are_lines lines ≡ true
    → fgets_lines line_room [] (unlines lines) ≡ ended lines
unfolding fgets_lines unlines ended are_lines
fgets_lines-unlines [] are = refl
fgets_lines-unlines (line ∷ lines) are =
    fgets_lines-line line_room [] line (unlines lines) (ground arith) (ground arith)
    ∙ ap (λ l. (line ++ 10 ∷ []) ∷ l) (fgets_lines-unlines lines (ground arith))

-- A newline behind a line adds no word.
words-newline : (word cs : List ℕ) → words word (cs ++ 10 ∷ []) ≡ words word cs
unfolding words
words-newline [] [] = refl
words-newline (x ∷ word) [] = refl
words-newline word (c ∷ cs) = rw (words-newline [] cs, words-newline (word ++ c ∷ []) cs) refl

-- A piece without a newline that fills the buffer is a line, too.
fgets_lines-full :
    (room : ℕ)
    → (line : List ℕ) → (c : ℕ) → (cs rest : List ℕ) → length (c ∷ cs) ≡ room
    → has_newline (c ∷ cs) ≡ false
    → fgets_lines room line ((c ∷ cs) ++ rest) ≡ (line ++ c ∷ cs) ∷ fgets_lines line_room [] rest
unfolding fgets_lines has_newline
fgets_lines-full room line c [] rest full free = ground arith
fgets_lines-full room line c (d ∷ cs) rest full free =
    let more : (c == 10 || leb room 1) ≡ false = ground arith in
    rw more (
      fgets_lines-full (room - 1) (line ++ c ∷ []) d cs rest (omega arith) (ground arith)
      ∙ ap (λ l. l ∷ fgets_lines line_room [] rest) (append_assoc line (c ∷ []) (d ∷ cs)))

has_newline-letters : (n : ℕ) → has_newline (letters n) ≡ false
unfolding has_newline letters
has_newline-letters zero = refl
has_newline-letters (suc zero) = refl
has_newline-letters (suc (suc n)) = has_newline-letters (suc n)

fgets_lines-letters :
    (rest : List ℕ)
    → fgets_lines line_room [] (letters argv_len ++ rest)
      ≡ letters argv_len ∷ fgets_lines line_room [] rest
unfolding letters
fgets_lines-letters rest =
    fgets_lines-full line_room [] b'x' (b' ' ∷ letters 1023) rest (length-letters 1023)
      (has_newline-letters argv_len)

module _ {S : Type 0} where
  exec_line-letters : (sh : Shell S) → exec_line sh (letters argv_len) ≡ overflow
  unfolding exec_line
  exec_line-letters sh = rw (tokenize_line-letters argv_len, exec_line) refl

  -- An input that starts with 1024 words of one letter, with a blank between them, is written past
  -- the array of the words, whatever the state of the shell and the rest of the input.
  pub shell_loop-letters :
      (sh : Shell S)
      → (rest : List ℕ)
      → shell_loop (fgets_lines line_room [] (letters argv_len ++ rest)) sh ≡ overflow
  unfolding shell_loop
  shell_loop-letters sh rest = rw (fgets_lines-letters rest, exec_line-letters sh) refl

  -- The lines that are executed from one state of the shell to another, each with the code 0 and
  -- without the signal to exit.
  pub data Ran : List (List ℕ) → Shell S → Shell S → Type 0 where
    ran_none : (sh : Shell S) → Ran [] sh sh
    ran_line :
        (line : List ℕ)
        → (lines : List (List ℕ)) → (sh next last : Shell S) → exec_line sh line ≡ done (0, next)
        → flag_get next.flags sh_sig_exit ≡ false
        → Ran lines next last
        → Ran (line ∷ lines) sh last

  -- When all lines succeed, the loop ends in the state behind the last of them.
  pub shell_loop-Ran :
      (lines : List (List ℕ))
      → (sh last : Shell S) → Ran lines sh last
      → shell_loop lines sh ≡ done last
  unfolding shell_loop
  shell_loop-Ran [] sh last (ran_none _) = refl
  shell_loop-Ran (l ∷ ls) sh last (ran_line _ _ _ next _ ok go ran) =
      rw (ok, go) (shell_loop-Ran ls next last ran)
