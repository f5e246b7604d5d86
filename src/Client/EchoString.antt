-- ===== src/Client/EchoString.antt =====
-- `_prepare_echo_string` of client/source/shell_commands.c: the words of a command are copied into an
-- array, with a blank between them. A word is the list of its characters before the null character.
pub mod Fits
mod Tests
use ammc.Base.{
  ℕ, ◌+◌, ◌-◌, Option, none, some, List, [], ◌∷◌, ◌++◌, length, take, drop, overlay, leb, ltb, ◌==◌,
  if◌then◌else◌, u8,
}
use ammc.Packet.{body_max_len}

-- Bytes written at an index of an array; `none` if they run past its end.
unfoldable pub store : List ℕ → ℕ → List ℕ → Option (List ℕ)
store dest i bytes =
    if ltb (length dest) (i + length bytes)
    then none
    else some (take i dest ++ overlay (drop i dest) bytes)

-- `if (str_len) dest[str_len++] = ' ';`
unfoldable pub separate : List ℕ → ℕ → Option (List ℕ × ℕ)
separate dest str_len =
    if str_len == 0 then some (dest, 0) else elim (store dest str_len (b' ' ∷ [])) [
      | none ↦ none
      | some dest' ↦ some (dest', str_len + 1)
    ]

-- The loop over the words that are left, and the return: the array and the code. `none` is a write
-- past the array.
unfoldable pub copy_words : List (List ℕ) → List ℕ → ℕ → Option (List ℕ × ℕ)
copy_words [] dest str_len = elim (store dest str_len (0 ∷ [])) [
  | none ↦ none
  | some dest' ↦ some (dest', u8 str_len)
]
copy_words (word ∷ words) dest str_len =
    if leb (body_max_len - 1) ((if str_len == 0 then 0 else str_len + 1) + length word)
    then some (dest, 0xff)
    else elim (separate dest str_len) [
      | none ↦ none
      | some (dest', len) ↦ elim (store dest' len (word ++ 0 ∷ [])) [
        | none ↦ none
        | some dest'' ↦ copy_words words dest'' (len + length word)
      ]
    ]

-- `_prepare_echo_string`, from the second word on.
unfoldable pub prepare_echo_string : List ℕ → List (List ℕ) → Option (List ℕ × ℕ)
prepare_echo_string dest argv = copy_words (drop 1 argv) dest 0
