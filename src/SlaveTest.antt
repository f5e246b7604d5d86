-- ===== src/SlaveTest.antt =====
-- slave/test/framework/test-framework.c: the tests of the slave's modules are counted and printed.
pub mod PidCases
pub mod Firmware
mod Tests
use ammc.Base.{
  ℕ, suc, ◌+◌, ◌%◌, ◌^◌, ◌≡◌, refl, ap, ◌∙◌, Bool, true, false, not, ◌&&◌, ◌||◌, List, [], ◌∷◌,
  ◌++◌, length, ltb, ◌==◌, if◌then◌else◌, inl, inr, ◌⊎◌, Bool-cases, flag, arith,
}

-- What is printed: characters, the escape sequence of a color, and the numbers of the summary.
pub data Piece : Type 0 where
  text : (characters : List ℕ) → Piece
  escape : (color : ℕ) → Piece
  totals : (total passed failed : ℕ) → Piece

-- `ansi_color_t`, as far as it is used.
abbrev pub c_none : ℕ
c_none = 0

abbrev pub c_bright_red : ℕ
c_bright_red = 91

abbrev pub c_bright_green : ℕ
c_bright_green = 92

abbrev pub c_bright_blue : ℕ
c_bright_blue = 94

-- The two counters, which are words of 32 bits, and what was printed.
pub record Tally : Type 0 where
  pub test_passed : ℕ
  pub test_failed : ℕ
  pub output : List Piece

unfoldable pub is_valid_color : ℕ → Bool
is_valid_color color = not (ltb color 31 || ltb 37 color && ltb color 90 || ltb 97 color)

unfoldable pub set_color : List Piece → ℕ → List Piece
set_color out color = if not (color == c_none) then out ++ escape color ∷ [] else out

unfoldable pub clear_color : List Piece → ℕ → List Piece
clear_color out color = if not (color == c_none) then out ++ escape 0 ∷ [] else out

-- `vfprintf_colored` and the two that call it: what `vfprintf` returns, and the output.
unfoldable pub printf_colored : List Piece → ℕ → List ℕ → ℕ × List Piece
printf_colored out color format =
    if not (is_valid_color color)
    then (0, out)
    else (length format, clear_color (set_color out color ++ text format ∷ []) color)

abbrev pub passed_label : List ℕ
passed_label = b'[' ∷ b'P' ∷ b'A' ∷ b'S' ∷ b'S' ∷ b'E' ∷ b'D' ∷ b']' ∷ b' ' ∷ []

abbrev pub failed_label : List ℕ
failed_label = b'[' ∷ b'F' ∷ b'A' ∷ b'I' ∷ b'L' ∷ b'E' ∷ b'D' ∷ b']' ∷ b' ' ∷ []

-- `test_expr`: the result is 1 for an expression that is true.
unfoldable pub test_expr : Tally → Bool → List ℕ → ℕ × Tally
test_expr t expr desc =
    let counted : Tally =
      if expr
      then record t {
        output = (printf_colored t.output c_bright_green passed_label).1;
        test_passed = (t.test_passed + 1) % 2 ^ 32;
      }
      else record t {
        output = (printf_colored t.output c_bright_red failed_label).1;
        test_failed = (t.test_failed + 1) % 2 ^ 32;
      } in
    (flag expr, record counted { output = counted.output ++ text desc ∷ text (b'\n' ∷ []) ∷ [] })

-- `test_count_passed`, `test_count_failed`, `test_count`
unfoldable pub test_count_passed : Tally → ℕ
test_count_passed t = t.test_passed

unfoldable pub test_count_failed : Tally → ℕ
test_count_failed t = t.test_failed

unfoldable pub test_count : Tally → ℕ
test_count t = (t.test_passed + t.test_failed) % 2 ^ 32

-- `test_summary`, with its title.
unfoldable pub test_summary : Tally → List ℕ → Tally
test_summary t title = record t {
  output =
      (printf_colored t.output c_bright_blue title).1
      ++ totals ((t.test_passed + t.test_failed) % 2 ^ 32) t.test_passed t.test_failed ∷ [];
}

-- A sequence of tests.
unfoldable pub test_all : Tally → List (Bool × List ℕ) → Tally
test_all t [] = t
test_all t ((expr, desc) ∷ tests) = test_all (test_expr t expr desc).1 tests

abbrev pub passing : List (Bool × List ℕ) → ℕ
passing [] = 0
passing ((true, desc) ∷ tests) = suc (passing tests)
passing ((false, desc) ∷ tests) = passing tests

-- After any sequence of tests, the tests that
-- passed and the tests in total have been counted, modulo 2 ^ 32.
pub test_all-counts :
    (t : Tally) (tests : List (Bool × List ℕ))
    → (test_count_passed (test_all t tests) % 2 ^ 32 ≡ (t.test_passed + passing tests) % 2 ^ 32)
      × (test_count (test_all t tests) ≡ (t.test_passed + t.test_failed + length tests) % 2 ^ 32)
unfolding test_all test_expr test_count test_count_passed
test_all-counts t [] = (omega arith, omega arith)
test_all-counts t ((true, desc) ∷ tests) =
    let (passed, total) = test_all-counts (test_expr t true desc).1 tests in
    (omega (arith, passed), omega (arith, total))
test_all-counts t ((false, desc) ∷ tests) =
    let (passed, total) = test_all-counts (test_expr t false desc).1 tests in
    (omega (arith, passed), omega (arith, total))
