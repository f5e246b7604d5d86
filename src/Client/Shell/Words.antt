-- ===== src/Client/Shell/Words.antt =====
-- The words of a line and the array that the shell has for them.
use ammc.Base.{
  ℕ, zero, suc, ◌+◌, ◌*◌, ◌≤◌, ◌≡◌, refl, ap, List, [], ◌∷◌, ◌++◌, length, inl, inr, Bool-cases,
  if◌then◌else◌, arith, some, none, ltb, ◌==◌,
}
use ammc.Client.Shell.{words, tokenize_line, is_delimiter, is_nil, shell_line_max_len, argv_len}

pub words-le :
    (word cs : List ℕ) → 2 * length (words word cs) ≤ length cs + 1 + (if is_nil word then 0 else 1)
unfolding words
words-le [] [] = omega arith
words-le (x ∷ word) [] = omega arith
words-le [] (c ∷ cs) = elim (Bool-cases (c == 0)) [
  | inl z ↦ rw z (omega arith)
  | inr z ↦ elim (Bool-cases (is_delimiter c)) [
    | inl e ↦ rw (z, e) (omega (arith, words-le [] cs))
    | inr e ↦ rw (z, e) (omega (arith, words-le (c ∷ []) cs))
  ]
]
words-le (x ∷ word) (c ∷ cs) = elim (Bool-cases (c == 0)) [
  | inl z ↦ rw z (omega arith)
  | inr z ↦ elim (Bool-cases (is_delimiter c)) [
    | inl e ↦ rw (z, e) (omega (arith, words-le [] cs))
    | inr e ↦ rw (z, e) (omega (arith, words-le (x ∷ (word ++ c ∷ [])) cs))
  ]
]

-- A line of at most 2046 characters is cut into words that fit into `argv` with the null pointer
-- behind them, which has half as many places as that and one more.
pub tokenize_line_fits :
    (line : List ℕ) → length line ≤ shell_line_max_len → tokenize_line line ≡ some (words [] line)
unfolding tokenize_line
tokenize_line_fits line short = ground (arith, words-le [] line)

-- Words of one letter, with a blank between them.
unfoldable pub letters : ℕ → List ℕ
letters zero = []
letters (suc zero) = b'x' ∷ []
letters (suc (suc n)) = b'x' ∷ b' ' ∷ letters (suc n)

pub length-letters : (n : ℕ) → length (letters (suc n)) ≡ 2 * n + 1
unfolding letters
length-letters zero = refl
length-letters (suc n) = omega (arith, length-letters n)

pub words-letters : (n : ℕ) → length (words [] (letters n)) ≡ n
unfolding letters words
words-letters zero = refl
words-letters (suc zero) = refl
words-letters (suc (suc n)) = ap suc (words-letters (suc n))

-- The bound is exact: `n` words of one letter are cut into an array of that size when `n` is at most
-- 1023, and written past it otherwise.
pub tokenize_line-letters :
    (n : ℕ)
    → tokenize_line (letters n) ≡ (if ltb n argv_len then some (words [] (letters n)) else none)
unfolding tokenize_line
tokenize_line-letters n = rw (words-letters n) refl
