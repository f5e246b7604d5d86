-- ===== src/Client/EchoString/Fits.antt =====
-- The words of the echo command are joined within their array, or refused.
use ammc.Base.{
  ℕ, ◌⊎◌, ◌+◌, ◌≤◌, ◌<◌, ◌≡◌, refl, sym, ap, ◌∙◌, some, List, [], ◌∷◌, ◌++◌, append_assoc, length,
  length-append, length-drop, take, drop, overlay-append-drop, take-append, drop-append, leb, ltb,
  ◌==◌, ==_iff, ==_ne, inl, inr, Bool-cases, if◌then◌else◌, true, false, arith,
}
use ammc.Client.EchoString.{store, separate, copy_words, prepare_echo_string}

-- Words behind a text, each with a blank before it unless it comes first.
unfoldable pub join : List ℕ → List (List ℕ) → List ℕ
join text [] = text
join [] (word ∷ words) = join word words
join (c ∷ text) (word ∷ words) = join ((c ∷ text) ++ b' ' ∷ word) words

length-join : (text : List ℕ) (words : List (List ℕ)) → length text ≤ length (join text words)
unfolding join
length-join text [] = omega arith
length-join [] (word ∷ words) = omega arith
length-join (c ∷ text) (word ∷ words) = omega (
  arith,
  length-join ((c ∷ text) ++ b' ' ∷ word) words,
  length-append {0} (c ∷ text) (b' ' ∷ word),
)

-- What an array that starts with a text holds after bytes were stored behind it.
store-behind :
    (text left bytes : List ℕ)
    → length bytes ≤ length left
    → store (text ++ left) (length text) bytes ≡ some (text ++ (bytes ++ drop (length bytes) left))
unfolding store
store-behind text left bytes fits =
    rw (room, take-append text left, drop-append text left, overlay-append-drop left bytes fits)
      refl
  where
    room : ltb (length (text ++ left)) (length text + length bytes) ≡ false
    room = ground (arith, length-append {0} text left)

-- A word and its null character, stored behind a text.
store-word :
    (text left word dest : List ℕ) (n : ℕ)
    → dest ≡ text ++ left
    → n ≡ length text
    → length word < length left
    → store dest n (word ++ 0 ∷ []) ≡ some ((text ++ word) ++ 0 ∷ drop (length word + 1) left)
store-word text left word dest n e idx fits =
    ap (λ d. store d n (word ++ 0 ∷ [])) e
    ∙ ap (λ k. store (text ++ left) k (word ++ 0 ∷ [])) idx
    ∙ store-behind text left (word ++ 0 ∷ []) (omega (arith, length-append {0} word (0 ∷ [])))
    ∙ ap some (
        ap (λ t. text ++ t) (append_assoc word (0 ∷ []) _)
        ∙ sym (append_assoc text word (0 ∷ drop (length (word ++ 0 ∷ [])) left))
        ∙ ap (λ k. (text ++ word) ++ 0 ∷ drop k left) (length-append word (0 ∷ [])))

-- The joined text is refused if it is longer than 30, and otherwise lies at the array's start.
abbrev pub IsJoined : List ℕ → List ℕ → ℕ → Type 0
IsJoined text dest code =
    (length dest ≡ 31)
    × (((30 < length text) × (code ≡ 0xff))
        ⊎ ((length text ≤ 30) × (code ≡ length text) × (take (length text) dest ≡ text)))

abbrev Copies : List ℕ → List (List ℕ) → List ℕ → ℕ → Type 0
Copies text words dest n =
    (dest' : List ℕ) × (code : ℕ) × (copy_words words dest n ≡ some (dest', code))
    × IsJoined (join text words) dest' code

Copies-end :
    (text left dest : List ℕ) (n : ℕ)
    → dest ≡ text ++ left
    → n ≡ length text
    → length text + length left ≡ 31
    → length text ≤ 30
    → Copies text [] dest n
unfolding copy_words join
Copies-end text left dest n e idx room short = (
  text ++ 0 ∷ drop 1 left,
  length text,
  rw (stored, copy_words) (ap (λ k. some (text ++ 0 ∷ drop 1 left, k)) (omega (arith, idx))),
  (
    omega (arith, length-append {0} text (0 ∷ drop 1 left), length-drop {0} 1 left),
    inr (short, refl, take-append text (0 ∷ drop 1 left)),
  ),
)
  where
    stored : store dest n (0 ∷ []) ≡ some (text ++ 0 ∷ drop 1 left)
    stored =
        ap (λ d. store d n (0 ∷ [])) e
        ∙ ap (λ k. store (text ++ left) k (0 ∷ [])) idx
        ∙ store-behind text left (0 ∷ []) (omega arith)

-- A word for which there is no room.
Copies-refused :
    (text word dest : List ℕ) (words : List (List ℕ)) (n : ℕ)
    → length dest ≡ 31
    → 30 < length (join text (word ∷ words))
    → leb 31 ((if n == 0 then 0 else n + 1) + length word) ≡ true
    → Copies text (word ∷ words) dest n
unfolding copy_words
Copies-refused text word dest words n size long refused =
    (dest, 0xff, rw (refused, copy_words) refl, (size, inl (long, refl)))

-- A word that is copied: what is left to do starts behind it.
Copies-word :
    (text text' word dest dest' dest'' : List ℕ) (words : List (List ℕ)) (n len : ℕ)
    → leb 31 ((if n == 0 then 0 else n + 1) + length word) ≡ false
    → separate dest n ≡ some (dest', len)
    → store dest' len (word ++ 0 ∷ []) ≡ some dest''
    → join text (word ∷ words) ≡ join text' words
    → Copies text' words dest'' (len + length word)
    → Copies text (word ∷ words) dest n
unfolding copy_words
Copies-word text text' word dest dest' dest'' words n len fits sep stored same
      (d, code, run, joined) =
    (
      d,
      code,
      rw (fits, copy_words) (rw (sep, copy_words) (rw (stored, copy_words) run)),
      rw same joined,
    )

separate-behind :
    (c : ℕ) (text left dest : List ℕ) (n : ℕ)
    → dest ≡ (c ∷ text) ++ left
    → n ≡ length (c ∷ text)
    → 0 < length left
    → separate dest n ≡ some ((c ∷ text) ++ b' ' ∷ drop 1 left, n + 1)
unfolding separate
separate-behind c text left dest n e idx some_left = rw (positive, stored, separate) refl
  where
    positive : (n == 0) ≡ false
    positive = (==_ne n 0).1 (omega (arith, idx))

    stored : store dest n (b' ' ∷ []) ≡ some ((c ∷ text) ++ b' ' ∷ drop 1 left)
    stored =
        ap (λ d. store d n (b' ' ∷ [])) e
        ∙ ap (λ k. store ((c ∷ text) ++ left) k (b' ' ∷ [])) idx
        ∙ store-behind (c ∷ text) left (b' ' ∷ []) (omega arith)

copies :
    (words : List (List ℕ)) (text left dest : List ℕ) (n : ℕ)
    → dest ≡ text ++ left
    → n ≡ length text
    → length text + length left ≡ 31
    → length text ≤ 30
    → Copies text words dest n
unfolding join separate
copies [] text left dest n e idx room short = Copies-end text left dest n e idx room short
copies (word ∷ words) [] left dest n e idx room short =
    elim (Bool-cases (leb 31 (0 + length word))) [
      | inl long ↦
          Copies-refused [] word dest words n (omega (arith, ap length e))
            (ground (arith, length-join word words)) (rw first long)
      | inr fits ↦
          Copies-word [] word word dest dest (word ++ 0 ∷ drop (length word + 1) left) words n 0
            (rw first fits) (rw ((==_iff n 0).1 idx, separate) refl)
            (store-word [] left word dest 0 e refl (ground arith)) refl
            (copies words word (0 ∷ drop (length word + 1) left) _ (0 + length word) refl
              (omega arith) (ground (arith, length-drop {0} (length word + 1) left)) (ground arith))
    ]
  where
    first : (if n == 0 then 0 else n + 1) + length word ≡ 0 + length word
    first = rw ((==_iff n 0).1 idx) refl
copies (word ∷ words) (c ∷ text) left dest n e idx room short =
    elim (Bool-cases (leb 31 (n + 1 + length word))) [
      | inl long ↦
          Copies-refused (c ∷ text) word dest words n
            (omega (arith, ap length e, length-append {0} (c ∷ text) left))
            (ground (
              arith,
              idx,
              length-join ((c ∷ text) ++ b' ' ∷ word) words,
              length-append {0} (c ∷ text) (b' ' ∷ word),
            ))
            (rw behind long)
      | inr fits ↦
          Copies-word (c ∷ text) ((c ∷ text) ++ b' ' ∷ word) word dest
            ((c ∷ text) ++ b' ' ∷ drop 1 left)
            ((((c ∷ text) ++ b' ' ∷ []) ++ word) ++ 0 ∷ drop (length word + 1) (drop 1 left)) words
            n (n + 1) (rw behind fits) (separate-behind c text left dest n e idx (ground arith))
            (store-word ((c ∷ text) ++ b' ' ∷ []) (drop 1 left) word _ (n + 1)
              (sym (append_assoc (c ∷ text) (b' ' ∷ []) (drop 1 left)))
              (omega (arith, idx, length-append {0} (c ∷ text) (b' ' ∷ [])))
              (ground (arith, idx, length-drop {0} 1 left)))
            refl
            (copies words ((c ∷ text) ++ b' ' ∷ word) (0 ∷ drop (length word + 1) (drop 1 left)) _
              (n + 1 + length word)
              (ap (λ t. t ++ 0 ∷ drop (length word + 1) (drop 1 left))
                (append_assoc (c ∷ text) (b' ' ∷ []) word))
              (omega (arith, idx, length-append {0} (c ∷ text) (b' ' ∷ word)))
              (ground (
                arith,
                idx,
                length-append {0} (c ∷ text) (b' ' ∷ word),
                length-drop {0} (length word + 1) (drop 1 left),
                length-drop {0} 1 left,
              ))
              (ground (arith, idx, length-append {0} (c ∷ text) (b' ' ∷ word))))
    ]
  where
    behind : (if n == 0 then 0 else n + 1) + length word ≡ n + 1 + length word
    behind = rw ((==_ne n 0).1 (omega arith)) refl

-- Whatever the words of the command are, `_prepare_echo_string` stays in its array of 31 bytes. If
-- the words from the second one on, with a blank between them, are at most 30 characters, they lie
-- at the array's start and their number is returned; otherwise 255 is returned.
pub prepare_echo_string-IsJoined :
    (dest : List ℕ) (argv : List (List ℕ))
    → length dest ≡ 31
    → (dest' : List ℕ) × (code : ℕ) × (prepare_echo_string dest argv ≡ some (dest', code))
      × IsJoined (join [] (drop 1 argv)) dest' code
unfolding prepare_echo_string
prepare_echo_string-IsJoined dest argv size =
    copies (drop 1 argv) [] dest dest 0 refl refl (omega (arith, size)) (omega arith)
