-- ===== src/Client/Serial/Loops.antt =====
-- The loops over short reads and writes move the bytes in order.
use ammc.Base.{
  ltb, some, sym, false, ℕ, zero, suc, ◌+◌, ◌-◌, ◌≤◌, ◌≡◌, ◌∙◌, refl, ap, ap₂, min, true, List, [],
  ◌∷◌, ◌++◌, append_assoc, append-nil, length, length-append, length-take, length-drop, take, drop,
  leb, inl, inr, Bool-cases, arith,
}
use ammc.Client.Comm.{Line, Comm, done, serial_rx}
use ammc.Client.Serial.{tx_loop, tx, rx, Call, takes, moved, rx_loop}

-- Calls that take at most so many bytes each, and what they take at most in all.
unfoldable pub taking : List ℕ → List Call
taking [] = []
taking (k ∷ ks) = takes k ∷ taking ks

unfoldable pub total : List ℕ → ℕ
total [] = 0
total (k ∷ ks) = k + total ks

take-nil : (n : ℕ) → take {A = ℕ} n [] ≡ []
take-nil zero = refl
take-nil (suc n) = refl

drop-nil : (n : ℕ) → drop {A = ℕ} n [] ≡ []
drop-nil zero = refl
drop-nil (suc n) = refl

take-split : (m p : ℕ) (xs : List ℕ) → m ≤ p → take m xs ++ take (p - m) (drop m xs) ≡ take p xs
take-split zero p xs le = ap (λ n. take n xs) (omega arith)
take-split (suc m) zero xs le = absurd (omega arith)
take-split (suc m) (suc p) [] le = take-nil (suc p - suc m)
take-split (suc m) (suc p) (x ∷ xs) le =
    ap (λ n. x ∷ (take m xs ++ take n (drop m xs))) (omega arith)
    ∙ ap (λ t. x ∷ t) (take-split m p xs (omega arith))

drop-split : (m p : ℕ) (xs : List ℕ) → m ≤ p → drop (p - m) (drop m xs) ≡ drop p xs
drop-split zero p xs le = ap (λ n. drop n xs) (omega arith)
drop-split (suc m) zero xs le = absurd (omega arith)
drop-split (suc m) (suc p) [] le = drop-nil (suc p - suc m)
drop-split (suc m) (suc p) (x ∷ xs) le =
    ap (λ n. drop n (drop m xs)) (omega arith) ∙ drop-split m p xs (omega arith)

-- The loop has moved all bytes.
rx_loop_end :
    (size : ℕ) (dest input : List ℕ)
    → size ≤ length dest
    → moved dest input
      ≡ moved (dest ++ take (size - length dest) input) (drop (size - length dest) input)
rx_loop_end size dest input all =
    let zero_left : size - length dest ≡ 0 = omega arith in rw (zero_left, append-nil dest) refl

rx_loop_lem :
    (ks : List ℕ) (size : ℕ) (dest input : List ℕ)
    → size ≤ length dest + total ks
    → size ≤ length dest + length input
    → rx_loop (taking ks) size dest input
      ≡ moved (dest ++ take (size - length dest) input) (drop (size - length dest) input)
unfolding rx_loop total taking
rx_loop_lem [] size dest input enough there =
    let all : leb size (length dest) ≡ true = ground arith in
    rw all (rx_loop_end size dest input (omega arith))
rx_loop_lem (k ∷ ks) size dest input enough there = elim (Bool-cases (leb size (length dest))) [
  | inl all ↦ rw all (rx_loop_end size dest input (ground arith))
  | inr less ↦
      let room = size - length dest in
      let n = min k room in
      let got : length (dest ++ take n input) ≡ length dest + n =
        omega (arith, length-append {0} dest (take n input), length-take {0} n input) in
      let rest : size - length (dest ++ take n input) ≡ room - n = omega (arith, got) in
      rw less (
        rx_loop_lem ks size (dest ++ take n input) (drop n input) (ground (arith, got))
          (omega (arith, got, length-drop {0} n input))
        ∙ rw rest (
            ap₂ moved
              (append_assoc dest (take n input) (take (room - n) (drop n input))
                ∙ ap (λ t. dest ++ t) (take-split n room input (omega arith)))
              (drop-split n room input (omega arith))))
]

take-drop : (k : ℕ) (xs : List ℕ) → take k xs ++ drop k xs ≡ xs
take-drop zero xs = refl
take-drop (suc k) [] = refl
take-drop (suc k) (x ∷ xs) = ap (λ t. x ∷ t) (take-drop k xs)

tx_loop_lem :
    (ks sent buf : List ℕ)
    → length buf ≤ total ks
    → tx_loop (taking ks) sent buf ≡ moved (sent ++ buf) []
unfolding tx_loop total taking
tx_loop_lem [] sent [] enough = ap (λ t. moved t []) (sym (append-nil sent))
tx_loop_lem [] sent (b ∷ bs) enough = absurd (omega arith)
tx_loop_lem (k ∷ ks) sent [] enough = ap (λ t. moved t []) (sym (append-nil sent))
tx_loop_lem (k ∷ ks) sent (b ∷ bs) enough =
    tx_loop_lem ks (sent ++ take k (b ∷ bs)) (drop k (b ∷ bs))
      (omega (arith, length-drop {0} k (b ∷ bs)))
    ∙ ap (λ t. moved t [])
        (append_assoc sent (take k (b ∷ bs)) (drop k (b ∷ bs))
          ∙ ap (λ t. sent ++ t) (take-drop k (b ∷ bs)))

-- However few bytes each call of `read` takes, if none fails, if together they may take as many as
-- asked for, and if as many come in: `serial_rx` on a terminal returns the size, and has read and
-- left the same bytes as the communication module's view of it.
pub serial_rx_refines :
    (line : Line) (c : Comm line.World) (ks : List ℕ) (n : ℕ)
    → c.tty ≡ true
    → n ≤ total ks
    → n ≤ length c.input
    → (bytes left : List ℕ) × (rx c.tty (taking ks) n c.input ≡ some (some n, bytes, left))
      × (serial_rx line c n ≡ done (bytes, record c { input = left }))
      × (bytes ++ left ≡ c.input)
unfolding rx serial_rx
serial_rx_refines line c ks n terminal enough there =
    let few : ltb (length c.input) n ≡ false = ground arith in
    let whole : n - 0 ≡ n = omega arith in
    (
      take n c.input,
      drop n c.input,
      rw (terminal, rx_loop_lem ks n [] c.input (omega arith) (omega arith), whole) refl,
      rw (terminal, few) refl,
      take-drop n c.input,
    )

-- In the same way `serial_tx` writes the bytes it was given, all and in order.
pub tx-taking :
    (ks buf : List ℕ) (size : ℕ)
    → size ≤ total ks
    → tx true (taking ks) buf size ≡ some (some size, take size buf)
unfolding tx
tx-taking ks buf size enough =
    rw (tx_loop_lem ks [] (take size buf) (omega (arith, length-take {0} size buf))) refl
