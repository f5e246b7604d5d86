-- ===== src/Master/Serial/Receive.antt =====
-- `serial_rx` gives the received bytes in order.
use ammc.Base.{
  ℕ, zero, suc, ◌+◌, ◌-◌, ◌≤◌, ◌<◌, ◌≡◌, ◌⊎◌, inl, inr, refl, sym, ap, ◌∙◌, some, List, [], ◌∷◌,
  ◌++◌, append_assoc, append-nil, length, length-append, take, drop, List-cases, arith,
}
use ammc.Master.Ring
use ammc.Master.Ring.{Ring}
use ammc.Master.Ring.Valid.{IsValid, push-IsValid, pop-IsValid}
use ammc.Master.Ring.Refine.{contents}
use ammc.Master.Ring.Rules.{
  is_full-room, contents-push_room, size-push, size-pop, is_empty-cons, is_empty-nil, pop-cons,
}
use ammc.Master.Serial.{Serial, rx_interrupt, arrive, rx}

-- The bytes of all rounds.
abbrev pub joined : List (List ℕ) → List ℕ
joined [] = []
joined (bs ∷ rounds) = bs ++ joined rounds

abbrev pub received : Serial → List ℕ
received s = contents s.rx_buffer

-- The receive interrupt keeps the byte if there is room.
interrupt-received :
    (s : Serial) (b : ℕ)
    → IsValid s.rx_buffer
    → length (received s) < s.rx_buffer.size
    → IsValid (rx_interrupt s b).rx_buffer
      × (received (rx_interrupt s b) ≡ received s ++ b ∷ [])
      × ((rx_interrupt s b).rx_buffer.size ≡ s.rx_buffer.size)
unfolding rx_interrupt
interrupt-received s b v h =
    rw (is_full-room s.rx_buffer v h)
      (push-IsValid s.rx_buffer b v, contents-push_room s.rx_buffer b v h, size-push s.rx_buffer b)

-- So with room for all of them the bytes that arrive are kept, in order.
pub arrive-received :
    (s : Serial) (bs : List ℕ)
    → IsValid s.rx_buffer
    → length (received s) + length bs ≤ s.rx_buffer.size
    → IsValid (arrive s bs).rx_buffer
      × (received (arrive s bs) ≡ received s ++ bs)
      × ((arrive s bs).rx_buffer.size ≡ s.rx_buffer.size)
unfolding arrive
arrive-received s [] v h = (v, sym (append-nil (received s)), refl)
arrive-received s (b ∷ bs) v h =
    let (v', shown, size) = interrupt-received s b v (omega arith) in
    let (v'', shown', size') =
      arrive-received (rx_interrupt s b) bs v'
        (omega (arith, ap length shown, length-append {0} (received s) (b ∷ []))) in
    (v'', shown' ∙ ap (λ t. t ++ bs) shown ∙ append_assoc (received s) (b ∷ []) bs, size' ∙ size)

pred-suc : (j : ℕ) → suc j - 1 ≡ j
pred-suc j = omega arith

supply :
    (j : ℕ) (c : ℕ) (bs : List ℕ) (rounds : List (List ℕ))
    → c + length (joined (take j (bs ∷ rounds)))
      ≤ c + length bs + length (joined (take (j - 1) rounds))
supply zero c bs rounds = omega arith
supply (suc j) c bs rounds = omega (
  arith,
  length-append {0} bs (joined (take j rounds)),
  ap (λ k. length (joined (take k rounds))) (pred-suc j),
)

supply_none : (j : ℕ) (rounds : List (List ℕ)) → (1 ≤ j) ⊎ (length (joined (take j rounds)) ≡ 0)
supply_none zero rounds = inr refl
supply_none (suc j) rounds = inl (omega arith)

-- `serial_rx` of `n` bytes returns with the next `n` bytes, in order, and leaves the others, in order.
abbrev pub Reads : List (List ℕ) → Serial → ℕ → Type 0
Reads rounds s n =
    (s' : Serial) × (rest : List (List ℕ)) × (rx rounds s n
      ≡ some (take n (received s ++ joined rounds), s', rest))
    × (received s' ++ joined rest ≡ drop n (received s ++ joined rounds))
    × IsValid s'.rx_buffer

abbrev popped : Serial → Serial
popped s = record s { rx_buffer = (Ring.pop s.rx_buffer).2 }

-- What holds behind the arrivals of a round.
record Arrived (bs : List ℕ) (rounds : List (List ℕ)) (s : Serial) : Type 0 where
  valid : IsValid (arrive s bs).rx_buffer
  all : received s ++ (bs ++ joined rounds) ≡ received (arrive s bs) ++ joined rounds
  count : length (received (arrive s bs)) ≡ length (received s) + length bs
  room : length (received (arrive s bs)) + length (joined rounds) ≤ (arrive s bs).rx_buffer.size

arrived :
    (bs : List ℕ) (rounds : List (List ℕ)) (s : Serial)
    → IsValid s.rx_buffer
    → length (received s) + length (joined (bs ∷ rounds)) ≤ s.rx_buffer.size
    → Arrived bs rounds s
arrived bs rounds s v h =
    let total = length-append {0} bs (joined rounds) in
    let (valid, shown, size) = arrive-received s bs v (omega (arith, total)) in
    let count : length (received (arrive s bs)) ≡ length (received s) + length bs =
      ap length shown ∙ length-append (received s) bs in
    record {
      valid = valid;
      all =
          sym (append_assoc (received s) bs (joined rounds))
          ∙ ap (λ t. t ++ joined rounds) (sym shown);
      count = count;
      room = omega (arith, total, count, size);
    }

round_waits :
    (bs : List ℕ) (rounds : List (List ℕ)) (s : Serial) (n : ℕ)
    → Arrived bs rounds s
    → received (arrive s bs) ≡ []
    → Reads rounds (arrive s bs) (suc n)
    → Reads (bs ∷ rounds) s (suc n)
unfolding rx
round_waits bs rounds s n a e (s', rest, run, left, v) = (
  s',
  rest,
  rw (is_empty-nil (arrive s bs).rx_buffer a.valid e)
      (run ∙ ap (λ t. some (take (suc n) t, s', rest)) (sym a.all)),
  left ∙ ap (drop (suc n)) (sym a.all),
  v,
)

round_takes :
    (bs : List ℕ) (rounds : List (List ℕ)) (s : Serial) (n x : ℕ) (q : List ℕ)
    → Arrived bs rounds s
    → received (arrive s bs) ≡ x ∷ q
    → Reads rounds (popped (arrive s bs)) n
    → Reads (bs ∷ rounds) s (suc n)
unfolding rx
round_takes bs rounds s n x q a e (s', rest, run, left, v) =
    let (byte, tail) = pop-cons (arrive s bs).rx_buffer x q a.valid e in
    let all : received s ++ (bs ++ joined rounds)
        ≡ x ∷ (received (popped (arrive s bs)) ++ joined rounds) =
      a.all ∙ ap (λ t. t ++ joined rounds) (e ∙ ap (λ t. x ∷ t) (sym tail)) in
    (
      s',
      rest,
      rw (is_empty-cons (arrive s bs).rx_buffer x q a.valid e, byte, run)
          (ap (λ t. some (take (suc n) t, s', rest)) (sym all)),
      left ∙ ap (drop (suc n)) (sym all),
      v,
    )

-- For a valid receive buffer that has room for all bytes that arrive: if the bytes received in the
-- first `j` rounds of the schedule, with those already there, suffice for a call of `serial_rx` for
-- `n` bytes, and the schedule has `j + n` rounds, the call returns within it; it gives the next `n`
-- received bytes, in order, and leaves the others, in order, in a valid buffer.
pub rx_lem :
    (rounds : List (List ℕ)) (s : Serial) (j n : ℕ)
    → IsValid s.rx_buffer
    → length (received s) + length (joined rounds) ≤ s.rx_buffer.size
    → n ≤ length (received s) + length (joined (take j rounds))
    → j + n ≤ length rounds
    → Reads rounds s n
rx_lem rounds s j zero v room enough time = (s, rounds, unfold rx in refl, refl, v)
rx_lem [] s j (suc n) v room enough time = absurd (omega arith)
rx_lem (bs ∷ rounds) s j (suc n) v room enough time =
    let a = arrived bs rounds s v room in
    let more = supply j (length (received s)) bs rounds in
    elim (List-cases (received (arrive s bs))) [
      | inl e ↦ round_waits bs rounds s n a e (
          rx_lem rounds (arrive s bs) (j - 1) (suc n) a.valid a.room (omega (arith, more, a.count))
            (omega (arith, a.count, ap length e, supply_none j (bs ∷ rounds))))
      | inr (x, q, e) ↦
          let tail = (pop-cons (arrive s bs).rx_buffer x q a.valid e).1 in
          round_takes bs rounds s n x q a e (
            rx_lem rounds (popped (arrive s bs)) (j - 1) n
              (pop-IsValid (arrive s bs).rx_buffer a.valid)
              (omega (arith, a.room, ap length e, ap length tail, size-pop (arrive s bs).rx_buffer))
              (omega (arith, more, a.count, ap length e, ap length tail)) (omega arith))
    ]
