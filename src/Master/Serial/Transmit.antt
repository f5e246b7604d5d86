-- ===== src/Master/Serial/Transmit.antt =====
-- Bytes given to `serial_tx` go out in order, one for each transmit interrupt.
use ammc.Base.{
  ℕ, zero, suc, ◌+◌, ◌-◌, ◌≤◌, ◌<◌, ◌≡◌, ◌≢◌, ◌⊎◌, inl, inr, refl, sym, ap, ◌∙◌, true, false, ◌||◌,
  some, List, [], ◌∷◌, ◌++◌, append-nil, append_assoc, length, take, drop, get_or, overlay,
  overlay-append-drop, length-overlay, length-take, take-append, ltb, ◌==◌, ==_iff, ==_ne,
  Bool-cases, if◌then◌else◌, u8, arith,
}
use native.Mathlib.Decide.{dec_lt, ℕ_discrete}
use ammc.Port
use ammc.Port.{Port}
use ammc.Master.Serial.{Serial, tx_reset, tx_interrupt, tx_wait, tx_start, tx}

-- Either nothing is under way, or the byte at `tx_transmitted` is, with the interrupt enabled that
-- comes when it has gone out.
pub record IsSending (s : Serial) : Type 0 where
  pub room : length s.tx_buffer ≡ 32
  pub state :
      (s.tx_ongoing ≡ 0)
      ⊎ ((s.tx_ongoing ≡ 1) × (s.tx_transmitted < s.tx_to_transmit) × (s.tx_to_transmit ≤ 32))
  pub on : s.tx_ongoing ≢ 0 → s.tx_enabled ≡ true

-- The bytes that a transmission under way has still to write to UDR0.
abbrev pub pending : Serial → List ℕ
pending s =
    if s.tx_ongoing == 0
    then []
    else drop (suc s.tx_transmitted) (take s.tx_to_transmit s.tx_buffer)

-- All that has been sent, or will be with no further call.
abbrev pub outgoing : Serial → List ℕ
outgoing s = s.sent ++ pending s

abbrev rounds_left : Serial → ℕ
rounds_left s = if s.tx_ongoing == 0 then 0 else s.tx_to_transmit - s.tx_transmitted

drop-take :
    (n m : ℕ) (xs : List ℕ)
    → n < m
    → m ≤ length xs
    → drop n (take m xs) ≡ get_or xs n 0 ∷ drop (suc n) (take m xs)
drop-take n zero xs p q = absurd (omega arith)
drop-take n (suc m) [] p q = absurd (omega arith)
drop-take zero (suc m) (x ∷ xs) p q = refl
drop-take (suc n) (suc m) (x ∷ xs) p q = drop-take n m xs (omega arith) (omega arith)

drop-take_past : (n m : ℕ) (xs : List ℕ) → m ≤ n → drop n (take m xs) ≡ []
drop-take_past zero zero xs p = refl
drop-take_past zero (suc m) xs p = absurd (omega arith)
drop-take_past (suc n) zero xs p = refl
drop-take_past (suc n) (suc m) [] p = refl
drop-take_past (suc n) (suc m) (x ∷ xs) p = drop-take_past n m xs (omega arith)

pending_busy :
    (s : Serial)
    → s.tx_ongoing ≢ 0
    → pending s ≡ drop (suc s.tx_transmitted) (take s.tx_to_transmit s.tx_buffer)
pending_busy s busy = rw ((==_ne s.tx_ongoing 0).1 busy) refl

pending_idle : (s : Serial) → s.tx_ongoing ≡ 0 → pending s ≡ []
pending_idle s idle = rw ((==_iff s.tx_ongoing 0).1 idle) refl

interrupt_next :
    (s : Serial)
    → IsSending s
    → s.tx_ongoing ≢ 0
    → suc s.tx_transmitted < s.tx_to_transmit
    → tx_interrupt s ≡ record s {
      tx_transmitted = suc s.tx_transmitted;
      sent = s.sent ++ get_or s.tx_buffer (suc s.tx_transmitted) 0 ∷ [];
    }
unfolding tx_interrupt
interrupt_next s v busy h =
    let e : u8 (s.tx_transmitted + 1) ≡ suc s.tx_transmitted = omega arith in rw e (ground arith)

interrupt_last :
    (s : Serial)
    → IsSending s
    → s.tx_ongoing ≢ 0
    → ¬ (suc s.tx_transmitted < s.tx_to_transmit)
    → tx_interrupt s
      ≡ record s { tx_enabled = false; tx_to_transmit = 0; tx_transmitted = 0; tx_ongoing = 0 }
unfolding tx_interrupt tx_reset
interrupt_last s v busy h =
    let e : u8 (s.tx_transmitted + 1) ≡ suc s.tx_transmitted = omega arith in rw e (ground arith)

-- An interrupt sends the next pending byte, or ends the transmission.
pub interrupt_step :
    (s : Serial)
    → IsSending s
    → s.tx_ongoing ≢ 0
    → IsSending (tx_interrupt s)
      × (outgoing (tx_interrupt s) ≡ outgoing s)
      × (suc (rounds_left (tx_interrupt s)) ≡ rounds_left s)
interrupt_step s v busy = elim (dec_lt (suc s.tx_transmitted) s.tx_to_transmit) [
  | yes h ↦
      rw (interrupt_next s v busy h)
        (record { room = omega arith; state = omega arith; on = v.on }, next h, ground arith)
  | no h ↦ rw (interrupt_last s v busy h) (
    record { room = omega arith; state = omega arith; on = λ other. absurd (other refl) },
    last h,
    ground arith,
  )
]
  where
    t : ℕ
    t = suc s.tx_transmitted

    next :
        t < s.tx_to_transmit
        → (s.sent ++ get_or s.tx_buffer t 0 ∷ [])
            ++ pending
                (record s { tx_transmitted = t; sent = s.sent ++ get_or s.tx_buffer t 0 ∷ [] })
          ≡ outgoing s
    next h =
        rw
          (
            pending_busy s busy,
            (==_ne s.tx_ongoing 0).1 busy,
            drop-take t s.tx_to_transmit s.tx_buffer h (omega arith),
            append_assoc,
          )
          refl

    last : ¬ (t < s.tx_to_transmit) → (s.sent ++ [] ≡ outgoing s)
    last h =
        ap (λ q. s.sent ++ q)
          (sym (pending_busy s busy ∙ drop-take_past t s.tx_to_transmit s.tx_buffer (omega arith)))

sent_idle : (s : Serial) → s.tx_ongoing ≡ 0 → s.sent ≡ outgoing s
sent_idle s idle = sym (ap (λ q. s.sent ++ q) (pending_idle s idle) ∙ append-nil s.sent)

tx_wait_step :
    (fuel : ℕ) (s : Serial)
    → IsSending s
    → s.tx_ongoing ≢ 0
    → tx_wait (suc fuel) s ≡ tx_wait fuel (tx_interrupt s)
unfolding tx_wait
tx_wait_step fuel s v busy =
    rw ((==_ne s.tx_ongoing 0).1 busy)
      (ap (λ on. tx_wait fuel (if on then tx_interrupt s else s)) (v.on busy))

-- The wait ends after as many interrupts as there are bytes left, and then all have been sent.
pub tx_wait_lem :
    (fuel : ℕ) (s : Serial)
    → IsSending s
    → rounds_left s ≤ fuel
    → (s' : Serial) × (tx_wait fuel s ≡ some s')
      × IsSending s'
      × (s'.tx_ongoing ≡ 0)
      × (s'.sent ≡ outgoing s)
unfolding tx_wait
tx_wait_lem zero s v h = elim (ℕ_discrete s.tx_ongoing 0) [
  | yes idle ↦ (s, rw ((==_iff s.tx_ongoing 0).1 idle) refl, v, idle, sent_idle s idle)
  | no busy ↦ absurd (ground arith)
]
tx_wait_lem (suc fuel) s v h = elim (ℕ_discrete s.tx_ongoing 0) [
  | yes idle ↦ (s, rw ((==_iff s.tx_ongoing 0).1 idle) refl, v, idle, sent_idle s idle)
  | no busy ↦
      let (v', same, fewer) = interrupt_step s v busy in
      let (s', run, v'', idle, sent) = tx_wait_lem fuel (tx_interrupt s) v' (omega arith) in
      (s', tx_wait_step fuel s v busy ∙ run, v'', idle, sent ∙ same)
]

tx_start_lem :
    (s : Serial) (buf : List ℕ) (n : ℕ)
    → IsSending s
    → s.tx_ongoing ≡ 0
    → 1 ≤ n
    → n ≤ 32
    → n ≤ length buf
    → IsSending (tx_start s buf n) × (outgoing (tx_start s buf n) ≡ s.sent ++ take n buf)
unfolding tx_start
tx_start_lem s buf n v idle p q r = (
  record {
    room = omega (arith, v.room, length-overlay s.tx_buffer (take n buf));
    state = omega arith;
    on = λ busy. refl;
  },
  shown,
)
  where
    counted : length (take n buf) ≡ n
    counted = omega (arith, length-take n buf)

    front : take n (overlay s.tx_buffer (take n buf)) ≡ take n buf
    front =
        ap (take n) (overlay-append-drop s.tx_buffer (take n buf) (omega (arith, counted)))
        ∙ ap (λ m. take m (take n buf ++ drop (length (take n buf)) s.tx_buffer)) (sym counted)
        ∙ take-append (take n buf) (drop (length (take n buf)) s.tx_buffer)

    whole :
        take n (overlay s.tx_buffer (take n buf))
        ≡ get_or (overlay s.tx_buffer (take n buf)) 0 0
          ∷ drop 1 (take n (overlay s.tx_buffer (take n buf)))
    whole =
        drop-take 0 n (overlay s.tx_buffer (take n buf)) p
          (omega (arith, length-overlay s.tx_buffer (take n buf)))

    shown :
        (s.sent ++ get_or (overlay s.tx_buffer (take n buf)) 0 0 ∷ [])
          ++ drop 1 (take n (overlay s.tx_buffer (take n buf)))
        ≡ s.sent ++ take n buf
    shown =
        append_assoc s.sent (get_or (overlay s.tx_buffer (take n buf)) 0 0 ∷ []) _
        ∙ ap (λ t. s.sent ++ t) (sym whole ∙ front)

-- From a state with a transmit buffer of 32 bytes that is idle or has a transmission under way, and
-- with an array that has the bytes asked for: a call of `serial_tx` with 1 to 32 bytes waits until
-- what was under way has gone out and then sends its bytes; any other size is refused with 1, and
-- nothing changes. With 32 interrupts to wait for, the call returns. This is `Port.write`.
pub tx_refines :
    (fuel : ℕ) (s : Serial) (buf : List ℕ) (n : ℕ) (input : List ℕ)
    → IsSending s
    → 32 ≤ fuel
    → n ≤ length buf
    → (code : ℕ) × (s' : Serial) × (tx fuel s (some buf) n ≡ some (code, s'))
      × IsSending s'
      × ((code, record { input = input; output = outgoing s' })
          ≡ Port.write (record { input = input; output = outgoing s }) buf n)
unfolding tx Port.write
tx_refines fuel s buf n input v p q = elim (Bool-cases (n == 0 || ltb 32 n)) [
  | inl refused ↦ (1, s, rw refused refl, v, rw refused refl)
  | inr fits ↦
      let (s₁, run, v₁, idle, sent) = tx_wait_lem fuel s v (ground arith) in
      let (v₂, out) = tx_start_lem s₁ buf n v₁ idle (ground arith) (ground arith) q in
      (0, tx_start s₁ buf n, rw (fits, run) refl, v₂, rw (fits, out, sent) refl)
]
