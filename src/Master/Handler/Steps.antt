-- ===== src/Master/Handler/Steps.antt =====
-- Each round of the handler's loop comes nearer to its end, so the loop ends.
use ammc.Base.{
  ◌&&◌, ℕ, zero, suc, ◌+◌, ◌*◌, ◌≤◌, ◌<◌, ◌≡◌, ◌⊎◌, inl, inr, refl, ap, not, none, some, List, [],
  length, length-drop, length-zero, take, drop, ltb, ◌==◌, if◌then◌else◌, Bool-cases, ==_iff, arith,
}
use ammc.Bus.{Bus}
use ammc.Packet.{Packet, com_type, hnd}
use ammc.Port
use ammc.Port.{Port}
use ammc.ComError.{error_code}
use ammc.Master.Comm.{
  Received, done, blocked, overflow, recv, recv_body, rx_body_size, store_header, header_sanity,
  is_success,
}
use ammc.Master.Comm.Send.{next_id-lt}
use ammc.Master.Operations.{Locals}
use ammc.Master.Handler.{
  State, receiving, shaking, acking, naking, executing, Handler, Round, returns, continues, waits,
  overflows, after_recv, round, rounds, communication_handler,
}
use ammc.Master.Handler.Keeps.{reply-keeps, operation-Keeps}

read-shrinks :
    (p : Port) (n : ℕ)
    → (Port.read p n ≡ none)
      ⊎ ((bs : List ℕ) × (p' : Port) × (Port.read p n ≡ some (bs, p'))
          × (length p'.input + n ≡ length p.input))
unfolding Port.read
read-shrinks p n = elim (Bool-cases (ltb (length p.input) n)) [
  | inl e ↦ inl (rw e refl)
  | inr e ↦ inr (
    take n p.input,
    record p { input = drop n p.input },
    rw e refl,
    ground (arith, length-drop {0} n p.input),
  )
]

-- What `communication_recv` leaves to read: four bytes less at least.
abbrev Shrinks : ℕ → Received → Type 0
Shrinks n (done e rx p) = length p.input + 4 ≤ n
Shrinks n blocked = Unit
Shrinks n overflow = Unit

recv_body-Shrinks :
    (n : ℕ) (p : Port) (rx : Packet) → length p.input + 4 ≤ n → Shrinks n (recv_body p rx)
unfolding recv_body
recv_body-Shrinks n p rx h =
    elim (Bool-cases (ltb 33 (rx_body_size rx) && ltb 33 (length p.input))) [
      | inl e ↦ rw e tt
      | inr e ↦ rw e (elim (read-shrinks p (rx_body_size rx)) [
        | inl none_left ↦ rw (none_left, recv_body) tt
        | inr (bs, p', ok, less) ↦ rw (ok, recv_body) (omega arith)
      ])
    ]

recv-Shrinks : (g : ℕ) (p : Port) (rx : Packet) → Shrinks (length p.input) (recv g p rx)
unfolding recv
recv-Shrinks g p rx = elim (read-shrinks p 4) [
  | inl none_left ↦ rw (none_left, recv) tt
  | inr (bs, p', ok, less) ↦ rw (ok, recv) (judged p' (store_header rx bs) less)
]
  where
    judged :
        (p' : Port) (rx' : Packet)
        → length p'.input + 4 ≡ length p.input
        → Shrinks (length p.input) (
            if is_success (header_sanity g rx')
            then recv_body p' rx'
            else done (header_sanity g rx') rx' p')
    judged p' rx' less = elim (Bool-cases (is_success (header_sanity g rx'))) [
      | inl e ↦ rw e (recv_body-Shrinks (length p.input) p' rx' (omega arith))
      | inr e ↦ rw e (omega arith)
    ]

module _ (bus : Bus) (locals : Locals) where
  open bus use {World}

  -- Rounds until the loop ends, if every four bytes were a packet.
  abbrev rank : State → ℕ
  rank receiving = 0
  rank shaking = 3
  rank acking = 2
  rank executing = 1
  rank naking = 1

  abbrev pub measure : Handler World → ℕ
  measure h = 4 * length h.comm.port.input + rank h.state

  -- What a round that goes on does: it comes nearer to the end, and the id stays below 255.
  abbrev Nearer : Handler World → Round World → Type 0
  Nearer h (returns h') =
      (h'.state ≡ receiving) × (h'.comm.port.input ≡ []) × (h'.comm.global_id < 255)
  Nearer h (continues h') = (measure h' < measure h) × (h'.comm.global_id < 255)
  Nearer h waits = Unit
  Nearer h overflows = Unit

  rank-le : (st : State) → rank st ≤ 3
  rank-le receiving = omega arith
  rank-le shaking = omega arith
  rank-le acking = omega arith
  rank-le naking = omega arith
  rank-le executing = omega arith

  after_recv-Nearer :
      (h : Handler World) (r : Received)
      → h.comm.global_id < 255
      → Shrinks (length h.comm.port.input) r
      → Nearer h (after_recv bus locals h r)
  unfolding after_recv
  after_recv-Nearer h (done e rx p) small less = (
    omega (
      arith,
      less,
      rank-le (
          if not (is_success e)
          then naking
          else if rx.type == com_type hnd
          then shaking
          else acking),
    ),
    small,
  )
  after_recv-Nearer h blocked small less = tt
  after_recv-Nearer h overflow small less = tt

  round-Nearer :
      (st : State) (h : Handler World)
      → h.state ≡ st
      → h.comm.global_id < 255
      → Nearer h (round bus locals st h)
  unfolding round
  round-Nearer receiving h e small = elim (Bool-cases (length h.comm.port.input == 0)) [
    | inl none_left ↦
        rw none_left (e, length-zero h.comm.port.input ((==_iff _ 0).0 none_left), small)
    | inr more ↦ rw more (
        after_recv-Nearer h (recv h.comm.global_id h.comm.port h.rx) small
          (recv-Shrinks h.comm.global_id h.comm.port h.rx))
  ]
  round-Nearer shaking h e small = omega (arith, ap rank e)
  round-Nearer acking h e small =
      let (input, id, _) = reply-keeps bus locals h.comm 2 0 0 none in
      (omega (arith, ap rank e, ap length input), next_id-lt _)
  round-Nearer naking h e small =
      let (input, id, _) = reply-keeps bus locals h.comm 3 (error_code h.error) 0 none in
      omega (arith, ap rank e, ap length input)
  round-Nearer executing h e small =
      let (next, input, id, _) = operation-Keeps bus locals h.rx.type h in
      (omega (arith, ap rank e, ap rank next, ap length input), omega arith)

  -- How the loop can end: with no bytes left, in the receiving state and with an id below 255, or
  -- at a read that waits for bytes or writes out of bounds.
  abbrev pub Ends : Round World → Type 0
  Ends (returns h) = (h.state ≡ receiving) × (h.comm.port.input ≡ []) × (h.comm.global_id < 255)
  Ends (continues h) = ⊥
  Ends waits = Unit
  Ends overflows = Unit

  Ends-step :
      (fuel : ℕ) (h : Handler World) (r : Round World)
      → round bus locals h.state h ≡ r
      → Nearer h r
      → ((h' : Handler World)
          → (measure h' < measure h) × (h'.comm.global_id < 255)
          → (r : Round World) × (rounds bus locals fuel h' ≡ some r) × Ends r)
      → (r : Round World) × (rounds bus locals (suc fuel) h ≡ some r) × Ends r
  unfolding rounds
  Ends-step fuel h (returns h') e near more = (returns h', rw (e, rounds) refl, near)
  Ends-step fuel h (continues h') e near more =
      let (r, run, ends) = more h' near in (r, rw (e, rounds) run, ends)
  Ends-step fuel h waits e near more = (waits, rw (e, rounds) refl, tt)
  Ends-step fuel h overflows e near more = (overflows, rw (e, rounds) refl, tt)

  -- With more fuel than its measure the handler's loop ends, from any state.
  pub rounds-Ends :
      (fuel : ℕ) (h : Handler World)
      → h.comm.global_id < 255
      → measure h < fuel
      → (r : Round World) × (rounds bus locals fuel h ≡ some r) × Ends r
  rounds-Ends zero h small enough = absurd (omega arith)
  rounds-Ends (suc fuel) h small enough =
      Ends-step fuel h (round bus locals h.state h) refl (round-Nearer h.state h refl small)
        (λ h' near. rounds-Ends fuel h' near.1 (omega arith))

  -- From any state with an id below 255, `communication_handler` ends when it is given four rounds
  -- for each byte of its input and those of its state. If it returns, all input is used up, the
  -- state is the receiving one, and the id is below 255; otherwise it waits for bytes or writes out
  -- of bounds.
  pub handler_terminates :
      (h : Handler World)
      → h.comm.global_id < 255
      → (r : Round World) × (communication_handler bus locals (suc (measure h)) h ≡ some r) × Ends r
  unfolding communication_handler
  handler_terminates h small = rounds-Ends (suc (measure h)) _ small (omega arith)
