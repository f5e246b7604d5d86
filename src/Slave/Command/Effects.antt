-- ===== src/Slave/Command/Effects.antt =====
-- What a command of the master does to the slave.
use ammc.Base.{
  ℕ, ◌+◌, ◌*◌, ◌≤◌, ◌<◌, ◌≡◌, refl, ap, ap₂, ◌∙◌, true, none, some, List, [], ◌∷◌, ◌++◌, length,
  length-drop, drop, get_or, ltb, ◌==◌, inl, inr, Bool-cases, arith,
}
use ammc.Master.Commands.{Command, command_id, set_speed, apply_speed}
use ammc.Slave.Motor.{compute_limited_speed, set_next, apply_next}
use ammc.Slave.Twi
use ammc.Slave.Twi.{Twi, rx_max_len}
use ammc.Slave.Twi.Transfers.{recv-stored, recv_overflow}
use ammc.Slave.Command.{
  Slave, command_isvalid, dispatch, execute_command, change_twi_address_to, command_respond,
  main_round, of_bytes, to_bytes,
}

-- The three copies of the slave's address agree, and it is one that a slave may have.
abbrev pub HasAddress : {F : Type 0} → Slave F → Type 0
HasAddress s =
    (s.own_address ≡ s.eeprom) × (s.twi.address ≡ s.eeprom) × (0 < s.eeprom) × (s.eeprom < 127)

send-address : (t : Twi) (bytes : List ℕ) (size : ℕ) → (Twi.send t bytes size).1.address ≡ t.address
unfolding Twi.send
send-address t bytes size = elim (Bool-cases (ltb 32 size)) [
  | inl e ↦ rw e refl
  | inr e ↦ rw e refl
]

valid_address :
    (cmd : Command) (size : ℕ)
    → (cmd.id == 4) ≡ true
    → command_isvalid cmd size ≡ true
    → (0 < get_or cmd.argument 0 0) × (get_or cmd.argument 0 0 < 127)
unfolding command_isvalid
valid_address cmd size e valid = ground arith

respond-HasAddress :
    {F : Type 0} (s : Slave F) (bytes : List ℕ) (size : ℕ)
    → HasAddress s
    → HasAddress (command_respond s bytes size)
unfolding command_respond
respond-HasAddress s bytes size (own, address, positive, small) =
    (own, send-address s.twi bytes size ∙ address, positive, small)

dispatch-HasAddress :
    {F : Type 0} (s : Slave F) (cmd : Command) (size : ℕ)
    → command_isvalid cmd size ≡ true
    → HasAddress s
    → HasAddress (dispatch s cmd size)
unfolding dispatch change_twi_address_to Twi.init
dispatch-HasAddress s cmd size valid h = elim (Bool-cases (cmd.id == 0)) [
  | inl a ↦ rw a (respond-HasAddress s _ 2 h)
  | inr a ↦ elim (Bool-cases (cmd.id == 1)) [
    | inl b ↦ rw (a, b) h
    | inr b ↦ elim (Bool-cases (cmd.id == 2)) [
      | inl c ↦ rw (a, b, c) h
      | inr c ↦ elim (Bool-cases (cmd.id == 3)) [
        | inl d ↦ rw (a, b, c, d) (respond-HasAddress s cmd.argument _ h)
        | inr d ↦ elim (Bool-cases (cmd.id == 4)) [
          | inl e ↦
              let (positive, small) = valid_address cmd size e valid in
              rw (a, b, c, d, e) (refl, omega (arith, small), positive, small)
          | inr e ↦ rw (a, b, c, d, e) h
        ]
      ]
    ]
  ]
]

-- If the EEPROM, the memory and the bus interface agree on an address from 1 to 126, they still do
-- after any command of any size, valid or not.
pub execute_command-HasAddress :
    {F : Type 0} (s : Slave F) (cmd : Command) (size : ℕ)
    → HasAddress s
    → HasAddress (execute_command s cmd size)
unfolding execute_command
execute_command-HasAddress s cmd size h = elim (Bool-cases (command_isvalid cmd size)) [
  | inl valid ↦ rw valid (dispatch-HasAddress s cmd size valid h)
  | inr invalid ↦ rw invalid h
]

mode-is_ready : (t : Twi) → t.mode ≡ Twi.ready → Twi.is_ready t ≡ true
unfolding Twi.is_ready
mode-is_ready t e = ap (λ m. Twi.is_ready (record t { mode = m })) e

-- While the module is ready, a round of the main loop executes the bytes that the master sent, over those that lay in the
-- command before.
main_round-received :
    {F : Type 0} (s : Slave F) (bs : List ℕ)
    → length bs ≤ length (to_bytes s.command)
    → Twi.is_ready s.twi ≡ true
    → let cmd = of_bytes (bs ++ drop (length bs) (to_bytes s.command)) in
      (t : Twi) × (main_round s bs
        ≡ some (execute_command (record s { twi = t; command = cmd }) cmd (length bs)))
      × (t.address ≡ s.twi.address)
      × (Twi.is_ready t ≡ true)
unfolding main_round
main_round-received s bs room free =
    let (t, run, mode, buffer, idx, address) =
      recv-stored s.twi (to_bytes s.command) bs rx_max_len room in
    (
      t,
      rw (free, run, main_round)
          (ap₂
            (λ buf n.
              some
                (execute_command (record s { twi = t; command = of_bytes buf }) (of_bytes buf) n))
            buffer idx),
      address,
      mode-is_ready t mode,
    )

-- A slave that is ready and whose command has 16 bytes: after the master's commands to set a speed and to apply it, a
-- round of the main loop for each, the slave's target speed is the limited one; the first command
-- alone leaves the target as it was.
pub main_round-speed :
    {F : Type 0} (s : Slave F) (low high : ℕ)
    → length s.command.argument ≡ 15
    → Twi.is_ready s.twi ≡ true
    → (s' s'' : Slave F) × (main_round s (command_id set_speed ∷ low ∷ high ∷ []) ≡ some s')
      × (main_round s' (command_id apply_speed ∷ []) ≡ some s'')
      × (s'.motor.speed_target ≡ s.motor.speed_target)
      × (s''.motor.speed_target ≡ compute_limited_speed (low + 256 * high))
unfolding execute_command command_isvalid dispatch set_next apply_next
main_round-speed s low high room free =
    let (t, set_run, _, still_free) =
      main_round-received s (1 ∷ low ∷ high ∷ []) (omega arith) free in
    let (u, apply_run, _, _) = main_round-received _ (2 ∷ []) (omega arith) still_free in
    (_, _, set_run, apply_run, refl, refl)

-- A slave whose command has 16 bytes, whose address is not 0, and whose module is ready: the
-- master has read what it was to answer.
abbrev pub IsReady : {F : Type 0} → Slave F → Type 0
IsReady s = (length s.command.argument ≡ 15) × (0 < s.twi.address) × (Twi.is_ready s.twi ≡ true)

-- One round of the main loop for each of the two commands: what it does to the slave's speeds, and
-- that the slave is as ready as before.
pub main_round-set :
    {F : Type 0} (s : Slave F) (low high : ℕ)
    → IsReady s
    → (s' : Slave F) × (main_round s (command_id set_speed ∷ low ∷ high ∷ []) ≡ some s')
      × IsReady s'
      × (s'.twi.address ≡ s.twi.address)
      × (s'.motor.speed_target ≡ s.motor.speed_target)
      × (s'.motor.speed_next ≡ compute_limited_speed (low + 256 * high))
unfolding execute_command command_isvalid dispatch set_next
main_round-set s low high (room, positive, free) =
    let (t, run, address, still_free) =
      main_round-received s (1 ∷ low ∷ high ∷ []) (omega arith) free in
    (
      _,
      run,
      (omega (arith, length-drop 2 s.command.argument), omega (arith, address), still_free),
      address,
      refl,
      refl,
    )

pub main_round-apply :
    {F : Type 0} (s : Slave F)
    → IsReady s
    → (s' : Slave F) × (main_round s (command_id apply_speed ∷ []) ≡ some s')
      × (s'.motor.speed_target ≡ s.motor.speed_next)
unfolding execute_command command_isvalid dispatch apply_next
main_round-apply s (room, positive, free) =
    let (t, run, _, _) = main_round-received s (2 ∷ []) (omega arith) free in (_, run, refl)

-- With the slave's module ready, a transfer of more bytes than the 16 of a command, although of at
-- most the 32 that the program asks for, makes the interrupt routine write past the command on the stack of `main`.
pub main_round_overflow :
    {F : Type 0} (s : Slave F) (bs : List ℕ)
    → length s.command.argument ≡ 15
    → Twi.is_ready s.twi ≡ true
    → 16 < length bs
    → length bs ≤ rx_max_len
    → main_round s bs ≡ none
unfolding main_round
main_round_overflow s bs room free more asked =
    rw (free, recv_overflow s.twi (to_bytes s.command) bs rx_max_len (omega arith), main_round) refl
