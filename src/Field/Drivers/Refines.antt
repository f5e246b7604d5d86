-- ===== src/Field/Drivers/Refines.antt =====
-- The drivers at the two ends of the bus carry out what the abstract bus of Field says.
use ammc.Base.{
  ℕ, suc, ◌+◌, ◌*◌, ◌/◌, ◌%◌, ◌≤◌, ◌<◌, ◌≡◌, ◌≢◌, refl, ap, Bool, true, false, some, List, ◌∷◌,
  length, get_or, overlay, overlay-append-drop, ◌==◌, ◌||◌, inl, inr, ◌⊎◌, Bool-cases, arith,
}
use ammc.Master.Twi.{
  Twi as MasterTwi, isr as master_isr, finish, transmit, send, addr_write, ready, mt_sla_nack,
  stopping,
}
use ammc.Master.Twi.Transfers.{given, sending, transmit_more, send_lem, IsFinished}
use ammc.Slave.Twi.{Twi as SlaveTwi, is_ready as slave_is_ready, start_recv, rx_max_len}
use ammc.Slave.Command.{Slave, main_round, to_bytes, of_bytes, execute_command}
use ammc.Field.{deliver}
use ammc.Field.Drivers.{
  wired, both, acknowledges, address, byte, stop, step, run, quiet, addressing, alone,
}
use ammc.Field.Drivers.Writes.{run-step}
use ammc.Field.Drivers.Sends.{Takes, send-recv, step-start}

-- The slave's loop goes on when `twi_recv` has returned.
abbrev pub executed : {F : Type 0} → Slave F → SlaveTwi → Slave F
executed s twi =
    let command = of_bytes twi.rx_buffer in
    execute_command (record s { twi = twi; command = command }) command twi.rx_idx

Takes-deliver :
    {F : Type 0} (s : Slave F) (addr : ℕ) (general : Bool) (bytes : List ℕ)
    → Takes s.twi addr general
    → deliver (some s) addr bytes ≡ main_round s bytes
unfolding deliver
Takes-deliver s addr general bytes (inl (all, zero_addr)) =
    let taken : (addr % 128 == 0 || addr % 128 == s.twi.address) ≡ true = ground arith in
    rw taken refl
Takes-deliver s addr general bytes (inr (one, positive, small, own)) =
    let taken : (addr % 128 == 0 || addr % 128 == s.twi.address) ≡ true = ground arith in
    rw taken refl

-- The master's `twi_send` of at most 16 bytes, with its module ready, to a slave that waits for a
-- command of 16 bytes in its main loop, so that its module was ready before, at the slave's address,
-- below 128, or as a broadcast: the two interrupt routines take the transfer to its end, where the
-- master has released the bus without an error; the slave, which then goes on in its loop with what
-- its routine has received, is where the abstract bus delivers the bytes to.
pub send-deliver :
    {F : Type 0} (m : MasterTwi) (s : Slave F) (addr : ℕ) (bytes : List ℕ) (general : Bool)
    → m.mode ≡ ready
    → length m.tx_buffer ≡ 33
    → length s.command.argument ≡ 15
    → slave_is_ready s.twi ≡ true
    → length bytes ≤ 16
    → Takes s.twi addr general
    → (last : MasterTwi) × (twi : SlaveTwi) × (run (suc (suc (suc (length bytes)))) (
          wired
            (send m addr bytes (length bytes) false).1
            (start_recv s.twi (to_bytes s.command) rx_max_len)
            quiet)
        ≡ some (wired last twi quiet))
      × (deliver (some s) addr bytes ≡ some (executed s twi))
      × IsFinished last
unfolding main_round
send-deliver m s addr bytes general is_ready room slave_room free fits takes =
    let (last, twi, both_run, received, finished) =
      send-recv m s.twi addr rx_max_len bytes (to_bytes s.command) general is_ready room
        (omega arith) (omega (arith, slave_room)) takes in
    (
      last,
      twi,
      both_run,
      rw (Takes-deliver s addr general bytes takes, free, received, main_round) refl,
      finished,
    )

-- A slave that does not take the address: it does not acknowledge, or the address is another.
abbrev pub Refuses : SlaveTwi → ℕ → Type 0
Refuses s addr = (acknowledges s ≡ false) ⊎ ((0 < addr) × (addr < 128) × (s.address ≢ addr))

-- The module that has released the bus with an error.
abbrev pub failed : MasterTwi → MasterTwi
failed m = record m { error = some mt_sla_nack; mode = ready; twcr = stopping }

step-refused :
    (m : MasterTwi) (s : SlaveTwi) (addr : ℕ)
    → m.locks ≡ false
    → Refuses s addr
    → step (wired (given m (addr_write addr)) s addressing)
      ≡ some (wired (failed (given m (addr_write addr))) s alone)
unfolding step byte address both master_isr finish addr_write
step-refused m s addr free (inl deaf) =
    let writes : (2 * addr % 256 % 2 == 0) ≡ true = ground arith in
    rw (deaf, writes, free, both) refl
step-refused m s addr free (inr (positive, small, other)) =
    let nonzero : (2 * addr % 256 == 0) ≡ false = ground arith in
    let differs : (2 * addr % 256 / 2 == s.address) ≡ false = ground arith in
    let writes : (2 * addr % 256 % 2 == 0) ≡ true = ground arith in
    elim (Bool-cases (acknowledges s)) [
      | inl hears ↦ rw (hears, nonzero, differs, writes, free, both) refl
      | inr deaf ↦ rw (deaf, writes, free, both) refl
    ]

-- The master's `twi_send` of at most 32 bytes to a slave that does not take the address, since it
-- is busy in its loop or has another one: the call returns 0, nothing but the address is on the
-- wire, the slave's module is as before, and the master's is ready again with the error kept.
pub send-refused :
    (m : MasterTwi) (s : SlaveTwi) (addr : ℕ) (bytes : List ℕ)
    → m.mode ≡ ready
    → length m.tx_buffer ≡ 33
    → length bytes ≤ 32
    → Refuses s addr
    → let (code, started) = send m addr bytes (length bytes) false in
      (code ≡ 0)
      × ((last : MasterTwi) × (run 3 (wired started s quiet) ≡ some (wired last s quiet))
          × (last.mode ≡ ready)
          × (last.error ≡ some mt_sla_nack)
          × (last.twcr ≡ stopping))
unfolding master_isr transmit
send-refused m s addr bytes is_ready room fits refuses =
    let first = addr_write addr in
    let filled = overlay-append-drop m.tx_buffer (first ∷ bytes) (omega (arith, room)) in
    let started = sending m (overlay m.tx_buffer (first ∷ bytes)) (length bytes + 1) in
    let last = failed (given started first) in
    rw (send_lem m addr bytes is_ready fits) (
      refl,
      (
        last,
        run-step 2 (wired started s quiet) (wired (given started first) s addressing)
            (wired last s quiet)
            (step-start started (given started first) s refl (
              transmit_more started first (omega arith) (omega (arith, ap length filled))
                (ap (λ xs. get_or xs 0 0) filled)))
            (run-step 1 (wired (given started first) s addressing) (wired last s alone)
              (wired last s quiet) (step-refused started s addr refl refuses)
              (unfold run step stop in refl)),
        refl,
        refl,
        refl,
      ),
    )
