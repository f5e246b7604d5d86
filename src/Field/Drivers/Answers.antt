-- ===== src/Field/Drivers/Answers.antt =====
-- A whole answer of the slave's to the master, through both drivers.
use ammc.Base.{
  ℕ, suc, ◌+◌, ◌/◌, ◌%◌, ◌≤◌, ◌<◌, ◌≡◌, refl, sym, ap, ap₂, ◌∙◌, append_assoc, true, false, none,
  some, min, List, [], ◌∷◌, ◌++◌, length, length-append, take, take_all, take-append, drop, get_or,
  overlay, overlay-append-drop, ltb, leb, ◌==◌, if◌then◌else◌, arith,
}
use ammc.Master.Twi.{
  Twi as MasterTwi, isr as master_isr, send_raw, start_recv, addr_read, ready, fetch, going,
  starting,
}
use ammc.Master.Twi.Transfers.{IsFinished}
use ammc.Master.Twi.Receives.{addressing as asking, address_lem}
use ammc.Slave.Twi.{
  Twi as SlaveTwi, isr as slave_isr, send, transmitting, st_data_nack, ready as slave_ready,
  enabled as slave_enabled, acking as slave_acking, initializing,
}
use ammc.Slave.Command.{Slave, command_respond}
use ammc.Field.{prepared}
use ammc.Field.Drivers.{
  wired, both, acknowledges, address, byte, step, run, quiet, addressing, reading,
}
use ammc.Field.Drivers.Writes.{run-step}
use ammc.Field.Drivers.Sends.{step-start}
use ammc.Field.Drivers.Reads.{loaded, answered, transmit_lem, reads-run}

starting-recv :
    (m : MasterTwi) (addr to_recv : ℕ) (buf : List ℕ)
    → m.mode ≡ ready
    → (start_recv m addr buf to_recv false).twcr ≡ starting
unfolding start_recv send_raw
starting-recv m addr to_recv buf is_ready = rw is_ready refl

step-ask :
    (m : MasterTwi) (s : SlaveTwi) (addr b : ℕ)
    → m.twdr ≡ addr_read addr
    → addr < 128
    → s.address ≡ addr
    → acknowledges s ≡ true
    → s.tx_idx < length s.tx_buffer
    → get_or s.tx_buffer s.tx_idx 0 ≡ b
    → step (wired (record m { twcr = going }) s addressing)
      ≡ some (
          wired
            (fetch (record m { twcr = going }))
            (loaded (record s { mode = transmitting }) b)
            reading)
unfolding step byte address both master_isr slave_isr addr_read
step-ask m s addr b asked small own acks inside next =
    let nonzero : (m.twdr == 0) ≡ false = ground arith in
    let same : (m.twdr / 2 == s.address) ≡ true = ground arith in
    let reads : (m.twdr % 2 == 0) ≡ false = ground arith in
    rw
      (
        acks,
        nonzero,
        same,
        reads,
        transmit_lem (record s { mode = transmitting }) b inside next,
        both,
      )
      refl

-- The slave's module when `twi_send` was given data.
abbrev offering : SlaveTwi → List ℕ → ℕ → SlaveTwi
offering s buffer size = record s {
  mode = initializing;
  tx_buffer = buffer;
  tx_size = size;
  tx_idx = 0;
  twcr = slave_acking;
}

respond_lem :
    {F : Type 0} (s : Slave F) (bytes : List ℕ)
    → length bytes ≤ 32
    → command_respond s bytes (length bytes)
      ≡ record s { twi = offering s.twi (overlay s.twi.tx_buffer bytes) (length bytes) }
unfolding command_respond send
respond_lem s bytes fits =
    let fine : ltb 32 (length bytes) ≡ false = ground arith in
    rw (fine, take_all (length bytes) bytes (omega arith)) refl

prepared_lem :
    {F : Type 0} (s : Slave F) (bytes post : List ℕ) (rest : List ℕ)
    → s.twi.tx_buffer ≡ (bytes ++ rest) ++ post
    → s.twi.tx_size ≡ length bytes + length rest
    → prepared (some s) (length bytes) ≡ bytes
unfolding prepared
prepared_lem s bytes post rest buffer size =
    let asked : min (length bytes) s.twi.tx_size ≡ length bytes = omega (arith, size) in
    ap₂ take asked (buffer ∙ append_assoc bytes rest post) ∙ take-append bytes (rest ++ post)

-- The slave has prepared data of at most 32 bytes by `twi_send`, and the master's `twi_recv`, with
-- its module ready, asks at the slave's address for one or more of its bytes, into an array with
-- room for them. The two interrupt routines then take the transfer to its end: the master's array
-- has these bytes of the data, in order, and is untouched behind them, as the abstract bus says; the
-- master has released the bus without an error; the slave's module is ready again, with an error
-- unless the master has taken all of the data.
pub recv-respond :
    {F : Type 0} (m : MasterTwi) (s : Slave F) (addr : ℕ) (b : ℕ) (bs rest buf : List ℕ)
    → m.mode ≡ ready
    → length m.tx_buffer ≡ 33
    → length s.twi.tx_buffer ≡ 32
    → suc (length bs) + length rest ≤ 32
    → length bs < length buf
    → addr < 128
    → s.twi.address ≡ addr
    → let bytes = b ∷ (bs ++ rest) in
      let answering = command_respond s bytes (length bytes) in
      let wanted = suc (length bs) in
      (m' : MasterTwi) × (s' : SlaveTwi) × (run
          (suc (suc (suc wanted)))
          (wired (start_recv m addr buf wanted false) answering.twi quiet)
        ≡ some (wired m' s' quiet))
      × (m'.rx_buffer ≡ prepared (some answering) wanted ++ drop wanted buf)
      × (prepared (some answering) wanted ≡ b ∷ bs)
      × (m'.rx_idx ≡ wanted)
      × IsFinished m'
      × (s'.mode ≡ slave_ready)
      × (s'.twcr ≡ slave_enabled)
      × (s'.error ≡ (if leb (length bytes) wanted then none else some st_data_nack))
recv-respond m s addr b bs rest buf is_ready room slave_room fits inside small own =
    let bytes = b ∷ (bs ++ rest) in
    let wanted = suc (length bs) in
    let long = length-append {0} bs rest in
    let filled = overlay-append-drop s.twi.tx_buffer bytes (omega (arith, slave_room)) in
    let post = drop (length bytes) s.twi.tx_buffer in
    let t = offering s.twi (overlay s.twi.tx_buffer bytes) (length bytes) in
    let asked = asking m addr buf wanted in
    let (m', s', run_rest, buffer, idx, at, size, finished) =
      reads-run asked (loaded (record t { mode = transmitting }) b) [] buf (b ∷ []) bs
        (rest ++ post) b refl refl (omega arith) inside (omega arith) refl refl
        (filled ∙ ap (λ xs. b ∷ xs) (append_assoc bs rest post)) refl in
    let has = prepared_lem (record s { twi = t }) (b ∷ bs) post rest filled (omega (arith, long)) in
    rw (respond_lem s bytes (omega arith)) (
      m',
      answered s',
      run-step (suc (suc wanted)) (wired (start_recv m addr buf wanted false) t quiet)
          (wired asked t addressing) (wired m' (answered s') quiet)
          (step-start (start_recv m addr buf wanted false) asked t
            (starting-recv m addr wanted buf is_ready)
            (address_lem m addr buf wanted is_ready (omega (arith, room))))
          (run-step (suc wanted) (wired asked t addressing)
            (wired (fetch asked) (loaded (record t { mode = transmitting }) b) reading)
            (wired m' (answered s') quiet)
            (step-ask asked t addr b
              (ap (λ xs. get_or xs 0 0)
                (overlay-append-drop m.tx_buffer (addr_read addr ∷ []) (omega (arith, room))))
              small own (unfold acknowledges in refl) (omega (arith, ap length filled))
              (ap (λ xs. get_or xs 0 0) filled))
            run_rest),
      buffer ∙ ap (λ xs. xs ++ drop wanted buf) (sym has),
      has,
      idx,
      finished,
      refl,
      refl,
      ap₂ (λ n k. if leb n k then none else some st_data_nack) size (at ∙ omega arith),
    )
