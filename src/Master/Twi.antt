-- ===== src/Master/Twi.antt =====
-- master/source/twi.c: the master's side of the I2C bus. The hardware raises the interrupt with a
-- status; the registers are the data register and what was last written to the control register.
pub mod Transfers
pub mod Receives
mod Tests
use ammc.Base.{
  ℕ, zero, suc, ◌+◌, ◌-◌, ◌*◌, ◌/◌, ◌-◌, ◌%◌, ◌^◌, Bool, true, false, ◌||◌, ◌==◌, Option, none,
  some, List, [], ◌∷◌, length, take, get_or, set, overlay, ltb, if◌then◌else◌,
}

-- `TW_STATUS`
pub data Status : Type 0 where
  start rep_start mt_sla_ack mt_data_ack mt_sla_nack mt_data_nack : Status
  mr_sla_ack mr_data_ack mr_sla_nack mr_data_nack arb_lost no_info bus_error : Status

-- `twi_mode_t`
pub data Mode : Type 0 where
  ready repeated_start initializing transmitting receiving : Mode

-- What TWCR was set to: `twi_init`, `twi_start`, `twi_stop`, `twi_ack`; `twi_transfer` and `twi_nak`
-- set it to the same.
pub data Control : Type 0 where
  enabled starting stopping acking going : Control

-- The module's variables and registers. An error is `none` for `TW_SUCCESS`. `rx_buffer` is the
-- array that the caller of `twi_recv` passed.
pub record Twi : Type 0 where
  pub mode : Mode
  pub error : Option Status
  pub locks : Bool
  pub rx_buffer : List ℕ
  pub tx_buffer : List ℕ
  pub rx_idx : ℕ
  pub tx_idx : ℕ
  pub rx_size : ℕ
  pub tx_size : ℕ
  pub twdr : ℕ
  pub twcr : Control
  pub twbr : ℕ

abbrev pub rx_max_len : ℕ
rx_max_len = 32

abbrev pub tx_max_len : ℕ
tx_max_len = 32

-- `twi_addr_write`, `twi_addr_read`
unfoldable pub addr_write : ℕ → ℕ
addr_write addr = 2 * addr % 256

unfoldable pub addr_read : ℕ → ℕ
addr_read addr = (2 * addr + 1) % 256

-- `F_CPU` of master/Makefile and `TW_FREQ`
abbrev pub f_cpu : ℕ
f_cpu = 16000000

abbrev pub tw_freq : ℕ
tw_freq = 100000

-- `twi_init`, without the prescaler and the pull-up resistors
unfoldable pub init : Twi → Twi
init t = record t { twbr = (f_cpu / tw_freq - 16) / 2; twcr = enabled }

-- `twi_isready`, `twi_successful`
unfoldable pub is_ready : Twi → Bool
is_ready t = elim t.mode [
  | ready ↦ true
  | repeated_start ↦ true
  | initializing ↦ false
  | transmitting ↦ false
  | receiving ↦ false
]

unfoldable pub successful : Twi → Bool
successful t = elim t.error [ none ↦ true | some e ↦ false ]

-- `twi_status`
unfoldable pub twi_status : Twi → Option Status
twi_status t = t.error

-- `_twi_send`
unfoldable pub send_raw : Twi → ℕ → Bool → Twi
send_raw t size bus_lock =
    let sending = record t { tx_size = size; tx_idx = 0; locks = bus_lock; mode = initializing } in
    let first = record sending { twdr = get_or t.tx_buffer 0 0; tx_idx = 1; twcr = going } in
    let behind = record sending { twcr = starting } in
    elim t.mode [
      | ready ↦ behind
      | repeated_start ↦ first
      | initializing ↦ behind
      | transmitting ↦ behind
      | receiving ↦ behind
    ]

-- `twi_send`, behind its wait for the module to be ready: the code, and the module.
unfoldable pub send : Twi → ℕ → List ℕ → ℕ → Bool → ℕ × Twi
send t addr bytes size bus_lock = if ltb tx_max_len size then (1, t) else (
  0,
  send_raw (record t { tx_buffer = overlay t.tx_buffer (addr_write addr ∷ take size bytes) })
      (size + 1) bus_lock,
)

-- `twi_recv` between its two waits, for a `to_recv` of at most 32.
unfoldable pub start_recv : Twi → ℕ → List ℕ → ℕ → Bool → Twi
start_recv t addr buf to_recv bus_lock =
    send_raw
      (record t {
        rx_buffer = buf;
        rx_size = to_recv;
        rx_idx = 0;
        tx_buffer = overlay t.tx_buffer (addr_read addr ∷ []);
      })
      1 bus_lock

-- The end of a transfer: the bus is kept, or released.
unfoldable pub finish : Twi → Option Status → Twi
finish t error =
    if t.locks
    then record t { error = error; twcr = starting }
    else record t { error = error; mode = ready; twcr = stopping }

-- The next byte of `tx_buffer`, as far as there is one to send; `none` behind the array's end.
unfoldable pub transmit : Twi → Option Twi
transmit t =
    if ltb t.tx_idx t.tx_size
    then (if ltb t.tx_idx (length t.tx_buffer)
        then some (record t {
          twdr = get_or t.tx_buffer t.tx_idx 0;
          tx_idx = suc t.tx_idx;
          error = some no_info;
          twcr = going;
        })
        else none)
    else some (finish t none)

-- The byte received goes to `rx_buffer`; `none` behind its end.
unfoldable pub store : Twi → Option Twi
store t =
    if ltb t.rx_idx (length t.rx_buffer)
    then some (record t { rx_buffer = set t.rx_buffer t.rx_idx t.twdr; rx_idx = suc t.rx_idx })
    else none

-- The next byte is to be acknowledged, or is the last one. `rx_size - 1` is in `size_t`.
unfoldable pub fetch : Twi → Twi
fetch t = record t {
  mode = receiving;
  error = some no_info;
  twcr = if ltb t.rx_idx ((t.rx_size + 2 ^ 16 - 1) % 2 ^ 16) then acking else going;
}

-- `ISR(TWI_vect)`; `none` for an access out of an array's bounds.
unfoldable pub isr : Status → Twi → Option Twi
isr mt_sla_ack t = transmit (record t { mode = transmitting })
isr start t = transmit t
isr mt_data_ack t = transmit t
isr mr_data_ack t = elim (store t) [ none ↦ none | some t' ↦ some (fetch t') ]
isr mr_sla_ack t = some (fetch t)
isr mr_data_nack t = elim (store t) [ none ↦ none | some t' ↦ some (finish t' none) ]
isr mr_sla_nack t = some (finish t (some mr_sla_nack))
isr mt_sla_nack t = some (finish t (some mt_sla_nack))
isr mt_data_nack t = some (finish t (some mt_data_nack))
isr arb_lost t = some (finish t (some arb_lost))
isr rep_start t = some (record t { mode = repeated_start })
isr no_info t = some t
isr bus_error t = some (record t { error = some bus_error; mode = ready; twcr = stopping })

-- What a slave makes of a transfer of the master's: it takes the address and then each byte, as the
-- interrupts for a start, for the address and for each byte say. The bytes that are on the wire
-- then, and the module.
unfoldable pub on_wire : List Status → Twi → Option (List ℕ × Twi)
on_wire [] t = some ([], t)
on_wire (status ∷ statuses) t = elim (isr status t) [
  | none ↦ none
  | some t' ↦ (elim (on_wire statuses t') [
    | none ↦ none
    | some (bytes, last) ↦ some (elim t'.twcr [
      | enabled ↦ (bytes, last)
      | starting ↦ (bytes, last)
      | stopping ↦ (bytes, last)
      | acking ↦ (bytes, last)
      | going ↦ (t'.twdr ∷ bytes, last)
    ])
  ])
]

-- The bytes of a slave that was addressed: while the master acknowledges, the next one comes in; one
-- more when it does not. What the master has not taken, and the module.
unfoldable pub take_bytes : List ℕ → Twi → Option (List ℕ × Twi)
take_bytes [] t = some ([], t)
take_bytes (b ∷ bs) t = elim t.twcr [
  | acking ↦ (elim (isr mr_data_ack (record t { twdr = b })) [
    | none ↦ none
    | some t' ↦ take_bytes bs t'
  ])
  | going ↦ (elim (isr mr_data_nack (record t { twdr = b })) [
    | none ↦ none
    | some t' ↦ some (bs, t')
  ])
  | enabled ↦ some (b ∷ bs, t)
  | starting ↦ some (b ∷ bs, t)
  | stopping ↦ some (b ∷ bs, t)
]

-- `twi_recv` on a slave that takes its address, with the bytes that it would send. The count that it
-- returns is `rx_idx`.
unfoldable pub recv : Twi → ℕ → List ℕ → ℕ → List ℕ → Option (List ℕ × Twi)
recv t addr buf to_recv bytes = elim (isr start (start_recv t addr buf to_recv false)) [
  | none ↦ none
  | some addressed ↦ (elim (isr mr_sla_ack addressed) [
    | none ↦ none
    | some fetching ↦ take_bytes bytes fetching
  ])
]
