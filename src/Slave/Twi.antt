-- ===== src/Slave/Twi.antt =====
-- slave/source/twi.c: the slave's side of the I2C bus. The hardware raises the interrupt with a
-- status; the registers are the data register and what was last written to the control register.
pub mod Transfers
use ammc.Base.{
  ℕ, zero, suc, ◌+◌, ◌-◌, ◌%◌, Bool, true, false, not, ◌==◌, Option, none, some, List, [], ◌∷◌,
  length, take, get_or, set, overlay, ltb, leb, if◌then◌else◌,
}

-- `TW_STATUS`
pub data Status : Type 0 where
  st_sla_ack st_data_ack st_data_nack sr_sla_ack sr_gcall_ack : Status
  sr_data_ack sr_gcall_data_ack sr_stop st_last_data sr_data_nack sr_gcall_data_nack : Status
  bus_error no_info sr_arb_lost_sla_ack sr_arb_lost_gcall_ack st_arb_lost_sla_ack : Status

-- `twi_mode_t`
pub data Mode : Type 0 where
  ready initializing transmitting receiving : Mode

-- What TWCR was set to: `twi_enable`, `twi_ack`, `twi_release_bus`.
pub data Control : Type 0 where
  enabled acking released : Control

-- The module's variables and registers. An error is `none` for `TW_SUCCESS`. `rx_buffer` is the
-- array that the caller of `twi_recv` passed.
pub record Twi : Type 0 where
  pub mode : Mode
  pub error : Option Status
  pub rx_buffer : List ℕ
  pub tx_buffer : List ℕ
  pub rx_idx : ℕ
  pub tx_idx : ℕ
  pub rx_size : ℕ
  pub tx_size : ℕ
  pub twdr : ℕ
  pub twcr : Control
  pub address : ℕ

abbrev pub rx_max_len : ℕ
rx_max_len = 32

abbrev pub tx_max_len : ℕ
tx_max_len = 32

-- `twi_init`: the address goes to TWAR, which has seven bits for it, with the broadcast enabled.
unfoldable pub init : Twi → ℕ → Twi
init t slave_addr = record t { address = slave_addr % 128; twcr = enabled }

-- `twi_isready`, `twi_successful`
unfoldable pub is_ready : Twi → Bool
is_ready t = elim t.mode [
  | ready ↦ true
  | initializing ↦ false
  | transmitting ↦ false
  | receiving ↦ false
]

unfoldable pub successful : Twi → Bool
successful t = elim t.error [ none ↦ true | some e ↦ false ]

-- `twi_send`, behind its wait for the module to be ready: the code, and the module.
unfoldable pub send : Twi → List ℕ → ℕ → ℕ × Twi
send t bytes size = if ltb tx_max_len size then (1, t) else (
  0,
  record t {
    mode = initializing;
    tx_buffer = overlay t.tx_buffer (take size bytes);
    tx_size = size;
    tx_idx = 0;
    twcr = acking;
  },
)

-- `twi_recv` between its two waits, for a `to_recv` of at most 32.
unfoldable pub start_recv : Twi → List ℕ → ℕ → Twi
start_recv t buf to_recv = record t {
  mode = initializing;
  rx_buffer = buf;
  rx_size = to_recv;
  rx_idx = 0;
  twcr = acking;
}

-- The next byte of the array `tx_buffer`; `none` behind its end.
unfoldable pub transmit : Twi → Option Twi
transmit t =
    if ltb t.tx_idx (length t.tx_buffer)
    then some (record t {
      error = none;
      twdr = get_or t.tx_buffer t.tx_idx 0;
      tx_idx = suc t.tx_idx;
      twcr = acking;
    })
    else none

-- A byte is stored in `rx_buffer`, without a check against its size; `none` behind its end.
unfoldable pub receive : Twi → Option Twi
receive t =
    if ltb t.rx_idx (length t.rx_buffer)
    then some (record t {
      rx_buffer = set t.rx_buffer t.rx_idx t.twdr;
      rx_idx = suc t.rx_idx;
      error = some no_info;
      twcr = acking;
    })
    else none

-- `ISR(TWI_vect)`; `none` for an access out of an array's bounds.
unfoldable pub isr : Status → Twi → Option Twi
isr st_sla_ack t = transmit (record t { mode = transmitting })
isr st_data_ack t = transmit t
isr st_data_nack t = some (record t {
  error = if leb t.tx_size t.tx_idx then none else some st_data_nack;
  mode = ready;
  twcr = enabled;
})
isr sr_sla_ack t = some (record t { mode = receiving; twcr = acking })
isr sr_gcall_ack t = some (record t { mode = receiving; twcr = acking })
isr sr_data_ack t = receive t
isr sr_gcall_data_ack t = receive t
isr sr_stop t = some (record t { mode = ready; twcr = enabled })
isr st_last_data t = some (record t { error = some st_last_data; mode = ready; twcr = released })
isr sr_data_nack t = some (record t { error = some sr_data_nack; mode = ready; twcr = released })
isr sr_gcall_data_nack t =
    some (record t { error = some sr_gcall_data_nack; mode = ready; twcr = released })
isr bus_error t = some (record t { error = some bus_error; mode = ready; twcr = released })
isr no_info t = some t
isr sr_arb_lost_sla_ack t =
    some (record t { error = some sr_arb_lost_sla_ack; mode = ready; twcr = enabled })
isr sr_arb_lost_gcall_ack t =
    some (record t { error = some sr_arb_lost_gcall_ack; mode = ready; twcr = enabled })
isr st_arb_lost_sla_ack t =
    some (record t { error = some st_arb_lost_sla_ack; mode = ready; twcr = enabled })

-- Data bytes of the master, one interrupt each.
unfoldable pub receive_all : Twi → List ℕ → Option Twi
receive_all t [] = some t
receive_all t (b ∷ bs) = elim (isr sr_data_ack (record t { twdr = b })) [
  | none ↦ none
  | some t' ↦ receive_all t' bs
]

-- A transfer of the master to the slave: the address, the data bytes, and the stop.
unfoldable pub transfer : Twi → List ℕ → Option Twi
transfer t bytes = elim (isr sr_sla_ack t) [
  | none ↦ none
  | some addressed ↦ elim (receive_all addressed bytes) [
    | none ↦ none
    | some filled ↦ isr sr_stop filled
  ]
]

-- The data bytes that the master reads behind the first one, each acknowledged but the last.
unfoldable pub transmit_all : Twi → ℕ → Option Twi
transmit_all t zero = isr st_data_nack t
transmit_all t (suc more) = elim (isr st_data_ack t) [
  | none ↦ none
  | some t' ↦ transmit_all t' more
]

-- A transfer to the master, which reads `count` bytes.
unfoldable pub answer : Twi → ℕ → Option Twi
answer t count = elim (isr st_sla_ack t) [ none ↦ none | some t' ↦ transmit_all t' (count - 1) ]

-- `twi_recv` of `to_recv` bytes into an array behind its first wait, for the module to be ready,
-- with the bytes that the master then sends. The count that it returns is `rx_idx`.
unfoldable pub recv : Twi → List ℕ → ℕ → List ℕ → Option Twi
recv t buf to_recv bytes = transfer (start_recv t buf to_recv) bytes
