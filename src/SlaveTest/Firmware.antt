-- ===== src/SlaveTest/Firmware.antt =====
-- Test programs that run on the slave: slave/test/test-twi.c, and the position in
-- slave/test/test-encoder.c.
use ammc.Base.{
  ℕ, ◌+◌, ◌-◌, ◌%◌, ◌^◌, ◌≡◌, refl, ap, Bool, true, not, ◌&&◌, Option, none, some, List, [], ◌∷◌,
  get_or, ◌==◌, if◌then◌else◌, arith,
}
use ammc.Slave.Motor.{read_phase_a, read_phase_b}
use ammc.Slave.Twi
use ammc.Slave.Twi.{Twi, enabled}
use ammc.Slave.Twi.Transfers.{recv-stored}

-- The slave of the bus test: its array of one byte, its LED, and its module.
pub record Echoer : Type 0 where
  pub input : ℕ
  pub led : Bool
  pub twi : Twi

-- A round of its loop, for the bytes that the master sends: a byte is received, `A` turns the LED on,
-- and the byte is prepared to be sent back. `none` if more bytes come in.
unfoldable pub echo_round : Echoer → List ℕ → Option Echoer
echo_round e bytes = elim (Twi.recv e.twi (e.input ∷ []) 1 bytes) [
  | none ↦ none
  | some twi ↦
      let input = get_or twi.rx_buffer 0 0 in
      some (record {
        input = input;
        led = if twi.rx_idx == 1 && input == b'A' then true else e.led;
        twi = (Twi.send twi (input ∷ []) 1).1;
      })
]

-- The encoder's interrupt of the encoder test: the position is a word of 32 bits.
unfoldable pub encoder_isr : ℕ → ℕ → ℕ
encoder_isr position pins =
    if not (read_phase_a pins == 0)
    then (position + (if not (read_phase_b pins == 0) then 1 else 2 ^ 32 - 1)) % 2 ^ 32
    else position

-- One byte to the slave of the bus test: it is prepared to be sent back, and `A` has turned the LED
-- on.
echo_round-byte :
    (e : Echoer) (b : ℕ)
    → (e' : Echoer) × (echo_round e (b ∷ []) ≡ some e')
      × (e'.input ≡ b)
      × (e'.led ≡ (if b == b'A' then true else e.led))
unfolding echo_round
echo_round-byte e b =
    let (t, run, mode, buffer, idx, address) =
      recv-stored e.twi (e.input ∷ []) (b ∷ []) 1 (omega arith) in
    let input = get_or t.rx_buffer 0 0 in
    (
      record {
        input = input;
        led = if t.rx_idx == 1 && input == b'A' then true else e.led;
        twi = (Twi.send t (input ∷ []) 1).1;
      },
      rw (run, echo_round) refl,
      ap (λ xs. get_or xs 0 0) buffer,
      rw (idx, buffer) refl,
    )
