-- ===== src/Master/Serial.antt =====
-- master/source/serial.c. The register UDR0 is the list of the bytes written to it, the interrupt
-- enable bits are flags, and the other registers of the USART are left out. An interrupt is a
-- function; the loops that wait for one run it.
pub mod Transmit
pub mod Receive
mod Tests
use ammc.Base.{
  ℕ, zero, suc, ◌+◌, ◌-◌, ◌%◌, Bool, true, false, not, ◌||◌, Option, none, some, List, [], ◌∷◌,
  ◌++◌, take, get_or, overlay, ltb, ◌==◌, if◌then◌else◌, u8,
}
use ammc.Master.Ring.{Ring}
use ammc.Master.Ring

abbrev pub tx_buffer_size : ℕ
tx_buffer_size = 32

abbrev pub rx_buffer_size : ℕ
rx_buffer_size = 32

-- The static variables of serial.c and what it does to UCSR0B and UDR0.
pub record Serial : Type 0 where
  pub rx_buffer : Ring
  pub rx_ongoing : ℕ
  pub rx_enabled : Bool
  pub tx_buffer : List ℕ
  pub tx_to_transmit : ℕ
  pub tx_transmitted : ℕ
  pub tx_ongoing : ℕ
  pub tx_enabled : Bool
  pub sent : List ℕ

-- `serial_init`, over the raw array of the receive buffer
unfoldable pub init : Serial → List ℕ → Serial
init s rx_buffer_raw = record s {
  rx_buffer = (Ring.new s.rx_buffer (some rx_buffer_raw) rx_buffer_size).1;
  rx_enabled = true;
  tx_enabled = false;
  rx_ongoing = 1;
}

-- The receive interrupt, with the byte in UDR0.
unfoldable pub rx_interrupt : Serial → ℕ → Serial
rx_interrupt s udr =
    if Ring.is_full s.rx_buffer == 0
    then record s { rx_buffer = (Ring.push s.rx_buffer udr).1 }
    else s

-- `serial_tx_reset`
unfoldable pub tx_reset : Serial → Serial
tx_reset s = record s { tx_enabled = false; tx_to_transmit = 0; tx_transmitted = 0; tx_ongoing = 0 }

-- The transmit interrupt.
unfoldable pub tx_interrupt : Serial → Serial
tx_interrupt s =
    let n = u8 (s.tx_transmitted + 1) in
    if ltb n s.tx_to_transmit
    then record s { tx_transmitted = n; sent = s.sent ++ get_or s.tx_buffer n 0 ∷ [] }
    else tx_reset (record s { tx_transmitted = n })

-- `while (tx_ongoing) ;`: the interrupts that end the wait, at most `fuel` of them; none comes in
-- while they are disabled.
unfoldable pub tx_wait : ℕ → Serial → Option Serial
tx_wait zero s = if s.tx_ongoing == 0 then some s else none
tx_wait (suc fuel) s =
    let rest = tx_wait fuel (if s.tx_enabled then tx_interrupt s else s) in
    if s.tx_ongoing == 0 then some s else rest

-- What `serial_tx` does behind the wait.
unfoldable pub tx_start : Serial → List ℕ → ℕ → Serial
tx_start s buf size =
    let tx_buffer = overlay s.tx_buffer (take size buf) in
    record s {
      tx_ongoing = 1;
      tx_to_transmit = size;
      tx_transmitted = 0;
      tx_buffer = tx_buffer;
      tx_enabled = true;
      sent = s.sent ++ get_or tx_buffer 0 0 ∷ [];
    }

-- `serial_tx`: the code, and the state with the first byte sent.
unfoldable pub tx : ℕ → Serial → Option (List ℕ) → ℕ → Option (ℕ × Serial)
tx fuel s none size = some (1, s)
tx fuel s (some buf) size =
    if size == 0 || ltb tx_buffer_size size
    then some (1, s)
    else elim (tx_wait fuel s) [ none ↦ none | some s' ↦ some (0, tx_start s' buf size) ]

-- The bytes of some receive interrupts in a row.
unfoldable pub arrive : Serial → List ℕ → Serial
arrive s [] = s
arrive s (b ∷ bs) = arrive (rx_interrupt s b) bs

-- `buf[n] = byte` before the rest is read.
abbrev pub push_front :
    Option ℕ → Option (List ℕ × Serial × List (List ℕ)) → Option (List ℕ × Serial × List (List ℕ))
push_front (some b) (some (bs, s, rounds)) = some (b ∷ bs, s, rounds)
push_front _ _ = none

-- `serial_rx` with `left` bytes still to read. Before each round of its loop the bytes that the
-- schedule has for it arrive; `none` is a loop that still waits at the end of the schedule.
unfoldable pub rx : List (List ℕ) → Serial → ℕ → Option (List ℕ × Serial × List (List ℕ))
rx rounds s zero = some ([], s, rounds)
rx [] s (suc left) = none
rx (bytes ∷ rounds) s (suc left) =
    let s' = arrive s bytes in
    let (code, byte, rb) = Ring.pop s'.rx_buffer in
    let popped = rx rounds (record s' { rx_buffer = rb }) left in
    let waited = rx rounds s' (suc left) in
    if Ring.is_empty s'.rx_buffer == 0 then push_front byte popped else waited

-- `serial_rx_nonblock`, `size` bytes at most: what is there is read.
unfoldable pub rx_nonblock : Serial → ℕ → List (Option ℕ) × Serial
rx_nonblock s zero = ([], s)
rx_nonblock s (suc left) =
    let (code, byte, rb) = Ring.pop s.rx_buffer in
    let (bytes, s') = rx_nonblock (record s { rx_buffer = rb }) left in
    if Ring.is_empty s.rx_buffer == 0 then (byte ∷ bytes, s') else ([], s)

-- `serial_rx_available`, `serial_tx_sent`, `serial_rx_ongoing`, `serial_tx_ongoing`
abbrev pub rx_available : Serial → ℕ
rx_available s = Ring.used s.rx_buffer

abbrev pub tx_sent : Serial → ℕ
tx_sent s = s.tx_transmitted

-- `serial_rx_reset`: the receive interrupt is off while the buffer is emptied.
unfoldable pub rx_reset : Serial → Serial
rx_reset s = record s { rx_buffer = Ring.flush s.rx_buffer; rx_enabled = true }
