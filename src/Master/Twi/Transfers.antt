-- ===== src/Master/Twi/Transfers.antt =====
-- Whole transfers on the bus, as the master's interrupt routine carries them out.
use ammc.Base.{
  ℕ, zero, suc, ◌+◌, ◌≤◌, ◌<◌, ◌≡◌, refl, sym, ap, ◌∙◌, true, false, none, some, List, [], ◌∷◌,
  ◌++◌, append_assoc, length, length-append, take_all, drop, get_or, get_or-append_at,
  length-append_at, overlay, overlay-append-drop, ltb, arith,
}
use ammc.Master.Twi.{
  Twi, Status, start, mt_sla_ack, mt_data_ack, no_info, ready, initializing, transmitting, going,
  stopping, starting, isr, transmit, finish, on_wire, send, send_raw, addr_write,
}

-- As many interrupts for a data byte that the slave took.
unfoldable pub data_acks : ℕ → List Status
data_acks zero = []
data_acks (suc n) = mt_data_ack ∷ data_acks n

-- The module behind a byte that it has given to the hardware, and at the end of a transfer.
abbrev pub given : Twi → ℕ → Twi
given t b = record t { twdr = b; tx_idx = suc t.tx_idx; error = some no_info; twcr = going }

abbrev pub IsFinished : Twi → Type 0
IsFinished t = (t.mode ≡ ready) × (t.error ≡ none) × (t.twcr ≡ stopping)

-- The module that has released the bus.
abbrev pub released : Twi → Twi
released t = record t { error = none; mode = ready; twcr = stopping }

pub transmit_more :
    (t : Twi) (b : ℕ)
    → t.tx_idx < t.tx_size
    → t.tx_idx < length t.tx_buffer
    → get_or t.tx_buffer t.tx_idx 0 ≡ b
    → transmit t ≡ some (given t b)
unfolding transmit
transmit_more t b more inside byte =
    let left : ltb t.tx_idx t.tx_size ≡ true = ground arith in
    let within : ltb t.tx_idx (length t.tx_buffer) ≡ true = ground arith in
    rw (left, within, byte) refl

pub transmit_last :
    (t : Twi) → t.tx_idx ≡ t.tx_size → t.locks ≡ false → transmit t ≡ some (released t)
unfolding transmit finish
transmit_last t all free =
    let done : ltb t.tx_idx t.tx_size ≡ false = ground arith in rw (done, free) refl

on_wire_step :
    (status : Status) (t t' : Twi) (b : ℕ) (statuses : List Status) (bytes : List ℕ) (last : Twi)
    → isr status t ≡ some (given t' b)
    → on_wire statuses (given t' b) ≡ some (bytes, last)
    → on_wire (status ∷ statuses) t ≡ some (b ∷ bytes, last)
unfolding on_wire
on_wire_step status t t' b statuses bytes last e run = rw (e, on_wire, run) refl

-- The bytes from `tx_idx` on are sent one by one; then the bus is released.
on_wire_rest :
    (t : Twi) (pre bytes post : List ℕ)
    → t.tx_buffer ≡ pre ++ (bytes ++ post)
    → t.tx_idx ≡ length pre
    → t.tx_size ≡ length pre + length bytes
    → t.locks ≡ false
    → (last : Twi) × (on_wire (mt_data_ack ∷ data_acks (length bytes)) t ≡ some (bytes, last))
      × IsFinished last
unfolding isr data_acks
on_wire_rest t pre [] post buffer idx size free = (
  released t,
  unfold on_wire in rw (transmit_last t (omega (arith, idx, size)) free, on_wire) refl,
  (refl, refl, refl),
)
on_wire_rest t pre (b ∷ bytes) post buffer idx size free =
    let (last, run, finished) =
      on_wire_rest (given t b) (pre ++ b ∷ []) bytes post
        (buffer ∙ sym (append_assoc pre (b ∷ []) (bytes ++ post)))
        (omega (arith, idx, length-append {0} pre (b ∷ [])))
        (omega (arith, size, length-append {0} pre (b ∷ []))) free in
    (
      last,
      on_wire_step mt_data_ack t t b (data_acks (suc (length bytes))) bytes last
          (transmit_more t b (omega (arith, idx, size))
            (length-append_at pre (bytes ++ post) b buffer idx)
            (get_or-append_at pre (bytes ++ post) b 0 buffer idx))
          run,
      finished,
    )

-- The module when `twi_send` has started.
abbrev pub sending : Twi → List ℕ → ℕ → Twi
sending t buffer size = record t {
  tx_buffer = buffer;
  tx_size = size;
  tx_idx = 0;
  locks = false;
  mode = initializing;
  twcr = starting;
}

pub send_lem :
    (t : Twi) (addr : ℕ) (bytes : List ℕ)
    → t.mode ≡ ready
    → length bytes ≤ 32
    → send t addr bytes (length bytes) false
      ≡ (0, sending t (overlay t.tx_buffer (addr_write addr ∷ bytes)) (length bytes + 1))
unfolding send send_raw
send_lem t addr bytes is_ready fits =
    let fine : ltb 32 (length bytes) ≡ false = ground arith in
    rw (fine, is_ready, take_all (length bytes) bytes (omega arith)) refl

-- `twi_send` of at most 32 bytes with the module ready and a slave that takes the address and each
-- byte: it returns 0, and what the interrupt routine puts on the wire is the address with the bit
-- for writing, and then the bytes in order; then the bus is released, without an error, and the
-- module is ready again.
pub on_wire-send :
    (t : Twi) (addr : ℕ) (bytes : List ℕ)
    → t.mode ≡ ready
    → length t.tx_buffer ≡ 33
    → length bytes ≤ 32
    → let (code, started) = send t addr bytes (length bytes) false in
      (code ≡ 0)
      × ((last : Twi) × (on_wire (start ∷ mt_sla_ack ∷ data_acks (length bytes)) started
            ≡ some (addr_write addr ∷ bytes, last))
          × IsFinished last)
unfolding isr
on_wire-send t addr bytes is_ready room fits =
    let first = addr_write addr in
    let buffer = overlay t.tx_buffer (first ∷ bytes) in
    let filled = overlay-append-drop t.tx_buffer (first ∷ bytes) (omega (arith, room)) in
    let started = sending t buffer (length bytes + 1) in
    let (last, run, finished) =
      on_wire_rest (record (given started first) { mode = transmitting }) (first ∷ []) bytes
        (drop (suc (length bytes)) t.tx_buffer) filled refl (omega arith) refl in
    rw (send_lem t addr bytes is_ready fits) (
      refl,
      (
        last,
        on_wire_step start started started first (mt_sla_ack ∷ data_acks (length bytes)) bytes last
            (transmit_more started first (omega arith) (omega (arith, ap length filled))
              (ap (λ xs. get_or xs 0 0) filled))
            (unfold on_wire in run),
        finished,
      ),
    )
