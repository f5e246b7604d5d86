-- ===== src/Field/Drivers/Writes.antt =====
-- The bytes of a transfer of the master's to the slave, through both drivers.
use ammc.Base.{
  ℕ, suc, ◌+◌, ◌≤◌, ◌<◌, ◌≡◌, refl, sym, ◌∙◌, Bool, true, false, some, List, [], ◌∷◌, ◌++◌,
  append_assoc, length, length-append, length-set, get_or-append_at, length-append_at, ltb, arith,
}
use ammc.Master.Twi.{Twi as MasterTwi, isr as master_isr, transmit}
use ammc.Master.Twi.Transfers.{given, released, transmit_more, transmit_last, IsFinished}
use ammc.Slave.Twi.{
  Twi as SlaveTwi, isr as slave_isr, receive, receive_all, ready as slave_ready,
  enabled as slave_enabled,
}
use ammc.Slave.Twi.Transfers.{stored, receive_step}
use ammc.Field.Drivers.{
  Drivers, wired, both, acknowledges, data_status, write, byte, stop, step, run, quiet, writing,
}

pub run-step :
    (n : ℕ) (d d' last : Drivers)
    → step d ≡ some d'
    → run n d' ≡ some last
    → run (suc n) d ≡ some last
unfolding run
run-step n d d' last e rest = rw (e, run) rest

-- A data byte goes to `rx_buffer`, however the slave was addressed, and the next is acknowledged.
data-receive : (general : Bool) (s : SlaveTwi) → slave_isr (data_status general) s ≡ receive s
unfolding data_status slave_isr
data-receive true s = refl
data-receive false s = refl

receive_lem :
    (s : SlaveTwi) (b : ℕ)
    → s.rx_idx < length s.rx_buffer
    → receive (record s { twdr = b }) ≡ some (stored s b)
unfolding receive
receive_lem s b inside =
    let within : ltb s.rx_idx (length s.rx_buffer) ≡ true = ground arith in rw within refl

-- A byte that the master has given to the hardware, with the next one or the end behind it.
step-write :
    (general : Bool) (m m' : MasterTwi) (s s' : SlaveTwi) (b : ℕ)
    → acknowledges s ≡ true
    → receive (record s { twdr = b }) ≡ some s'
    → transmit (given m b) ≡ some m'
    → step (wired (given m b) s (writing general)) ≡ some (wired m' s' (writing general))
unfolding step byte write both master_isr
step-write general m m' s s' b acks stored_byte sent =
    rw (acks, data-receive general (record s { twdr = b }), stored_byte, sent, both) refl

-- The slave behind the master's stop.
abbrev pub stopped : SlaveTwi → SlaveTwi
stopped s = record s { mode = slave_ready; twcr = slave_enabled }

-- The rest of a transfer, from an acknowledgement on, when there is room for it.
pub writes-run :
    (general : Bool) (m : MasterTwi) (s : SlaveTwi) (pre bytes post : List ℕ)
    → m.tx_buffer ≡ pre ++ (bytes ++ post)
    → m.tx_idx ≡ length pre
    → m.tx_size ≡ length pre + length bytes
    → m.locks ≡ false
    → acknowledges s ≡ true
    → s.rx_idx + length bytes ≤ length s.rx_buffer
    → (m' last : MasterTwi) × (s' : SlaveTwi) × (transmit m ≡ some m')
      × (receive_all s bytes ≡ some s')
      × (run (suc (length bytes)) (wired m' s (writing general))
          ≡ some (wired last (stopped s') quiet))
      × IsFinished last
unfolding receive_all
writes-run general m s pre [] post buffer idx size free acks inside = (
  released m,
  released m,
  s,
  transmit_last m (omega (arith, idx, size)) free,
  refl,
  unfold run step stop both slave_isr in refl,
  (refl, refl, refl),
)
writes-run general m s pre (b ∷ bytes) post buffer idx size free acks inside =
    let (m', last, s', sent, received, rest, finished) =
      writes-run general (given m b) (stored s b) (pre ++ b ∷ []) bytes post
        (buffer ∙ sym (append_assoc pre (b ∷ []) (bytes ++ post)))
        (omega (arith, idx, length-append {0} pre (b ∷ [])))
        (omega (arith, size, length-append {0} pre (b ∷ []))) free (unfold acknowledges in refl)
        (omega (arith, length-set s.rx_buffer s.rx_idx b)) in
    (
      given m b,
      last,
      s',
      transmit_more m b (omega (arith, idx, size))
          (length-append_at pre (bytes ++ post) b buffer idx)
          (get_or-append_at pre (bytes ++ post) b 0 buffer idx),
      receive_step s b bytes (omega arith) ∙ received,
      run-step (suc (length bytes)) (wired (given m b) s (writing general))
          (wired m' (stored s b) (writing general)) (wired last (stopped s') quiet)
          (step-write general m m' s (stored s b) b acks (receive_lem s b (omega arith)) sent) rest,
      finished,
    )
