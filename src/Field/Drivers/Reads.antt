-- ===== src/Field/Drivers/Reads.antt =====
-- The bytes that the master reads from the slave, through both drivers.
use ammc.Base.{
  ℕ, suc, ◌+◌, ◌^◌, ◌<◌, ◌≡◌, refl, sym, ap, ◌∙◌, true, false, none, some, List, [], ◌∷◌, ◌++◌,
  append_assoc, length, length-append, drop, get_or, set, set-append_at, length-append_at,
  get_or-append_at, ltb, leb, if◌then◌else◌, arith,
}
use ammc.Master.Twi.{Twi as MasterTwi, isr as master_isr, fetch, finish}
use ammc.Master.Twi.Transfers.{IsFinished}
use ammc.Master.Twi.Receives.{
  more, last as last_byte, stored, released, fetch-more, fetch-last, store_lem,
}
use ammc.Slave.Twi.{
  Twi as SlaveTwi, isr as slave_isr, transmit, st_data_nack, ready as slave_ready,
  enabled as slave_enabled, acking as slave_acking,
}
use ammc.Field.Drivers.{wired, both, read, byte, stop, step, run, quiet, reading, alone}
use ammc.Field.Drivers.Writes.{run-step}

-- The slave that has given a byte to the hardware, and at the end of a transfer.
abbrev pub loaded : SlaveTwi → ℕ → SlaveTwi
loaded s b = record s { error = none; twdr = b; tx_idx = suc s.tx_idx; twcr = slave_acking }

abbrev pub answered : SlaveTwi → SlaveTwi
answered s = record s {
  error = if leb s.tx_size s.tx_idx then none else some st_data_nack;
  mode = slave_ready;
  twcr = slave_enabled;
}

pub transmit_lem :
    (s : SlaveTwi) (b : ℕ)
    → s.tx_idx < length s.tx_buffer
    → get_or s.tx_buffer s.tx_idx 0 ≡ b
    → transmit s ≡ some (loaded s b)
unfolding transmit
transmit_lem s b inside next =
    let within : ltb s.tx_idx (length s.tx_buffer) ≡ true = ground arith in rw (within, next) refl

-- A byte that the master acknowledges, with the next one behind it, and the last byte.
step-read :
    (m : MasterTwi) (s s' : SlaveTwi)
    → m.rx_idx < length m.rx_buffer
    → transmit s ≡ some s'
    → step (wired (more m) s reading) ≡ some (wired (fetch (stored (more m) s.twdr)) s' reading)
unfolding step byte read both master_isr slave_isr
step-read m s s' inside sent = rw (store_lem (more m) s.twdr inside, sent, both) refl

step-last :
    (m : MasterTwi) (s : SlaveTwi)
    → m.rx_idx < length m.rx_buffer
    → m.locks ≡ false
    → step (wired (last_byte m) s reading)
      ≡ some (wired (released (stored (last_byte m) s.twdr)) (answered s) alone)
unfolding step byte read both master_isr slave_isr finish
step-last m s inside free = rw (store_lem (last_byte m) s.twdr inside, free, both) refl

run_stop :
    (m : MasterTwi) (s : SlaveTwi)
    → run 1 (wired (released m) s alone) ≡ some (wired (released m) s quiet)
unfolding run step stop
run_stop m s = refl

-- The byte that the slave has loaded goes behind those that the master has.
stored_byte :
    (m : MasterTwi) (s : SlaveTwi) (pre room : List ℕ) (r b : ℕ)
    → m.rx_buffer ≡ pre ++ (r ∷ room)
    → m.rx_idx ≡ length pre
    → s.twdr ≡ b
    → set m.rx_buffer m.rx_idx s.twdr ≡ (pre ++ b ∷ []) ++ room
stored_byte m s pre room r b buffer idx byte =
    set-append_at pre room r s.twdr buffer idx ∙ ap (λ x. (pre ++ x ∷ []) ++ room) byte

-- The bytes from the one that the slave has loaded on, until the master has as many as it wants.
pub reads-run :
    (m : MasterTwi) (s : SlaveTwi) (pre room sent bs post : List ℕ) (b : ℕ)
    → m.rx_buffer ≡ pre ++ room
    → m.rx_idx ≡ length pre
    → m.rx_size ≡ length pre + suc (length bs)
    → length bs < length room
    → m.rx_size < 2 ^ 16
    → m.locks ≡ false
    → s.twdr ≡ b
    → s.tx_buffer ≡ sent ++ (bs ++ post)
    → s.tx_idx ≡ length sent
    → (m' : MasterTwi) × (s' : SlaveTwi) × (run (suc (suc (length bs))) (wired (fetch m) s reading)
        ≡ some (wired m' (answered s') quiet))
      × (m'.rx_buffer ≡ pre ++ (b ∷ (bs ++ drop (suc (length bs)) room)))
      × (m'.rx_idx ≡ m.rx_size)
      × (s'.tx_idx ≡ length sent + length bs)
      × (s'.tx_size ≡ s.tx_size)
      × IsFinished m'
reads-run m s pre [] sent bs post b buffer idx size fits word free byte out at =
    absurd (omega arith)
reads-run m s pre (r ∷ room) sent [] post b buffer idx size fits word free byte out at =
    let inside : m.rx_idx < length m.rx_buffer = length-append_at pre room r buffer idx in
    (
      released (stored (last_byte m) s.twdr),
      s,
      rw (fetch-last m (omega (arith, idx, size)) word) (
          run-step 1 (wired (last_byte m) s reading)
            (wired (released (stored (last_byte m) s.twdr)) (answered s) alone)
            (wired (released (stored (last_byte m) s.twdr)) (answered s) quiet)
            (step-last m s inside free) (run_stop (stored (last_byte m) s.twdr) (answered s))),
      stored_byte m s pre room r b buffer idx byte ∙ append_assoc pre (b ∷ []) room,
      omega (arith, idx, size),
      omega (arith, at),
      refl,
      (refl, refl, refl),
    )
reads-run m s pre (r ∷ room) sent (c ∷ bs) post b buffer idx size fits word free byte out at =
    let inside : m.rx_idx < length m.rx_buffer = length-append_at pre room r buffer idx in
    let (m', s', rest, buffer', idx', at', size', finished) =
      reads-run (stored (more m) s.twdr) (loaded s c) (pre ++ b ∷ []) room (sent ++ c ∷ []) bs post
        c (stored_byte m s pre room r b buffer idx byte)
        (omega (arith, idx, length-append {0} pre (b ∷ [])))
        (omega (arith, size, length-append {0} pre (b ∷ []))) (omega arith) word free refl
        (out ∙ sym (append_assoc sent (c ∷ []) (bs ++ post)))
        (omega (arith, at, length-append {0} sent (c ∷ []))) in
    (
      m',
      s',
      rw (fetch-more m (length bs) (omega (arith, idx, size)) word) (
          run-step (suc (suc (length bs))) (wired (more m) s reading)
            (wired (fetch (stored (more m) s.twdr)) (loaded s c) reading)
            (wired m' (answered s') quiet)
            (step-read m s (loaded s c) inside (
              transmit_lem s c (length-append_at sent (bs ++ post) c out at)
                (get_or-append_at sent (bs ++ post) c 0 out at)))
            rest),
      buffer' ∙ append_assoc pre (b ∷ []) (c ∷ (bs ++ drop (suc (length bs)) room)),
      idx',
      omega (arith, at', length-append {0} sent (c ∷ [])),
      size',
      finished,
    )
