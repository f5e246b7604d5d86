-- ===== src/Field/Wire.antt =====
-- The bus with one slave on it, as the master's interrupt routine drives it.
use ammc.Base.{
  ℕ, ◌*◌, ◌/◌, ◌%◌, ◌<◌, ◌≤◌, ◌≡◌, refl, true, false, Option, some, List, [], ◌∷◌, length, ◌==◌,
  if◌then◌else◌, arith,
}
use ammc.Master.Twi.{Twi, ready, start, mt_sla_ack, on_wire, send, addr_write}
use ammc.Master.Twi.Transfers.{data_acks, IsFinished, on_wire-send}
use ammc.Slave.Command.{Slave}
use ammc.Field.{deliver}

-- What is on the wire reaches the slave: the first byte is the address, with the bit for writing.
unfoldable pub heard : {F : Type 0} → Option (Slave F) → List ℕ → Option (Slave F)
heard s [] = s
heard s (first ∷ bytes) = if first % 2 == 0 then deliver s (first / 2) bytes else s

-- A slave that takes the address and each byte hears what the master's `twi_send` was given: the
-- bytes that the interrupt routine puts on the wire are a transfer of the data to the address, which
-- is below 128, and at its end the module is ready again without an error.
pub heard-send :
    {F : Type 0} (s : Option (Slave F)) (t : Twi) (addr : ℕ) (bytes : List ℕ)
    → addr < 128
    → t.mode ≡ ready
    → length t.tx_buffer ≡ 33
    → length bytes ≤ 32
    → (wire : List ℕ) × (last : Twi) × (on_wire
          (start ∷ mt_sla_ack ∷ data_acks (length bytes))
          (send t addr bytes (length bytes) false).1
        ≡ some (wire, last))
      × (heard s wire ≡ deliver s addr bytes)
      × IsFinished last
unfolding heard addr_write
heard-send s t addr bytes small is_ready room fits =
    let (code, (last, run, finished)) = on_wire-send t addr bytes is_ready room fits in
    let write : (2 * addr % 256 % 2 == 0) ≡ true = ground arith in
    let same : 2 * addr % 256 / 2 ≡ addr = omega arith in
    (addr_write addr ∷ bytes, last, run, rw (write, same) refl, finished)
