-- ===== src/Client/Serial.antt =====
-- client/source/serial.c: the loops of serial_rx and serial_tx, whose calls of `read` and `write` may
-- take fewer bytes than asked for, or fail.
pub mod Loops
pub mod Open
mod Tests
use ammc.Base.{
  ℕ, ◌+◌, ◌-◌, min, Bool, true, false, not, Option, none, some, List, [], ◌∷◌, ◌++◌, length, take,
  drop, leb, if◌then◌else◌,
}

-- What a call of `read` or `write` does: it fails, or it takes as many bytes at most.
pub data Call : Type 0 where
  fails : Call
  takes : ℕ → Call

-- How a loop ends: with the bytes moved and those that were not, after all or at an error; or it
-- goes on beyond the calls given.
pub data Moved : Type 0 where
  moved : List ℕ → List ℕ → Moved
  failed : List ℕ → List ℕ → Moved
  waiting : Moved

-- The loop of `serial_rx`: `dest` has the bytes read so far, `input` those that come in.
unfoldable pub rx_loop : List Call → ℕ → List ℕ → List ℕ → Moved
rx_loop [] size dest input = if leb size (length dest) then moved dest input else waiting
rx_loop (fails ∷ calls) size dest input =
    if leb size (length dest) then moved dest input else failed dest input
rx_loop (takes k ∷ calls) size dest input =
    let n = min k (size - length dest) in
    let behind = rx_loop calls size (dest ++ take n input) (drop n input) in
    if leb size (length dest) then moved dest input else behind

-- `serial_rx`: the code, -1 is `none`, and the bytes read and left. `none` at the outside is a loop
-- that is not at its end.
unfoldable pub rx : Bool → List Call → ℕ → List ℕ → Option (Option ℕ × List ℕ × List ℕ)
rx valid calls size input =
    if not valid then some (some 0, [], input) else elim (rx_loop calls size [] input) [
      | moved bytes left ↦ some (some size, bytes, left)
      | failed bytes left ↦ some (none, bytes, left)
      | waiting ↦ none
    ]

-- The loop of `serial_tx`: `sent` are the bytes written so far, `buf` the ones behind them.
unfoldable pub tx_loop : List Call → List ℕ → List ℕ → Moved
tx_loop calls sent [] = moved sent []
tx_loop [] sent (b ∷ bs) = waiting
tx_loop (fails ∷ calls) sent (b ∷ bs) = failed sent (b ∷ bs)
tx_loop (takes k ∷ calls) sent (b ∷ bs) = tx_loop calls (sent ++ take k (b ∷ bs)) (drop k (b ∷ bs))

-- `serial_tx` of the first `size` bytes of an array: the code, -1 is `none`, and the bytes written.
unfoldable pub tx : Bool → List Call → List ℕ → ℕ → Option (Option ℕ × List ℕ)
tx valid calls buf size =
    if not valid then some (none, []) else elim (tx_loop calls [] (take size buf)) [
      | moved sent left ↦ some (some size, sent)
      | failed sent left ↦ some (none, sent)
      | waiting ↦ none
    ]
