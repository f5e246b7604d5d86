-- ===== src/Field.antt =====
-- The master's bus with one slave on it: master/source/dcmotor.c at one end and the main loop of
-- slave/source/main.c at the other.
pub mod Speed
pub mod Wire
pub mod Drivers
pub mod Many
mod Tests
use ammc.Base.{ℕ, ◌%◌, ◌||◌, Option, none, some, List, [], take, min, ◌==◌, if◌then◌else◌}
use ammc.Bus.{Bus}
use ammc.Slave.Twi.{answer}
use ammc.Slave.Command.{Slave, main_round}

-- A transfer to the slave's address, or the broadcast; `none` once the slave has accessed memory
-- past an array. `twi_send` shifts an address into a byte, which cuts it to seven bits.
unfoldable pub deliver : {F : Type 0} → Option (Slave F) → ℕ → List ℕ → Option (Slave F)
deliver none address bytes = none
deliver (some s) address bytes =
    let heard = address % 128 in
    if heard == 0 || heard == s.twi.address then main_round s bytes else some s

-- What the slave has prepared to send.
unfoldable pub prepared : {F : Type 0} → Option (Slave F) → ℕ → List ℕ
prepared none n = []
prepared (some s) n = take (min n s.twi.tx_size) s.twi.tx_buffer

-- The master reads from an address: what it gets, and the slave behind it, whose module is ready.
unfoldable pub prepared_for : {F : Type 0} → Option (Slave F) → ℕ → ℕ → List ℕ
prepared_for none address n = []
prepared_for (some s) address n = if address % 128 == s.twi.address then prepared (some s) n else []

unfoldable pub fetched : {F : Type 0} → Option (Slave F) → ℕ → ℕ → Option (Slave F)
fetched none address n = none
fetched (some s) address n =
    if address % 128 == s.twi.address
    then elim (answer s.twi n) [ none ↦ none | some twi ↦ some (record s { twi = twi }) ]
    else some s

abbrev pub slave_bus : (F : Type 0) → Bus
slave_bus F = record {
  World = Option (Slave F);
  send = deliver;
  recv = λ w address n. (prepared_for w address n, fetched w address n);
}
