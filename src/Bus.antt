-- ===== src/Bus.antt =====
-- The I2C bus as the master uses it: `twi_send_sm` and `twi_recv_sm` of master/include/twi.h. What
-- is behind it (the slaves and the wires) is a parameter of the modules that use the bus.
use ammc.Base.{ℕ, List}

pub record Bus : Type 1 where
  pub World : Type 0
  -- Address 0 is the broadcast. The time that a transfer takes is not counted.
  pub send : World → ℕ → List ℕ → World
  -- The bytes received, at most as many as asked for.
  pub recv : World → ℕ → ℕ → List ℕ × World
