-- ===== src/Link.antt =====
-- master/source/main.c: the master at the other end of the client's serial line. Its loop calls
-- `communication_handler` when bytes have come in, and sleeps otherwise.
pub mod Fuel
pub mod Exchange
pub mod Answer
pub mod Session
pub mod Script
mod Tests
use ammc.Base.{ℕ, suc, ◌+◌, ◌*◌, Option, none, some, List, [], ◌++◌, length, take}
use ammc.Bus.{Bus}
use ammc.Master.Operations.{Locals}
use ammc.Master.Handler.{Handler, Round, returns, communication_handler}
use ammc.Master.Serial.{rx_buffer_size}
use ammc.Client.Comm.{Line}

module _ (bus : Bus) (locals : Locals) where
  open bus use {World}

  -- The bytes of the client behind those that are still in the master's receive buffer, at the
  -- latest that the handler may look at them: the interrupt drops those that find 32 in the buffer.
  abbrev pub delivered : Handler World → List ℕ → Handler World
  delivered h bytes = record h {
    comm = record h.comm {
      port = record { input = take rx_buffer_size (h.comm.port.input ++ bytes); output = [] };
    };
  }

  -- What the master sent is taken away, and has come when the client goes on, as it has for a client
  -- that waits for all of it; what it sent, and the master after it. A handler that waits
  -- for bytes, or that writes out of bounds, is one that the client does not hear from.
  abbrev pub cleared : Handler World → Handler World
  cleared h = record h { comm = record h.comm { port = record h.comm.port { output = [] } } }

  unfoldable pub settled : Handler World → Option (Round World) → Handler World × List ℕ
  settled h (some (returns h')) = (cleared h', h'.comm.port.output)
  settled h _ = (h, [])

  -- Rounds of the handler's loop, enough for the bytes of the input.
  abbrev pub rounds_for : Handler World → ℕ
  rounds_for h = 4 + 4 * length h.comm.port.input

  unfoldable pub exchange : Handler World → List ℕ → Handler World × List ℕ
  exchange h bytes =
      settled (delivered h bytes)
        (communication_handler bus locals (rounds_for (delivered h bytes)) (delivered h bytes))

  abbrev pub master : Line
  master = record { World = Handler World; exchange = exchange }
