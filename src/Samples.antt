-- ===== src/Samples.antt =====
-- Data for the tests and the examples.
use ammc.Master.Twi.{Twi, ready, enabled}
use ammc.Base.{ℕ, zero, suc, List, [], ◌∷◌, take, drop, true, false, none, some}
use ammc.Bus.{Bus}
use ammc.Packet.{Packet}
use ammc.Master.Operations.{Locals}
use ammc.Client.Comm.{Line}
use ammc.Client.Commands.{Os}
use ammc.Client.Commands

abbrev pub zeros : ℕ → List ℕ
zeros zero = []
zeros (suc n) = 0 ∷ zeros n

abbrev pub blank : Packet
blank = record { id = 0; type = 0; selector = 0; size = 0; body = zeros 33 }

-- A bus that keeps what was sent last; a slave sends those bytes back.
abbrev pub mirror_bus : Bus
mirror_bus = record {
  World = List ℕ;
  send = λ w address bytes. bytes;
  recv = λ w address n. (take n w, drop n w);
}

abbrev pub blank_locals : Locals
blank_locals = record {
  packet = blank;
  stack = record { command = record { id = 0; argument = zeros 15 }; speed = zeros 2 };
  response = 0;
}

-- A line at whose end each transmission is answered by the same bytes.
abbrev pub same_answer : List ℕ → Line
same_answer answer = record { World = ℕ; exchange = λ w bytes. (suc w, answer) }

-- A bus on which no slave answers.
abbrev pub silent_bus : Bus
silent_bus = record {
  World = List ℕ;
  send = λ w address bytes. bytes;
  recv = λ w address n. ([], w);
}

-- A system on which every path opens as a terminal with the descriptor 3.
abbrev pub one_device : (World : Type 0) → Os World
one_device World = record {
  open_dev = λ w path. (some 3, w);
  is_tty = λ w fd. true;
  close_dev = λ w fd. (0, w);
}

abbrev pub blank_client : Commands.Locals
blank_client = record { packet = blank; pack_rx = blank; str = zeros 31 }

abbrev pub idle_master : Twi
idle_master = record {
  mode = ready;
  error = none;
  locks = false;
  rx_buffer = [];
  tx_buffer = zeros 33;
  rx_idx = 0;
  tx_idx = 0;
  rx_size = 0;
  tx_size = 0;
  twdr = 0;
  twcr = enabled;
  twbr = 0;
}
