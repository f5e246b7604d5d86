-- ===== src/Slave/Samples.antt =====
-- A slave for the tests and the examples, with integers in place of floating-point numbers.
use ammc.Base.{ℕ, ◌+◌, ◌-◌, ◌*◌, ◌/◌, ◌%◌, false, none}
use ammc.Samples.{zeros}
use ammc.Slave.Motor.{Float, Motor}
use ammc.Slave.Twi.{Twi, ready, enabled}
use ammc.Slave.Command.{Slave}

abbrev pub whole : Float
whole = record {
  F = ℕ;
  of_int16 = λ n. n;
  of_int32 = λ n. n;
  to_int16 = λ n. n;
  to_byte = λ n. n % 256;
  add = λ a b. a + b;
  sub = λ a b. a - b;
  mul = λ a b. a * b;
  div = λ a b. a / b;
}

abbrev pub still : Motor ℕ
still = record {
  position = 0;
  speed_actual = 0;
  speed_target = 0;
  speed_next = 0;
  phy = record { in1 = false; in2 = false; speed_register = 0 };
  pid = record { interval = 100; k_prop = 1; k_int = 3; k_der = 0; err_int = 0; err_prev = 0 };
}

abbrev pub quiet : Twi
quiet = record {
  mode = ready;
  error = none;
  rx_buffer = zeros 16;
  tx_buffer = zeros 32;
  rx_idx = 0;
  tx_idx = 0;
  rx_size = 0;
  tx_size = 0;
  twdr = 0;
  twcr = enabled;
  address = 1;
}

abbrev pub first_slave : Slave ℕ
first_slave = record {
  eeprom = 1;
  own_address = 1;
  command = record { id = 0; argument = zeros 15 };
  twi = quiet;
  motor = still;
}
