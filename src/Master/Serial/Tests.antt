-- ===== src/Master/Serial/Tests.antt =====
-- Runs of serial.c, and examples of the theorems on it.
use ammc.Base.{ℕ, ◌≡◌, refl, inl, true, false, some, List, [], ◌∷◌, arith}
use ammc.Port
use ammc.Port.{Port}
use ammc.Master.Ring.Valid.{IsValid}
use ammc.Master.Serial.{Serial, tx}
use ammc.Master.Serial.Transmit.{IsSending, outgoing, tx_refines}
use ammc.Samples.{zeros}

abbrev idle : Serial
idle = record {
  rx_buffer = record { base = zeros 32; first = 0; last = 0; size = 32; full = 0 };
  rx_ongoing = 1;
  rx_enabled = true;
  tx_buffer = zeros 32;
  tx_to_transmit = 0;
  tx_transmitted = 0;
  tx_ongoing = 0;
  tx_enabled = false;
  sent = [];
}

idle-IsSending : IsSending idle
idle-IsSending = record { room = refl; state = inl refl; on = λ busy. absurd (busy refl) }

idle-IsValid : IsValid idle.rx_buffer
idle-IsValid = record {
  least = omega arith;
  byte = omega arith;
  fits = omega arith;
  first_in = omega arith;
  last_in = omega arith;
  state = inl refl;
}

tx_refines_example :
    (code : ℕ) × (s' : Serial) × (tx 32 idle (some (1 ∷ 2 ∷ 3 ∷ [])) 2 ≡ some (code, s'))
    × IsSending s'
    × ((code, record { input = []; output = outgoing s' })
        ≡ Port.write (record { input = []; output = outgoing idle }) (1 ∷ 2 ∷ 3 ∷ []) 2)
tx_refines_example =
    tx_refines 32 idle (1 ∷ 2 ∷ 3 ∷ []) 2 [] idle-IsSending (omega arith) (omega arith)

-- Bytes for three rounds, and then none for some more.
abbrev arrivals : List (List ℕ)
arrivals = (7 ∷ []) ∷ [] ∷ (8 ∷ 9 ∷ []) ∷ [] ∷ [] ∷ [] ∷ []
